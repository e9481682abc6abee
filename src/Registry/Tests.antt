-- ===== src/Registry/Tests.antt =====
-- Runs of the registry.
use logspine.Prelude.{◌≡◌, ◌≢◌, some, bytes_eq, bytes_eq_iff, codes, arith}
use logspine.Level.{info, error}
use logspine.Logger.{Logger}
use logspine.Registry.{Registry, new_registry, get, set_level}
use logspine.Registry.Lookup.{IsValid, logger_at, new_registry-IsValid, get-IsValid, get-set_level}

abbrev one_logger : Registry
one_logger = (get (codes "http") (new_registry info)).1

one_logger-IsValid : IsValid one_logger
one_logger-IsValid = get-IsValid (codes "http") (new_registry info) (new_registry-IsValid info)

db_ne : codes "db" ≢ codes "http"
unfolding bytes_eq
db_ne = ground (arith, bytes_eq_iff (codes "db") (codes "http"))

get-IsValid_example : IsValid (get (codes "db") one_logger).1
get-IsValid_example = get-IsValid (codes "db") one_logger one_logger-IsValid

get-set_level_example :
    let r' = get (codes "http") (set_level error one_logger) in
    (l : Logger) × (logger_at r'.1 r'.0 ≡ some l)
    × (l.minimum_level ≡ error)
    × (l.name ≡ codes "http")
get-set_level_example = get-set_level error (codes "http") one_logger one_logger-IsValid
