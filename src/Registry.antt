-- ===== src/Registry.antt =====
-- include/logspine/registry.hpp and src/registry.cpp. A `std::shared_ptr<logger>` is an index of the
-- heap of loggers; `get` and the loop of `set_level` run under the registry's mutex.
pub mod Lookup
mod Tests
use logspine.Prelude.{
  ℕ, zero, suc, ◌≡◌, Bool, if◌then◌else◌, Option, none, some, List, [], ◌∷◌, ◌++◌, Bytes, bytes_eq,
  length, get_elem?, set,
}
use logspine.Level.{Level}
use logspine.Logger.{Logger}
use logspine.Logger
use logspine.Dispatcher.{DispatcherClass}

-- `loggers_` as an association list; `heap` holds the loggers that were made, the first at 0.
pub record Registry : Type 0 where
  pub minimum_level : Level
  pub loggers : List (Bytes × ℕ)
  pub heap : List Logger

unfoldable pub new_registry : Level → Registry
new_registry minimum_level = record { minimum_level = minimum_level; loggers = []; heap = [] }

-- `loggers_.find(key)`
unfoldable pub find : Bytes → List (Bytes × ℕ) → Option ℕ
find key [] = none
find key ((name, i) ∷ loggers) = if bytes_eq name key then some i else find key loggers

-- `std::make_shared<logger>` and `emplace`.
unfoldable pub create : Bytes → Registry → ℕ × Registry
create name r =
    let i = length r.heap in
    (
      i,
      record r {
        loggers = (name, i) ∷ r.loggers;
        heap = r.heap ++ (record { name = name; minimum_level = r.minimum_level } ∷ []);
      },
    )

unfoldable pub get : Bytes → Registry → ℕ × Registry
unfolding find create
get name r = elim (find name r.loggers) [ some i ↦ (i, r) | none ↦ create name r ]

-- `current_logger->set_level(value)`
abbrev pub set_level_at : Level → ℕ → List Logger → List Logger
set_level_at value i heap = elim (get_elem? heap i) [
  | some l ↦ set heap i (Logger.set_level value l)
  | none ↦ heap
]

unfoldable pub set_levels : Level → List (Bytes × ℕ) → List Logger → List Logger
set_levels value [] heap = heap
set_levels value ((name, i) ∷ loggers) heap = set_levels value loggers (set_level_at value i heap)

unfoldable pub set_level : Level → Registry → Registry
unfolding set_levels
set_level value r = record r { minimum_level = value; heap = set_levels value r.loggers r.heap }

abbrev pub level_threshold : Registry → Level
level_threshold r = r.minimum_level

unfoldable pub flush : {D : Type 0} → DispatcherClass D → D → D
flush c d = c.flush d
