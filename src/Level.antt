-- ===== src/Level.antt =====
-- include/logspine/level.hpp and src/level.cpp: severities, their names, and their GELF numbers.
pub mod Names
mod Tests
use logspine.Prelude.{
  ℕ, suc, ◌+◌, ◌-◌, Bool, ◌&&◌, not, leb, ◌==◌, Option, none, some, List, [], ◌∷◌, Bytes, codes,
  bytes_eq, get_or, if◌then◌else◌,
}

-- `enum class level : std::uint8_t`. A cast can make any byte of it: `other n` has the value
-- 7 + n, above the enumerators.
pub data Level : Type 0 where
  trace debug info warn error fatal off : Level
  other : ℕ → Level

-- `static_cast<std::underlying_type_t<level>>`
abbrev pub underlying : Level → ℕ
underlying trace = 0
underlying debug = 1
underlying info = 2
underlying warn = 3
underlying error = 4
underlying fatal = 5
underlying off = 6
underlying (other n) = 7 + n

-- `static_cast<level>(index)`
abbrev pub of_index : ℕ → Level
of_index index =
    get_or (trace ∷ debug ∷ info ∷ warn ∷ error ∷ fatal ∷ off ∷ []) index (other (index - 7))

abbrev pub level_names : List Bytes
level_names =
    codes "trace"
    ∷ codes "debug"
    ∷ codes "info"
    ∷ codes "warn"
    ∷ codes "error"
    ∷ codes "fatal"
    ∷ codes "off"
    ∷ []

unfoldable pub to_string : Level → Bytes
to_string value = get_or level_names (underlying value) (codes "unknown")

-- The loop over `kLevelNames`, at `index`.
find_name : List Bytes → ℕ → Bytes → Option Level
find_name [] index value = none
find_name (name ∷ names) index value =
    if bytes_eq name value then some (of_index index) else find_name names (index + 1) value

unfoldable pub parse_level : Bytes → Option Level
unfolding find_name
parse_level value = elim (find_name level_names 0 value) [
  | some l ↦ some l
  | none ↦ if bytes_eq value (codes "warning") then some warn else none
]

unfoldable pub to_gelf_level : Level → ℕ
to_gelf_level trace = 7
to_gelf_level debug = 7
to_gelf_level info = 6
to_gelf_level warn = 4
to_gelf_level error = 3
to_gelf_level fatal = 2
to_gelf_level off = 1
to_gelf_level (other n) = 7

-- `operator==` and `operator>=` of the enumeration.
abbrev pub level_eq : Level → Level → Bool
level_eq a b = underlying a == underlying b
