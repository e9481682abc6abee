-- ===== src/Level/Tests.antt =====
-- Runs of the level functions.
use logspine.Prelude.{◌≡◌, refl, none, some, codes, bytes_eq}
use logspine.Level.{warn, parse_level}

missing : parse_level (codes "missing") ≡ none
unfolding parse_level bytes_eq
missing = refl

alias : parse_level (codes "warning") ≡ some warn
unfolding parse_level bytes_eq
alias = refl
