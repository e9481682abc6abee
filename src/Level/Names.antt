-- ===== src/Level/Names.antt =====
-- The names and the GELF numbers of the levels.
use logspine.Prelude.{◌<◌, ◌≡◌, refl, ◌⊎◌, some, Bytes, codes, arith, bytes_eq, bytes_eq_iff}
use logspine.Level.{
  Level, trace, debug, info, warn, error, fatal, off, other, underlying, to_string, parse_level,
}

-- Each of the seven enumerators is read back from its name.
parse_level-to_string : (l : Level) → underlying l < 7 → parse_level (to_string l) ≡ some l
unfolding parse_level to_string bytes_eq
parse_level-to_string trace h = refl
parse_level-to_string debug h = refl
parse_level-to_string info h = refl
parse_level-to_string warn h = refl
parse_level-to_string error h = refl
parse_level-to_string fatal h = refl
parse_level-to_string off h = refl
parse_level-to_string (other n) h = absurd (omega arith)

-- A text that is read as a level is the name of that enumerator, or "warning" for `warn`.
parse_level_sound :
    (s : Bytes) (l : Level)
    → parse_level s ≡ some l
    → ((underlying l < 7) × (s ≡ to_string l)) ⊎ ((s ≡ codes "warning") × (l ≡ warn))
unfolding parse_level to_string
parse_level_sound s l h = ground (
  arith,
  bytes_eq_iff (codes "trace") s,
  bytes_eq_iff (codes "debug") s,
  bytes_eq_iff (codes "info") s,
  bytes_eq_iff (codes "warn") s,
  bytes_eq_iff (codes "error") s,
  bytes_eq_iff (codes "fatal") s,
  bytes_eq_iff (codes "off") s,
  bytes_eq_iff s (codes "warning"),
)
