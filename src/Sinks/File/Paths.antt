-- ===== src/Sinks/File/Paths.antt =====
-- The paths of the rotated files differ, from the log's and from each other.
use mathlib.Core.List.{append_cancel_left, append_cancel_right}
use logspine.Prelude.{
  ℕ, ◌≡◌, ◌≢◌, inl, inr, sym, ap, ◌∙◌, ◌&&◌, Bool, ◌++◌, Bytes, codes, length, length-append, arith,
  Bool-cases,
}
use logspine.Decimal.{decimal}
use logspine.Decimal.Reading.{number_value, number_value-decimal}
use logspine.Sinks.File.{FileOptions, get_rotated_path}

module _ (with_zlib : Bool) (options : FileOptions) where
  pub rotated_ne_path : (i : ℕ) → get_rotated_path with_zlib options i ≢ options.path
  unfolding get_rotated_path
  rotated_ne_path i e =
      let plain = length-append options.path (codes "." ++ decimal i) in
      let gz = length-append (options.path ++ (codes "." ++ decimal i)) (codes ".gz") in
      elim (Bool-cases (with_zlib && options.compress_rotated)) [
        | inl c ↦ ground (arith, c, ap length e, plain, gz)
        | inr c ↦ ground (arith, c, ap length e, plain)
      ]

  pub rotated_inj :
      (i j : ℕ)
      → get_rotated_path with_zlib options i ≡ get_rotated_path with_zlib options j
      → i ≡ j
  unfolding get_rotated_path
  rotated_inj i j e = same (append_cancel_left options.path _ _ stems)
    where
      same : codes "." ++ decimal i ≡ codes "." ++ decimal j → i ≡ j
      same f =
          sym (number_value-decimal i)
          ∙ ap (number_value 0) (append_cancel_left (codes ".") (decimal i) (decimal j) f)
          ∙ number_value-decimal j

      stem : ℕ → Bytes
      stem n = options.path ++ (codes "." ++ decimal n)

      stems : stem i ≡ stem j
      stems = elim (Bool-cases (with_zlib && options.compress_rotated)) [
        | inl c ↦ append_cancel_right (stem i) (stem j) (codes ".gz") (ground (arith, c, e))
        | inr c ↦ ground (arith, c, e)
      ]
