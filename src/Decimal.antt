-- ===== src/Decimal.antt =====
-- `std::to_string` of the unsigned and signed integers, and zero padding as `std::format` does it.
pub mod Reading
use logspine.Prelude.{
  ℕ, zero, suc, ◌+◌, ◌-◌, ◌/◌, ◌%◌, ltb, ◌==◌, if◌then◌else◌, true, false, List, [], ◌∷◌, ◌++◌,
  Bytes, length, replicate,
}
use logspine.Prelude.Int.{ℤ, pos, negsuc}

-- The digits of `n` before `out`; `n` rounds are enough.
digits : ℕ → ℕ → Bytes → Bytes
digits zero n out = out
digits (suc fuel) n out = elim (ltb 0 n) [
  | true ↦ digits fuel (n / 10) ((b'0' + n % 10) ∷ out)
  | false ↦ out
]

unfoldable pub decimal : ℕ → Bytes
unfolding digits
decimal n = if n == 0 then b'0' ∷ [] else digits n n []

unfoldable pub decimal_ℤ : ℤ → Bytes
unfolding decimal
decimal_ℤ (pos n) = decimal n
decimal_ℤ (negsuc n) = b'-' ∷ decimal (n + 1)

-- `{:0w}`
unfoldable pub padded : ℕ → ℕ → Bytes
unfolding decimal
padded w n = replicate (w - length (decimal n)) b'0' ++ decimal n
