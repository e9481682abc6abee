-- ===== src/Decimal/Reading.antt =====
-- A printed number is a text of digits that reads back.
use logspine.Prelude.{
  ℕ, zero, suc, ◌+◌, ◌-◌, ◌*◌, ◌/◌, ◌%◌, ◌≤◌, ◌≡◌, ◌≢◌, ◌⊎◌, refl, inl, inr, [], ◌∷◌, Bytes, arith,
  All,
}
use logspine.Prelude.Int.{ℤ, pos, negsuc}
use logspine.Decimal.{digits, decimal, decimal_ℤ}

abbrev pub IsDigit : ℕ → Type 0
IsDigit c = (b'0' ≤ c) × (c ≤ b'9')

-- The number that digits spell behind `n`.
abbrev pub number_value : ℕ → Bytes → ℕ
number_value n [] = n
number_value n (c ∷ s) = number_value (n * 10 + (c - b'0')) s

number_value-digits :
    (fuel n : ℕ) (out : Bytes) → n ≤ fuel → number_value 0 (digits fuel n out) ≡ number_value n out
unfolding digits
number_value-digits zero zero out h = refl
number_value-digits zero (suc n) out h = absurd (omega arith)
number_value-digits (suc fuel) n out h =
    ground (arith, number_value-digits fuel (n / 10) ((b'0' + n % 10) ∷ out), last_digit)
  where
    last_digit : n / 10 * 10 + (b'0' + n % 10 - b'0') ≡ n
    last_digit = omega arith

digits-IsDigit : (fuel n : ℕ) (out : Bytes) → All IsDigit out → All IsDigit (digits fuel n out)
unfolding digits
digits-IsDigit zero n out h = h
digits-IsDigit (suc fuel) n out h =
    ground
      (arith, digits-IsDigit fuel (n / 10) ((b'0' + n % 10) ∷ out) ((omega arith, omega arith), h))

pub number_value-decimal : (n : ℕ) → number_value 0 (decimal n) ≡ n
unfolding decimal
number_value-decimal n = ground (arith, number_value-digits n n [])

pub decimal-IsDigit : (n : ℕ) → All IsDigit (decimal n)
unfolding decimal
decimal-IsDigit n = ground (arith, digits-IsDigit n n [] tt)

digits-ne-nil : (fuel n : ℕ) (out : Bytes) → out ≢ [] → digits fuel n out ≢ []
unfolding digits
digits-ne-nil zero n out h = h
digits-ne-nil (suc fuel) n out h =
    ground (arith, digits-ne-nil fuel (n / 10) ((b'0' + n % 10) ∷ out) (λ e. cc))

pub decimal-ne-nil : (n : ℕ) → decimal n ≢ []
unfolding decimal digits
decimal-ne-nil zero = λ e. cc
decimal-ne-nil (suc n) =
    ground (arith, digits-ne-nil n (suc n / 10) ((b'0' + suc n % 10) ∷ []) (λ e. cc))

weaken : (s : Bytes) → All IsDigit s → All (λ c. (c ≡ b'-') ⊎ IsDigit c) s
weaken [] h = tt
weaken (c ∷ s) h = (inr h.0, weaken s h.1)

-- A signed number is one or more digits and minus signs.
pub decimal_ℤ-bytes : (z : ℤ) → (decimal_ℤ z ≢ []) × All (λ c. (c ≡ b'-') ⊎ IsDigit c) (decimal_ℤ z)
unfolding decimal_ℤ
decimal_ℤ-bytes (pos n) = (decimal-ne-nil n, weaken (decimal n) (decimal-IsDigit n))
decimal_ℤ-bytes (negsuc n) =
    (λ e. cc, (inl refl, weaken (decimal (n + 1)) (decimal-IsDigit (n + 1))))
