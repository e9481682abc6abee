-- ===== src/Prelude/Bits.antt =====
-- Laws of `bit_and`, `bit_or` and `bit_xor` at variables, from the digit recursion that the native operations
-- stand for.
use Prim.Native.Nat.{
  ℕ, zero, suc, ◌+◌, ◌-◌, ◌*◌, ◌/◌, ◌%◌, ◌^◌, ◌≤◌, ◌<◌, min, max, bit_and, bit_or, bit_xor, differ,
  digits, bit_and-bitwise, bit_or-bitwise, bit_xor-bitwise,
}
use native.Mathlib.Nat.{
  div-one, div-div-eq-div-mul, pow-succ', add-mul-mod_self_left, mod-eq_of_lt, div-add-mod, mod-lt,
  pow-suc,
}
use Prim.Native.Nat.add
use native.Mathlib.Decide.{dec_lt}
use mathlib.Core.Path.{◌≡◌, refl, sym, ap, ◌∙◌}
use native.Mathlib.Omega.{arith}

-- An operation that is given by its digits obeys a law for the lowest one: `rest` is what is left
-- of the second argument where the first has no digits.
module _ (rest : ℕ → ℕ) (digit : ℕ → ℕ → ℕ) where
  rounds_agree : (a n m b : ℕ) → a ≤ m → a ≤ n → digits rest digit n a b ≡ digits rest digit m a b
  rounds_agree zero zero zero b low high = refl
  rounds_agree zero (suc n) (suc m) b low high = refl
  rounds_agree zero (suc n) zero b low high = refl
  rounds_agree zero zero (suc m) b low high = refl
  rounds_agree (suc a) (suc n) zero b low high = absurd (omega arith)
  rounds_agree (suc a) zero m b low high = absurd (omega arith)
  rounds_agree (suc a) (suc n) (suc m) b low high =
      omega (arith, rounds_agree (suc a / 2) n m (b / 2) (omega arith) (omega arith))

  module _ (op : ℕ → ℕ → ℕ) (bitwise : (a b : ℕ) → op a b ≡ digits rest digit a a b) where
    lowest_digit :
        (a b : ℕ)
        → rest b ≡ rest (b / 2) * 2 + digit 0 (b % 2)
        → op a b ≡ op (a / 2) (b / 2) * 2 + digit (a % 2) (b % 2)
    lowest_digit zero b none_left = rw (bitwise 0 b, bitwise 0 (b / 2)) none_left
    lowest_digit (suc a) b none_left =
        rw (bitwise (suc a) b, bitwise (suc a / 2) (b / 2))
          (omega
            (arith, rounds_agree (suc a / 2) (suc a / 2) a (b / 2) (omega arith) (omega arith)))

pub bit_or_step : (a b : ℕ) → bit_or a b ≡ bit_or (a / 2) (b / 2) * 2 + max (a % 2) (b % 2)
bit_or_step a b = lowest_digit (λ b. b) max bit_or bit_or-bitwise a b (omega arith)

pub bit_and_step : (a b : ℕ) → bit_and a b ≡ bit_and (a / 2) (b / 2) * 2 + min (a % 2) (b % 2)
bit_and_step a b = lowest_digit (λ b. zero) min bit_and bit_and-bitwise a b (omega arith)

with_zero : (rounds a : ℕ) → a ≤ rounds → (bit_and a 0 ≡ 0) × (bit_or a 0 ≡ a)
with_zero rounds zero h = (refl, refl)
with_zero zero (suc a) h = absurd (omega arith)
with_zero (suc rounds) (suc a) h =
    let half = with_zero rounds (suc a / 2) (omega arith) in
    (omega (arith, half.0, bit_and_step (suc a) 0), omega (arith, half.1, bit_or_step (suc a) 0))

pub bit_or-zero : (a : ℕ) → bit_or a 0 ≡ a
bit_or-zero a = (with_zero a a (omega arith)).1

pub pow_pos : (k : ℕ) → 0 < 2 ^ k
pow_pos zero = omega arith
pow_pos (suc k) = omega (arith, pow-suc 2 k, pow_pos k)

mod_double : (p m : ℕ) → 0 < m → p % (2 * m) ≡ p / 2 % m * 2 + p % 2
mod_double p m h =
    ap (λ t. t % (2 * m)) split
    ∙ add-mul-mod_self_left (p / 2 % m * 2 + p % 2) (2 * m) (p / 2 / m)
    ∙ mod-eq_of_lt (omega (arith, mod-lt (p / 2) h))
  where
    split : p ≡ p / 2 % m * 2 + p % 2 + 2 * m * (p / 2 / m)
    split = omega (arith, div-add-mod (p / 2) m)

half_mask : (m : ℕ) → 0 < m → ((2 * m - 1) / 2 ≡ m - 1) × ((2 * m - 1) % 2 ≡ 1)
half_mask m h = omega arith

bit_and_mask_step : (p m : ℕ) → 0 < m → bit_and p (2 * m - 1) ≡ bit_and (p / 2) (m - 1) * 2 + p % 2
bit_and_mask_step p m h =
    rw (bit_and_step p (2 * m - 1), (half_mask m h).0, (half_mask m h).1) (omega arith)

-- A mask of `k` ones keeps the low `k` digits.
pub bit_and-mask : (k p : ℕ) → bit_and p (2 ^ k - 1) ≡ p % 2 ^ k
bit_and-mask zero p = omega (arith, (with_zero p p (omega arith)).0)
bit_and-mask (suc k) p =
    rw (pow-succ' 2 k, bit_and_mask_step p (2 ^ k) (pow_pos k), bit_and-mask k (p / 2))
      (sym (mod_double p (2 ^ k) (pow_pos k)))

bit_or_mask_step : (p m : ℕ) → 0 < m → bit_or p (2 * m - 1) ≡ bit_or (p / 2) (m - 1) * 2 + 1
bit_or_mask_step p m h =
    rw (bit_or_step p (2 * m - 1), (half_mask m h).0, (half_mask m h).1) (omega arith)

-- Or with a mask of `k` ones sets the low `k` digits.
pub bit_or-mask : (k p : ℕ) → bit_or p (2 ^ k - 1) ≡ p / 2 ^ k * 2 ^ k + (2 ^ k - 1)
bit_or-mask zero p = omega (arith, bit_or-zero p)
bit_or-mask (suc k) p =
    rw
      (
        pow-succ' 2 k,
        bit_or_mask_step p (2 ^ k) (pow_pos k),
        bit_or-mask k (p / 2),
        ← div-div-eq-div-mul p 2 (2 ^ k),
      )
      (omega (arith, pow_pos k))

half_bit_or : (a b : ℕ) → bit_or a b / 2 ≡ bit_or (a / 2) (b / 2)
half_bit_or a b = omega (arith, bit_or_step a b)

-- A shift distributes over or.
pub bit_or-shift : (k a b : ℕ) → bit_or a b / 2 ^ k ≡ bit_or (a / 2 ^ k) (b / 2 ^ k)
bit_or-shift zero a b = rw (div-one (bit_or a b), div-one a, div-one b)
bit_or-shift (suc k) a b = rw (
  pow-succ' 2 k,
  ← div-div-eq-div-mul (bit_or a b) 2 (2 ^ k),
  ← div-div-eq-div-mul a 2 (2 ^ k),
  ← div-div-eq-div-mul b 2 (2 ^ k),
  half_bit_or a b,
  bit_or-shift k (a / 2) (b / 2),
)

pub two-pow-add : (a b : ℕ) → 2 ^ (a + b) ≡ 2 ^ a * 2 ^ b
two-pow-add zero b = rw add.zero (omega arith)
two-pow-add (suc a) b =
    rw (add.suc, pow-succ' 2 (a + b), pow-succ' 2 a, two-pow-add a b) (omega arith)

-- A positive number has a highest digit.
pub width : (fuel n : ℕ) → 0 < n → n ≤ fuel → (w : ℕ) × (2 ^ w ≤ n) × (n < 2 * 2 ^ w)
width zero n p h = absurd (omega arith)
width (suc fuel) n p h = elim (dec_lt 1 n) [
  | yes more ↦
      let (w, lo, hi) = width fuel (n / 2) (omega arith) (omega arith) in
      (suc w, rw (pow-succ' 2 w) (omega arith), rw (pow-succ' 2 w) (omega arith))
  | no one ↦ (0, omega arith, omega arith)
]

bit_xor_step : (a b : ℕ) → bit_xor a b ≡ bit_xor (a / 2) (b / 2) * 2 + differ (a % 2) (b % 2)
bit_xor_step a b = lowest_digit (λ b. b) differ bit_xor bit_xor-bitwise a b (omega arith)

differ_back : (x y : ℕ) → x < 2 → y < 2 → (differ x y < 2) × (differ x (differ x y) ≡ y)
differ_back zero y h k = (k, refl)
differ_back (suc zero) zero h k = (omega arith, refl)
differ_back (suc zero) (suc zero) h k = (omega arith, refl)
differ_back (suc zero) (suc (suc y)) h k = absurd (omega arith)
differ_back (suc (suc x)) y h k = absurd (omega arith)

bit_xor_back_within : (rounds a b : ℕ) → a ≤ rounds → bit_xor a (bit_xor a b) ≡ b
bit_xor_back_within rounds zero b h = bit_xor-bitwise 0 (bit_xor 0 b) ∙ bit_xor-bitwise 0 b
bit_xor_back_within zero (suc a) b h = absurd (omega arith)
bit_xor_back_within (suc rounds) (suc a) b h =
    let digit = differ_back (suc a % 2) (b % 2) (omega arith) (omega arith) in
    let low = bit_xor_step (suc a) b in
    let half : bit_xor (suc a) b / 2 ≡ bit_xor (suc a / 2) (b / 2) = omega (arith, low, digit.0) in
    let last : bit_xor (suc a) b % 2 ≡ differ (suc a % 2) (b % 2) = omega (arith, low, digit.0) in
    let rest = bit_xor_back_within rounds (suc a / 2) (b / 2) (omega arith) in
    rw (bit_xor_step (suc a) (bit_xor (suc a) b), half, last, rest, digit.1) (omega arith)

-- Exclusive or with the same number twice.
pub bit_xor_back : (a b : ℕ) → bit_xor a (bit_xor a b) ≡ b
bit_xor_back a b = bit_xor_back_within a a b (omega arith)
