-- ===== src/MpscQueue/Capacity.antt =====
-- `round_up_to_power_of_2`: the or-ing of shifts fills all digits below the highest.
use native.Mathlib.Nat.{
  div-div-eq-div-mul, add_comm, add-mul-div_right, div-eq_of_lt, div-eq_of_lt-le, div-one,
  mod-eq_of_lt, pow-le-pow_right,
}
use native.Mathlib.Decide.{dec_lt, dec_le}
use logspine.Prelude.{
  ℕ, ◌+◌, ◌-◌, ◌*◌, ◌/◌, ◌%◌, ◌^◌, ◌≤◌, ◌<◌, ◌≡◌, refl, sym, ap, subst, ◌∙◌, arith, ◌⊎◌, inl, inr,
  leb, true, false,
}
use logspine.Prelude.Bits.{bit_or-mask, bit_or-shift, bit_or-zero, two-pow-add, width, pow_pos}
use logspine.MpscQueue.{word, smear, round_up_to_power_of_2}

-- A number of `w` digits whose highest `m` are ones, as `w = m + r`.
record Top (m r n : ℕ) : Type 0 where
  ones : n / 2 ^ r + 1 ≡ 2 ^ m

split_product : (a b : ℕ) → 0 < a → a * b ≡ (a - 1) * b + b
split_product a b h = ap (λ t. t * b) (pred_suc a h) ∙ omega arith
  where
    pred_suc : (n : ℕ) → 0 < n → n ≡ n - 1 + 1
    pred_suc n p = omega arith

full_product : (a b : ℕ) → 0 < a → 0 < b → (a - 1) * b + (b - 1) + 1 ≡ a * b
full_product a b ha hb = omega (arith, split_product a b ha)

product_div : (a b : ℕ) → 0 < a → 0 < b → (a * b - 1) / b ≡ a - 1
product_div a b ha hb =
    rw (regroup, add-mul-div_right (b - 1) (a - 1) hb, div-eq_of_lt below) (omega arith)
  where
    regroup : a * b - 1 ≡ b - 1 + (a - 1) * b
    regroup = omega (arith, split_product a b ha)

    below : b - 1 < b
    below = omega arith

-- Twice as many, where there is room.
smear_short : (m j n : ℕ) → Top m (m + j) n → Top (m + m) j (smear m n)
smear_short m j n t = record {
  ones =
      rw
        (
          bit_or-shift j n (n / 2 ^ m),
          div-div-eq-div-mul n (2 ^ m) (2 ^ j),
          ← two-pow-add m j,
          mask,
          bit_or-mask m (n / 2 ^ j),
          div-div-eq-div-mul n (2 ^ j) (2 ^ m),
          ← two-pow-add j m,
          add_comm j m,
          mask,
        )
        (full_product (2 ^ m) (2 ^ m) (pow_pos m) (pow_pos m) ∙ sym (two-pow-add m m));
}
  where
    mask : n / 2 ^ (m + j) ≡ 2 ^ m - 1
    mask = omega (arith, t.ones)

-- All of them, where there is not.
smear_long : (r d n : ℕ) → Top (r + d) r n → smear (r + d) n + 1 ≡ 2 ^ (r + d + r)
smear_long r d n t =
    rw (low, bit_or-mask r n, high, two-pow-add (r + d) r)
      (full_product (2 ^ (r + d)) (2 ^ r) (pow_pos (r + d)) (pow_pos r))
  where
    high : n / 2 ^ r ≡ 2 ^ (r + d) - 1
    high = omega (arith, t.ones)

    low : n / 2 ^ (r + d) ≡ 2 ^ r - 1
    low =
        rw (two-pow-add r d, ← div-div-eq-div-mul n (2 ^ r) (2 ^ d), high, two-pow-add r d)
          (product_div (2 ^ r) (2 ^ d) (pow_pos r) (pow_pos d))

-- With `m` ones at the top of `w` digits, one round gives `min (2 * m) w`.
abbrev Full : ℕ → ℕ → ℕ → Type 0
Full m w n = ((r : ℕ) × (w ≡ m + r) × Top m r n) ⊎ ((w < m) × (n + 1 ≡ 2 ^ w))

smear_long_at : (m r d n : ℕ) → m ≡ r + d → Top m r n → smear m n + 1 ≡ 2 ^ (m + r)
smear_long_at m r d n e t =
    subst (λ k. Top k r n → smear k n + 1 ≡ 2 ^ (k + r)) (sym e) (smear_long r d n) t

smear_full : (m w n : ℕ) → w < m → n + 1 ≡ 2 ^ w → smear m n ≡ n
smear_full m w n lt e = rw (div-eq_of_lt below) (bit_or-zero n)
  where
    below : n < 2 ^ m
    below = omega (arith, pow-le-pow_right {n = 2} (omega arith) {i = w} {j = m} (omega arith))

smear-Full : (m w n : ℕ) → 0 < m → Full m w n → Full (m + m) w (smear m n)
smear-Full m w n pos (inl (r, e, t)) = elim (dec_le m r) [
  | yes room ↦
      inl (r - m, omega arith, smear_short m (r - m) n (subst (λ k. Top m k n) (omega arith) t))
  | no rest ↦ inr (omega arith, rw e (smear_long_at m r (m - r) n (omega arith) t))
]
smear-Full m w n pos (inr (lt, e)) = inr (omega arith, ap suc' (smear_full m w n lt e) ∙ e)
  where
    suc' : ℕ → ℕ
    suc' k = k + 1

-- All six rounds fill any number of at most 64 digits.
smears :
    (w n : ℕ)
    → 2 ^ w ≤ n
    → n < 2 * 2 ^ w
    → w < 64
    → smear 32 (smear 16 (smear 8 (smear 4 (smear 2 (smear 1 n))))) + 1 ≡ 2 ^ (w + 1)
smears w n lo hi small = finish (w + 1) _ (omega arith) rounds
  where
    first : Full 1 (w + 1) n
    first = inl (
      w,
      omega arith,
      record {
        ones = omega (arith, div-eq_of_lt-le {k = 1} (2 ^ w) {m = n} (omega arith) (omega arith));
      },
    )

    rounds : Full 64 (w + 1) (smear 32 (smear 16 (smear 8 (smear 4 (smear 2 (smear 1 n))))))
    rounds = smear-Full 32 (w + 1) _ (omega arith) (
        smear-Full 16 (w + 1) _ (omega arith) (
          smear-Full 8 (w + 1) _ (omega arith) (
            smear-Full 4 (w + 1) _ (omega arith)
              (smear-Full 2 (w + 1) _ (omega arith) (smear-Full 1 (w + 1) n (omega arith) first)))))

    finish : (v x : ℕ) → v ≤ 64 → Full 64 v x → x + 1 ≡ 2 ^ v
    finish v x le (inl (r, e, t)) =
        let none_left : r ≡ 0 = omega arith in
        let all : x / 2 ^ 0 + 1 ≡ 2 ^ 64 = subst (λ k. x / 2 ^ k + 1 ≡ 2 ^ 64) none_left t.ones in
        let whole : v ≡ 64 = omega arith in rw whole (omega (arith, div-one x, all))
    finish v x le (inr (lt, e)) = e

round_up_small : (n : ℕ) → n < 2 → round_up_to_power_of_2 n ≡ 2
unfolding round_up_to_power_of_2
round_up_small n h = rw (lt→leb n h)
  where
    lt→leb : (n : ℕ) → n < 2 → leb n 1 ≡ true
    lt→leb n h = ground arith

round_up_large :
    (n w : ℕ)
    → 2 ≤ n
    → 2 ^ w ≤ n - 1
    → n - 1 < 2 * 2 ^ w
    → w < 64
    → round_up_to_power_of_2 n ≡ 2 ^ (w + 1) % word
unfolding round_up_to_power_of_2
round_up_large n w h lo hi small = rw (gt→leb n h, smears w (n - 1) lo hi small)
  where
    gt→leb : (n : ℕ) → 2 ≤ n → leb n 1 ≡ false
    gt→leb n h = ground arith

highest : (w n : ℕ) → 63 ≤ w → n < 2 ^ 64 → 2 ^ w ≤ n → w ≡ 63
highest w n ge h lo = elim (dec_lt w 64) [
  | yes lt ↦ omega arith
  | no high ↦
      absurd (omega (arith, pow-le-pow_right {n = 2} (omega arith) {i = 64} {j = w} (omega arith)))
]

-- For every size up to 2 ^ 63 the result is the least power of two that is at least 2 and at least
-- the size; for a larger one the sum wraps round and the result is 0.
pub round_up_to_power_of_2_lem :
    (n : ℕ)
    → n < 2 ^ 64
    → ((n ≤ 2 ^ 63)
        × ((k : ℕ) × (round_up_to_power_of_2 n ≡ 2 ^ k)
            × (1 ≤ k)
            × (k ≤ 63)
            × (n ≤ 2 ^ k)
            × ((k ≡ 1) ⊎ (2 ^ k < 2 * n))))
      ⊎ ((2 ^ 63 < n) × (round_up_to_power_of_2 n ≡ 0))
round_up_to_power_of_2_lem n h = elim (dec_lt n 2) [
  | yes small ↦
      inl
        (omega arith, (1, round_up_small n small, omega arith, omega arith, omega arith, inl refl))
  | no large ↦
      let (w, lo, hi) = width (n - 1) (n - 1) (omega arith) (omega arith) in
      large_case w (omega arith) lo hi
]
  where
    large_case :
        (w : ℕ)
        → 2 ≤ n
        → 2 ^ w ≤ n - 1
        → n - 1 < 2 * 2 ^ w
        → ((n ≤ 2 ^ 63)
            × ((k : ℕ) × (round_up_to_power_of_2 n ≡ 2 ^ k)
                × (1 ≤ k)
                × (k ≤ 63)
                × (n ≤ 2 ^ k)
                × ((k ≡ 1) ⊎ (2 ^ k < 2 * n))))
          ⊎ ((2 ^ 63 < n) × (round_up_to_power_of_2 n ≡ 0))
    large_case w two lo hi = elim (dec_lt w 63) [
      | yes fits ↦
          let le : 2 ^ w ≤ 2 ^ 62 = pow-le-pow_right (omega arith) {i = w} {j = 62} (omega arith) in
          inl (
            omega arith,
            (
              w + 1,
              round_up_large n w two lo hi (omega arith)
                  ∙ mod-eq_of_lt (omega (arith, two-pow-add w 1)),
              omega arith,
              omega arith,
              omega (arith, two-pow-add w 1),
              inr (omega (arith, two-pow-add w 1)),
            ),
          )
      | no wraps ↦
          let ge : 2 ^ 63 ≤ 2 ^ w = pow-le-pow_right (omega arith) {i = 63} {j = w} (omega arith) in
          let top : w ≡ 63 = highest w (n - 1) (omega arith) (omega arith) lo in
          inr (omega arith, round_up_large n w two lo hi (omega arith) ∙ rw top)
    ]
