-- ===== src/MpscQueue/Refine.antt =====
-- A queue on which no two calls overlap is a bounded first-in first-out list.
use Prim.Native.Nat.{bit_and}
use native.Mathlib.Nat.{add-mod_right, mod-eq_of_lt, mod_self, pow-le-pow_right}
use native.Mathlib.Decide.{dec_lt}
use logspine.Prelude.{
  ℕ, ◌+◌, ◌-◌, ◌%◌, ◌^◌, ◌≤◌, ◌<◌, ◌≡◌, refl, sym, ap, ◌∙◌, arith, ltb, if◌then◌else◌, Bool, true,
  false, Option, none, some, List, [], ◌∷◌, ◌++◌, length, lt→ltb,
}
use logspine.Prelude.Bits.{bit_and-mask, pow_pos}
use logspine.MpscQueue.{MpscQueue, next, index, enqueue, dequeue, new_queue, word}
use logspine.MpscQueue.Holds.{
  Holds, has_success, dif_zero, dif_negative, pushed, popped, enqueue_won, enqueue_full,
  dequeue_won, dequeue_empty, pushed-Holds, popped-Holds,
}

abbrev pub head? : {T : Type 0} → List T → Option T
head? [] = none
head? (x ∷ xs) = some x

abbrev pub tail : {T : Type 0} → List T → List T
tail [] = []
tail (x ∷ xs) = xs

abbrev pub not_empty : {T : Type 0} → List T → Bool
not_empty [] = false
not_empty (x ∷ xs) = true

module _ {T : Type 0} (size : ℕ) (q : MpscQueue T) where
  -- The sequence number of the slot at the head while there is room, and when there is none.
  head_sequence :
      (xs : List T)
      → Holds size q xs
      → length xs < size
      → (q.buffer (index q q.head)).sequence ≡ q.head
  head_sequence xs h room =
      ap (λ k. (q.buffer k).sequence) (h.indexed q.head ∙ ap (λ k. k % size) h.counted)
      ∙ h.free (length xs) (omega arith) room
      ∙ sym h.counted

  full_sequence :
      (xs : List T)
      → 1 ≤ size
      → Holds size q xs
      → length xs ≡ size
      → (q.buffer (index q q.head)).sequence ≡ q.tail + 0 + 1
  full_sequence [] one h full = absurd (omega arith)
  full_sequence (x ∷ xs) one h full =
      ap (λ k. (q.buffer k).sequence) (h.indexed q.head ∙ round)
      ∙ ap (λ s. s.sequence) (h.filled 0 x refl)
    where
      round : q.head % size ≡ (q.tail + 0) % size
      round = ap (λ k. k % size) (omega (arith, h.counted)) ∙ add-mod_right (q.tail + 0) size

  tail_slot :
      (x : T) (xs : List T)
      → Holds size q (x ∷ xs)
      → q.buffer (index q q.tail) ≡ record { sequence = q.tail + 0 + 1; value = some x }
  tail_slot x xs h =
      ap q.buffer (h.indexed q.tail ∙ ap (λ k. k % size) (omega arith)) ∙ h.filled 0 x refl

  tail_sequence : Holds size q [] → (q.buffer (index q q.tail)).sequence ≡ q.tail + 0
  tail_sequence h =
      ap (λ k. (q.buffer k).sequence) (h.indexed q.tail ∙ ap (λ k. k % size) (omega arith))
      ∙ h.free 0 (omega arith) (omega (arith, h.mask))

  -- A push on a queue of a capacity of at least 2 that holds `xs` appends to it if there is room, and otherwise reports that it
  -- is full and holds the same, however often the compare-and-swap fails before it succeeds. The
  -- positions are below 2 ^ 63.
  pub enqueue_refines :
      (outcomes : List Bool) (x : T) (xs : List T)
      → has_success outcomes ≡ true
      → 2 ≤ size
      → Holds size q xs
      → q.head + size < 2 ^ 63
      → (q' : MpscQueue T) × (enqueue outcomes x q ≡ some (ltb (length xs) size, q'))
        × Holds size q' (if ltb (length xs) size then xs ++ (x ∷ []) else xs)
  enqueue_refines outcomes x xs s two h small = elim (dec_lt (length xs) size) [
    | yes room ↦
        let e = head_sequence xs h room in
        (
          pushed x q,
          rw (lt→ltb (length xs) size room)
              (enqueue_won outcomes x q s (dif_zero _ q.head (omega (arith, e)) (omega arith) e)),
          rw (lt→ltb (length xs) size room) (pushed-Holds size q x xs h room small),
        )
    | no full ↦
        let e = full_sequence xs (omega arith) h (omega (arith, h.room)) in
        (
          q,
          rw (ge→ltb (length xs) size full) (
              enqueue_full outcomes x q s
                (dif_negative _ q.head (omega (arith, e, h.counted, two)) (omega arith))),
          rw (ge→ltb (length xs) size full) h,
        )
  ]
    where
      ge→ltb : (a b : ℕ) → ¬ (a < b) → ltb a b ≡ false
      ge→ltb a b h = ground arith

  -- A pop of a queue that holds nothing reports so; of another it gives the oldest item and leaves
  -- the rest, however often the compare-and-swap fails before it succeeds. The positions are below
  -- 2 ^ 63.
  pub dequeue_refines :
      (outcomes : List Bool) (xs : List T)
      → has_success outcomes ≡ true
      → Holds size q xs
      → q.head + size < 2 ^ 63
      → (q' : MpscQueue T) × (dequeue outcomes q ≡ some (head? xs, not_empty xs, q'))
        × Holds size q' (tail xs)
  dequeue_refines outcomes [] s h small =
      let e = tail_sequence h in
      (
        q,
        dequeue_empty outcomes q s
            (dif_negative _ (next q.tail) (omega (arith, e, h.counted)) (omega (arith, h.counted))),
        h,
      )
  dequeue_refines outcomes (x ∷ xs) s h small =
      let e = tail_slot x xs h in
      let n : (q.buffer (index q q.tail)).sequence ≡ next q.tail =
        ap (λ s. s.sequence) e ∙ omega (arith, h.counted) in
      (
        popped q,
        dequeue_won outcomes q s
              (dif_zero _ (next q.tail) (omega (arith, n, h.counted)) (omega (arith, h.counted)) n)
            ∙ rw e,
        popped-Holds size q x xs h small,
      )

fresh : (T : Type 0) → ℕ → MpscQueue T
fresh T size = record {
  buffer_mask = size - 1;
  buffer = λ i. record { sequence = i; value = none };
  head = 0;
  tail = 0;
}

fresh-Holds : (T : Type 0) (k : ℕ) → Holds (2 ^ k) (fresh T (2 ^ k)) []
unfolding fresh
fresh-Holds T k = record {
  indexed = bit_and-mask k;
  mask = omega (arith, pow_pos k);
  counted = omega arith;
  room = omega arith;
  filled = λ i x e. cc;
  free = λ i le below. mod-eq_of_lt (omega arith);
}

new_queue-fresh :
    (T : Type 0) (size : ℕ)
    → 0 < size
    → size ≤ 2 ^ 62
    → bit_and size (size - 1) ≡ 0
    → new_queue size ≡ some (fresh T size)
unfolding new_queue fresh
new_queue-fresh T size lo hi power = rw (masked, power) (ground arith)
  where
    masked : (size + word - 1) % word ≡ size - 1
    masked = omega arith

-- The constructor accepts every power of two up to 2 ^ 62 and gives a queue that holds nothing.
pub new_queue-Holds :
    (T : Type 0) (k : ℕ)
    → k ≤ 62
    → (q : MpscQueue T) × (new_queue (2 ^ k) ≡ some q) × Holds (2 ^ k) q [] × (q.head ≡ 0)
unfolding fresh
new_queue-Holds T k hi = (
  fresh T (2 ^ k),
  new_queue-fresh T (2 ^ k) (pow_pos k) most (bit_and-mask k (2 ^ k) ∙ mod_self (2 ^ k)),
  fresh-Holds T k,
  refl,
)
  where
    most : 2 ^ k ≤ 2 ^ 62
    most = pow-le-pow_right (omega arith) {i = k} {j = 62} hi
