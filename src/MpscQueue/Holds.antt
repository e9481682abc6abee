-- ===== src/MpscQueue/Holds.antt =====
-- What a queue holds, and how a push and a pop of it change that.
use Prim.Native.Nat.{bit_and}
use logspine.Prelude.{
  ℕ, suc, ◌+◌, ◌%◌, ◌^◌, ◌≤◌, ◌<◌, ◌≡◌, sym, ap, ◌∙◌, arith, ◌==◌, ◌||◌, if◌then◌else◌, Bool, true,
  false, none, some, List, [], ◌∷◌, ◌++◌, length, length-append, get_elem?,
}
use native.Mathlib.Nat.{add-mod_right}
use native.Mathlib.Decide.{ℕ_discrete}
use logspine.MpscQueue.{MpscQueue, Slot, Dif, dif, store, next, index, enqueue, dequeue, word}
use logspine.MpscQueue.Ring.{
  mod_ne, get_elem?-snoc, lt-length_of_get_elem?, write_at_self, write_at_ne,
}

-- The queue holds `xs`, oldest first: the slots from the tail on have the items and the sequence
-- numbers of published slots, the others wait for the producer of the next round.
pub record Holds {T : Type 0} (size : ℕ) (q : MpscQueue T) (xs : List T) : Type 0 where
  pub indexed : (p : ℕ) → bit_and p q.buffer_mask ≡ p % size
  pub mask : q.buffer_mask + 1 ≡ size
  pub counted : q.head ≡ q.tail + length xs
  pub room : length xs ≤ size
  pub filled :
      (i : ℕ) (x : T)
      → get_elem? xs i ≡ some x
      → q.buffer ((q.tail + i) % size) ≡ record { sequence = q.tail + i + 1; value = some x }
  pub free :
      (i : ℕ) → length xs ≤ i → i < size → (q.buffer ((q.tail + i) % size)).sequence ≡ q.tail + i

-- Below 2 ^ 63 the signed difference has the sign of the difference.
pub dif_zero : (a b : ℕ) → a < 2 ^ 63 → b < 2 ^ 63 → a ≡ b → dif a b ≡ Dif.zero
unfolding dif
dif_zero a b ha hb e = ground arith

pub dif_negative : (a b : ℕ) → a < b → b < 2 ^ 63 → dif a b ≡ Dif.negative
unfolding dif
dif_negative a b lt hb = ground arith

-- Some attempt of the compare-and-swap works.
unfoldable pub has_success : List Bool → Bool
has_success [] = false
has_success (b ∷ bs) = b || has_success bs

module _ {T : Type 0} where
  unfoldable pub pushed : T → MpscQueue T → MpscQueue T
  pushed x q = record q {
    head = next q.head;
    buffer = store q.buffer (index q q.head) (record { sequence = next q.head; value = some x });
  }

  pub popped : MpscQueue T → MpscQueue T
  popped q = record q {
    tail = next q.tail;
    buffer =
        store q.buffer (index q q.tail)
          (record { sequence = (q.tail + q.buffer_mask + 1) % word; value = none });
  }

  pub enqueue_won :
      (outcomes : List Bool) (x : T) (q : MpscQueue T)
      → has_success outcomes ≡ true
      → dif (q.buffer (index q q.head)).sequence q.head ≡ Dif.zero
      → enqueue outcomes x q ≡ some (true, pushed x q)
  unfolding enqueue has_success pushed
  enqueue_won [] x q s e = cc
  enqueue_won (true ∷ outcomes) x q s e = rw (e, enqueue)
  enqueue_won (false ∷ outcomes) x q s e = rw (e, enqueue) (enqueue_won outcomes x q s e)

  pub enqueue_full :
      (outcomes : List Bool) (x : T) (q : MpscQueue T)
      → has_success outcomes ≡ true
      → dif (q.buffer (index q q.head)).sequence q.head ≡ Dif.negative
      → enqueue outcomes x q ≡ some (false, q)
  unfolding enqueue has_success
  enqueue_full [] x q s e = cc
  enqueue_full (b ∷ outcomes) x q s e = rw (e, enqueue)

  pub dequeue_won :
      (outcomes : List Bool) (q : MpscQueue T)
      → has_success outcomes ≡ true
      → dif (q.buffer (index q q.tail)).sequence (next q.tail) ≡ Dif.zero
      → dequeue outcomes q ≡ some ((q.buffer (index q q.tail)).value, true, popped q)
  unfolding dequeue has_success popped
  dequeue_won [] q s e = cc
  dequeue_won (true ∷ outcomes) q s e = rw (e, dequeue)
  dequeue_won (false ∷ outcomes) q s e = rw (e, dequeue) (dequeue_won outcomes q s e)

  pub dequeue_empty :
      (outcomes : List Bool) (q : MpscQueue T)
      → has_success outcomes ≡ true
      → dif (q.buffer (index q q.tail)).sequence (next q.tail) ≡ Dif.negative
      → dequeue outcomes q ≡ some (none, false, q)
  unfolding dequeue has_success
  dequeue_empty [] q s e = cc
  dequeue_empty (b ∷ outcomes) q s e = rw (e, dequeue)

  module _ (size : ℕ) (q : MpscQueue T) where
    -- The slot that a push or a pop at position `pos` writes, seen from another position.
    slot_self :
        {xs : List T} (h : Holds size q xs) (pos p : ℕ) (s : Slot T)
        → p ≡ pos
        → store q.buffer (index q pos) s (p % size) ≡ s
    slot_self h pos p s e =
        write_at_self q.buffer (index q pos) s (p % size)
          (h.indexed pos ∙ ap (λ k. k % size) (sym e))

    slot_after :
        {xs : List T} (h : Holds size q xs) (pos p : ℕ) (s : Slot T)
        → p < pos
        → pos < p + size
        → store q.buffer (index q pos) s (p % size) ≡ q.buffer (p % size)
    slot_after h pos p s lt near =
        write_at_ne q.buffer (index q pos) s (p % size)
          (λ e. mod_ne size p pos lt near (sym e ∙ h.indexed pos))

    slot_before :
        {xs : List T} (h : Holds size q xs) (pos p : ℕ) (s : Slot T)
        → pos < p
        → p < pos + size
        → store q.buffer (index q pos) s (p % size) ≡ q.buffer (p % size)
    slot_before h pos p s lt near =
        write_at_ne q.buffer (index q pos) s (p % size)
          (λ e. mod_ne size pos p lt near (sym (h.indexed pos) ∙ e))

    pub pushed-Holds :
        (x : T) (xs : List T)
        → Holds size q xs
        → length xs < size
        → q.head + size < 2 ^ 63
        → Holds size (pushed x q) (xs ++ (x ∷ []))
    unfolding pushed
    pushed-Holds x xs h lt small = record {
      indexed = h.indexed;
      mask = h.mask;
      counted = omega (arith, h.counted, length-append xs (x ∷ []));
      room = omega (arith, length-append xs (x ∷ []));
      filled = λ i y e. filled i y (sym (get_elem?-snoc xs x i) ∙ e);
      free = λ i le below.
          ap (λ s. s.sequence)
            (slot_before h q.head (q.tail + i) new
              (omega (arith, h.counted, length-append xs (x ∷ []))) (omega (arith, h.counted)))
          ∙ h.free i (omega (arith, length-append xs (x ∷ []))) below;
    }
      where
        new : Slot T
        new = record { sequence = next q.head; value = some x }

        filled :
            (i : ℕ) (y : T)
            → (if i == length xs then some x else get_elem? xs i) ≡ some y
            → store q.buffer (index q q.head) new ((q.tail + i) % size)
              ≡ record { sequence = q.tail + i + 1; value = some y }
        filled i y e = elim (ℕ_discrete i (length xs)) [
          | yes last ↦
              slot_self h q.head (q.tail + i) new (omega (arith, h.counted))
              ∙ ground (arith, h.counted)
          | no earlier ↦
              let old : get_elem? xs i ≡ some y = ground arith in
              slot_after h q.head (q.tail + i) new
                (omega (arith, h.counted, lt-length_of_get_elem? xs i y old))
                (omega (arith, h.counted))
              ∙ h.filled i y old
        ]

    pub popped-Holds :
        (x : T) (xs : List T)
        → Holds size q (x ∷ xs)
        → q.head + size < 2 ^ 63
        → Holds size (popped q) xs
    unfolding popped
    popped-Holds x xs h small = record {
      indexed = h.indexed;
      mask = h.mask;
      counted = omega (arith, h.counted);
      room = omega (arith, h.room);
      filled = λ i y e.
          slot_before h q.tail (next q.tail + i) new (omega (arith, h.counted))
            (omega (arith, h.counted, h.room, lt-length_of_get_elem? xs i y e))
          ∙ ap (λ k. q.buffer (k % size)) (shift i)
          ∙ h.filled (suc i) y e
          ∙ ap (λ k. record { sequence = k; value = some y }) (later i);
      free = λ i le below. elim (ℕ_discrete (i + 1) size) [
        | yes last ↦
            ap (λ s. s.sequence)
              (write_at_self q.buffer (index q q.tail) new ((next q.tail + i) % size)
                (round i last))
            ∙ omega (arith, h.counted, h.mask)
        | no inner ↦
            ap (λ s. s.sequence)
              (slot_before h q.tail (next q.tail + i) new (omega (arith, h.counted))
                  (omega (arith, h.counted))
                ∙ ap (λ k. q.buffer (k % size)) (shift i))
            ∙ h.free (suc i) (omega arith) (omega arith)
            ∙ omega (arith, shift i)
      ];
    }
      where
        new : Slot T
        new = record { sequence = (q.tail + q.buffer_mask + 1) % word; value = none }

        shift : (i : ℕ) → next q.tail + i ≡ q.tail + suc i
        shift i = omega (arith, h.counted)

        later : (i : ℕ) → q.tail + suc i + 1 ≡ next q.tail + i + 1
        later i = omega (arith, h.counted)

        round : (i : ℕ) → i + 1 ≡ size → index q q.tail ≡ (next q.tail + i) % size
        round i last =
            h.indexed q.tail
            ∙ sym (add-mod_right q.tail size)
            ∙ ap (λ k. k % size) (omega (arith, h.counted))
