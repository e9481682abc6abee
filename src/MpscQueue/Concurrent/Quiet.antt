-- ===== src/MpscQueue/Concurrent/Quiet.antt =====
-- A queue that no call is using holds the items that were pushed and not yet popped.
use native.Mathlib.Decide.{dec_lt}
use logspine.Prelude.{
  ℕ, zero, suc, ◌+◌, ◌-◌, ◌%◌, ◌^◌, ◌<◌, ◌≤◌, ◌≡◌, inl, inr, refl, sym, ap, ◌∙◌, Option, none, some,
  List, [], ◌∷◌, arith, length, get_elem?,
}
use logspine.MpscQueue.{MpscQueue}
use logspine.MpscQueue.Holds.{Holds}
use logspine.MpscQueue.Ring.{mod_ne, lt-length_of_get_elem?}
use logspine.MpscQueue.Concurrent.{Phase, free, claimed, published, taking, System, started, Reach}
use logspine.MpscQueue.Concurrent.Invariant.{SlotOk, InFlight, Inv}
use logspine.MpscQueue.Concurrent.Push.{own_slot, slot_below}
use logspine.MpscQueue.Concurrent.Safety.{held_position, started-Inv, reached-Inv, within_capacity}
use logspine.MpscQueue.Concurrent.Order.{all_pushed}
use logspine.MpscQueue.Concurrent.Holders.{UsedBy, Reach-Holders}

-- The items of `n` positions.
unfoldable pub items : {T : Type 0} → (ℕ → Option T) → ℕ → ℕ → List T
items log from zero = []
items log from (suc n) = elim (log from) [ none ↦ [] | some x ↦ x ∷ items log (suc from) n ]

module _ {T : Type 0} (log : ℕ → Option T) where
  length-items :
      (from n : ℕ)
      → ((i : ℕ) → i < n → (x : T) × (log (from + i) ≡ some x))
      → length (items log from n) ≡ n
  unfolding items
  length-items from zero all = refl
  length-items from (suc n) all =
      let (x, e) = all 0 (omega arith) in
      let first : log from ≡ some x = ap log (omega arith) ∙ e in
      ground (arith, first, length-items (suc from) n (λ i lt. rest i lt))
    where
      rest : (i : ℕ) → i < n → (x : T) × (log (suc from + i) ≡ some x)
      rest i lt = let (x, e) = all (suc i) (omega arith) in (x, ap log (omega arith) ∙ e)

  get_elem?-items :
      (from n : ℕ)
      → ((i : ℕ) → i < n → (x : T) × (log (from + i) ≡ some x))
      → (i : ℕ) → i < n
      → get_elem? (items log from n) i ≡ log (from + i)
  unfolding items
  get_elem?-items from zero all i lt = absurd (omega arith)
  get_elem?-items from (suc n) all zero lt =
      let (x, e) = all 0 (omega arith) in
      let first : log from ≡ some x = ap log (omega arith) ∙ e in ground (arith, first, e)
  get_elem?-items from (suc n) all (suc i) lt =
      let (x, e) = all 0 (omega arith) in
      let first : log from ≡ some x = ap log (omega arith) ∙ e in
      let same : log (suc from + i) ≡ log (from + suc i) = ap log (omega arith) in
      ground (arith, first, same, get_elem?-items (suc from) n (λ i lt. rest i lt) i (omega arith))
    where
      rest : (i : ℕ) → i < n → (x : T) × (log (suc from + i) ≡ some x)
      rest i lt = let (x, e) = all (suc i) (omega arith) in (x, ap log (omega arith) ∙ e)

module _ {T : Type 0} (size : ℕ) (q : MpscQueue T) (two : 2 ≤ size) (h : Holds size q [])
    (zeroed : q.head ≡ 0) (fits : size < 2 ^ 63) (s : System T) (r : Reach size (started q) s)
    (quiet : (i : ℕ) → held_position (s.pc i) ≡ none) where
  inv : Inv size s
  inv = reached-Inv size q two h zeroed fits s r

  unused : (k p i : ℕ) → k < size → UsedBy (s.phase k) p i → ⊥
  unused k p i lt u = cc (
    Reach-Holders size (started q) (started-Inv size q two h zeroed fits)
        (λ k p i lt u. absurd (fresh k p i u)) s r k p i lt u,
    quiet i,
  )
    where
      fresh : (k p i : ℕ) → UsedBy (free k) p i → ⊥
      fresh k p i (inl e) = cc
      fresh k p i (inr e) = cc

  pushed : (i : ℕ) → i < s.queue.head - s.queue.tail → (x : T) × (s.log (s.queue.tail + i) ≡ some x)
  pushed i lt =
      let (x, j, u, ou, us, won, logged) =
        all_pushed size (started q) (started-Inv size q two h zeroed fits) zeroed s r
          (s.queue.tail + i) (omega arith) in
      (x, logged)

  waiting : (p : ℕ) → s.queue.tail ≤ p → p < s.queue.head → s.phase (p % size) ≡ published p
  waiting p lo hi = there (inv.live p lo hi)
    where
      there : InFlight p (s.phase (p % size)) → s.phase (p % size) ≡ published p
      there (inl e) = e
      there (inr (j, e)) = absurd (unused (p % size) p j (slot_below size s inv p) (inl e))

  -- A slot outside the ones in use waits for its position.
  vacant :
      (p : ℕ) (ph : Phase)
      → s.phase (p % size) ≡ ph
      → SlotOk size s (p % size) ph
      → s.queue.head ≤ p
      → p < s.queue.tail + size
      → (s.queue.buffer (p % size)).sequence ≡ p
  vacant p (claimed a j) e ok lo hi =
      absurd (unused (p % size) a j (slot_below size s inv p) (inl e))
  vacant p (taking a j) e ok lo hi =
      absurd (unused (p % size) a j (slot_below size s inv p) (inr e))
  vacant p (published a) e ok lo hi =
      absurd (mod_ne size a p (omega (arith, ok.2)) (omega (arith, ok.4)) ok.1)
  vacant p (free a) e ok lo hi = ok.0 ∙ same
    where
      same : a ≡ p
      same = elim (dec_lt a p) [
        | yes lt ↦ absurd (mod_ne size a p lt (omega (arith, ok.2, inv.ordered)) ok.1)
        | no ge ↦ elim (dec_lt p a) [
          | yes gt ↦ absurd (mod_ne size p a gt (omega (arith, ok.3, inv.ordered)) (sym ok.1))
          | no le ↦ omega arith
        ]
      ]

  -- After pushes and pops of any threads on a new queue of a capacity of at least 2, with any
  -- interleaving, while the positions stay below 2 ^ 63, and at a time when no call is between
  -- winning a position and releasing its slot: the queue holds, in the order of their positions, the
  -- items whose pushes have won a position that no pop has won, so that it is a bounded queue of
  -- these for the calls that follow.
  pub quiet_Holds : Holds size s.queue (items s.log s.queue.tail (s.queue.head - s.queue.tail))
  quiet_Holds =
      let room = within_capacity size q two h zeroed fits s r in
      let n = length-items s.log s.queue.tail (s.queue.head - s.queue.tail) pushed in
      record {
        indexed = inv.indexed;
        mask = inv.mask;
        counted = omega (arith, n, room);
        room = omega (arith, n, room);
        filled = λ i x e. filled i x e n;
        free = λ i lo hi.
            vacant (s.queue.tail + i) (s.phase ((s.queue.tail + i) % size)) refl
              (inv.slots ((s.queue.tail + i) % size) (slot_below size s inv (s.queue.tail + i)))
              (omega (arith, n, room)) (omega arith);
      }
    where
      filled :
          (i : ℕ) (x : T)
          → get_elem? (items s.log s.queue.tail (s.queue.head - s.queue.tail)) i ≡ some x
          → length (items s.log s.queue.tail (s.queue.head - s.queue.tail))
            ≡ s.queue.head - s.queue.tail
          → s.queue.buffer ((s.queue.tail + i) % size)
            ≡ record { sequence = s.queue.tail + i + 1; value = some x }
      filled i x e n =
          let p = s.queue.tail + i in
          let lt : i < s.queue.head - s.queue.tail = omega (
            arith,
            n,
            lt-length_of_get_elem? (items s.log s.queue.tail (s.queue.head - s.queue.tail)) i x e,
          ) in
          let ok = own_slot size s inv p (published p) (waiting p (omega arith) (omega arith)) in
          let stored =
            ok.5
            ∙ sym (get_elem?-items s.log s.queue.tail (s.queue.head - s.queue.tail) pushed i lt)
            ∙ e in
          λ j. record { sequence = ok.0 j; value = stored j }
