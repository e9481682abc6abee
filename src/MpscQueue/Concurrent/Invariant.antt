-- ===== src/MpscQueue/Concurrent/Invariant.antt =====
-- What holds in every state: each slot belongs to one position, and is filled or emptied by one
-- thread at a time.
use Prim.Native.Nat.{bit_and}
use native.Mathlib.Decide.{ℕ_discrete}
use logspine.Prelude.{
  ℕ, ◌+◌, ◌%◌, ◌^◌, ◌≤◌, ◌<◌, ◌≡◌, ◌≢◌, ◌⊎◌, inl, inr, refl, sym, subst, ◌∙◌, some, arith, assign,
  assign_ne, assign_self,
}
use logspine.MpscQueue.{Dif, dif, next}
use logspine.MpscQueue.Concurrent.{
  Pc, idle, pushing, push_seen, push_won, push_stored, popping, pop_seen, pop_won, pop_taken, Phase,
  free, claimed, published, taking, System, with_pc,
}

-- A slot, number `k`, in a phase.
abbrev pub SlotOk : {T : Type 0} → ℕ → (s : System T) → ℕ → Phase → Type 0
SlotOk size s k (free p) =
    ((s.queue.buffer k).sequence ≡ p)
    × (p % size ≡ k)
    × (s.queue.head ≤ p)
    × (p < s.queue.head + size)
SlotOk size s k (claimed p i) =
    ((s.queue.buffer k).sequence ≡ p)
    × (p % size ≡ k)
    × (p < s.queue.head)
    × (s.queue.head ≤ p + size)
    × (s.queue.tail ≤ p)
SlotOk size s k (published p) =
    ((s.queue.buffer k).sequence ≡ p + 1)
    × (p % size ≡ k)
    × (p < s.queue.head)
    × (s.queue.head ≤ p + size)
    × (s.queue.tail ≤ p)
    × ((s.queue.buffer k).value ≡ s.log p)
SlotOk size s k (taking p i) =
    ((s.queue.buffer k).sequence ≡ p + 1)
    × (p % size ≡ k)
    × (p < s.queue.tail)
    × (s.queue.head ≤ p + size)

-- A thread, number `i`, where it stands. One that saw the sequence number it needs either still
-- finds the slot as it was, or is too late for its position.
abbrev pub ThreadOk : {T : Type 0} → ℕ → (s : System T) → ℕ → Pc T → Type 0
ThreadOk size s i idle = Unit {0}
ThreadOk size s i (pushing pos x) = pos ≤ s.queue.head
ThreadOk size s i (push_seen pos sq x) =
    (pos ≤ s.queue.head)
    × (dif sq pos ≡ Dif.zero → (s.phase (pos % size) ≡ free pos) ⊎ (pos < s.queue.head))
ThreadOk size s i (push_won pos x) = (s.phase (pos % size) ≡ claimed pos i) × (s.log pos ≡ some x)
ThreadOk size s i (push_stored pos) =
    (s.phase (pos % size) ≡ claimed pos i) × ((s.queue.buffer (pos % size)).value ≡ s.log pos)
ThreadOk size s i (popping pos) = pos ≤ s.queue.tail
ThreadOk size s i (pop_seen pos sq) =
    (pos ≤ s.queue.tail)
    × (dif sq (next pos) ≡ Dif.zero → (s.phase (pos % size) ≡ published pos) ⊎ (pos < s.queue.tail))
ThreadOk size s i (pop_won pos) =
    (s.phase (pos % size) ≡ taking pos i) × ((s.queue.buffer (pos % size)).value ≡ s.log pos)
ThreadOk size s i (pop_taken pos v) = (s.phase (pos % size) ≡ taking pos i) × (v ≡ s.log pos)

-- A position between tail and head is on its way.
abbrev pub InFlight : ℕ → Phase → Type 0
InFlight p ph = (ph ≡ published p) ⊎ ((i : ℕ) × (ph ≡ claimed p i))

pub record Inv {T : Type 0} (size : ℕ) (s : System T) : Type 0 where
  pub indexed : (p : ℕ) → bit_and p s.queue.buffer_mask ≡ p % size
  pub mask : s.queue.buffer_mask + 1 ≡ size
  pub two : 2 ≤ size
  pub small : s.queue.head + size < 2 ^ 63
  pub ordered : s.queue.tail ≤ s.queue.head
  pub slots : (k : ℕ) → k < size → SlotOk size s k (s.phase k)
  pub threads : (i : ℕ) → ThreadOk size s i (s.pc i)
  pub live : (p : ℕ) → s.queue.tail ≤ p → p < s.queue.head → InFlight p (s.phase (p % size))

-- What a step of thread `i` leaves to the other threads: the slots that they hold, and the slots that
-- they saw, unless it is too late for these.
pub record Frame {T : Type 0} (size i : ℕ) (s t : System T) : Type 0 where
  pub head_up : s.queue.head ≤ t.queue.head
  pub tail_up : s.queue.tail ≤ t.queue.tail
  pub still_free :
      (p : ℕ) → s.phase (p % size) ≡ free p → (t.phase (p % size) ≡ free p) ⊎ (p < t.queue.head)
  pub still_published :
      (p : ℕ)
      → s.phase (p % size) ≡ published p
      → (t.phase (p % size) ≡ published p) ⊎ (p < t.queue.tail)
  pub held :
      (p j : ℕ)
      → j ≢ i
      → (s.phase (p % size) ≡ claimed p j) ⊎ (s.phase (p % size) ≡ taking p j)
      → (t.phase (p % size) ≡ s.phase (p % size))
        × ((t.queue.buffer (p % size)).value ≡ (s.queue.buffer (p % size)).value)
        × (t.log p ≡ s.log p)

module _ {T : Type 0} (size i : ℕ) (s t : System T) (f : Frame size i s t) where
  ThreadOk-frame : (j : ℕ) (p : Pc T) → j ≢ i → ThreadOk size s j p → ThreadOk size t j p
  ThreadOk-frame j idle ne h = h
  ThreadOk-frame j (pushing pos x) ne h = omega (arith, f.head_up)
  ThreadOk-frame j (push_seen pos sq x) ne h = (omega (arith, f.head_up), λ e. later_free (h.1 e))
    where
      later_free :
          (s.phase (pos % size) ≡ free pos) ⊎ (pos < s.queue.head)
          → (t.phase (pos % size) ≡ free pos) ⊎ (pos < t.queue.head)
      later_free (inl e) = f.still_free pos e
      later_free (inr lt) = inr (omega (arith, f.head_up))
  ThreadOk-frame j (push_won pos x) ne h =
      let k = f.held pos j ne (inl h.0) in (k.0 ∙ h.0, k.2 ∙ h.1)
  ThreadOk-frame j (push_stored pos) ne h =
      let k = f.held pos j ne (inl h.0) in (k.0 ∙ h.0, k.1 ∙ h.1 ∙ sym k.2)
  ThreadOk-frame j (popping pos) ne h = omega (arith, f.tail_up)
  ThreadOk-frame j (pop_seen pos sq) ne h = (omega (arith, f.tail_up), λ e. later_published (h.1 e))
    where
      later_published :
          (s.phase (pos % size) ≡ published pos) ⊎ (pos < s.queue.tail)
          → (t.phase (pos % size) ≡ published pos) ⊎ (pos < t.queue.tail)
      later_published (inl e) = f.still_published pos e
      later_published (inr lt) = inr (omega (arith, f.tail_up))
  ThreadOk-frame j (pop_won pos) ne h =
      let k = f.held pos j ne (inr h.0) in (k.0 ∙ h.0, k.1 ∙ h.1 ∙ sym k.2)
  ThreadOk-frame j (pop_taken pos v) ne h =
      let k = f.held pos j ne (inr h.0) in (k.0 ∙ h.0, h.1 ∙ sym k.2)

  -- All threads after a step that leaves thread `i` at `p`.
  pub threads-frame :
      (p : Pc T)
      → t.pc ≡ assign s.pc i p
      → ((j : ℕ) → ThreadOk size s j (s.pc j))
      → ThreadOk size t i p
      → (j : ℕ) → ThreadOk size t j (t.pc j)
  threads-frame p e h own j = elim (ℕ_discrete j i) [
    | yes same ↦
        subst (λ q. ThreadOk size t j (q j)) (sym e)
          (subst (λ q. ThreadOk size t j q) (sym (assign_self s.pc i p j (sym same)))
            (subst (λ k. ThreadOk size t k p) (sym same) own))
    | no ne ↦
        subst (λ q. ThreadOk size t j (q j)) (sym e)
          (subst (λ q. ThreadOk size t j q) (sym (assign_ne s.pc i p j ne))
            (ThreadOk-frame j (s.pc j) ne (h j)))
  ]

module _ {T : Type 0} (size : ℕ) where
  -- A step that only moves the thread itself.
  pub with_pc-Inv :
      (s : System T) (i : ℕ) (p : Pc T)
      → Inv size s
      → ThreadOk size (with_pc i p s) i p
      → Inv size (with_pc i p s)
  with_pc-Inv s i p v own = record {
    indexed = v.indexed;
    mask = v.mask;
    two = v.two;
    small = v.small;
    ordered = v.ordered;
    slots = λ k lt. same_slot (s.phase k) k (v.slots k lt);
    threads = threads-frame size i s (with_pc i p s) nothing p refl v.threads own;
    live = v.live;
  }
    where
      same_slot : (ph : Phase) (k : ℕ) → SlotOk size s k ph → SlotOk size (with_pc i p s) k ph
      same_slot (free p) k h = h
      same_slot (claimed p i) k h = h
      same_slot (published p) k h = h
      same_slot (taking p i) k h = h

      nothing : Frame size i s (with_pc i p s)
      nothing = record {
        head_up = omega arith;
        tail_up = omega arith;
        still_free = λ p e. inl e;
        still_published = λ p e. inl e;
        held = λ p j ne h. (refl, refl, refl);
      }
