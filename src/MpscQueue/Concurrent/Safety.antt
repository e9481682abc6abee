-- ===== src/MpscQueue/Concurrent/Safety.antt =====
-- What holds in every state that pushes and pops reach, whatever their interleaving.
use native.Mathlib.Decide.{dec_lt}
use native.Mathlib.Nat.{add-mod_right, mod-eq_of_lt}
use logspine.Prelude.{
  ℕ, ◌+◌, ◌%◌, ◌^◌, ◌≤◌, ◌<◌, ◌≡◌, ◌⊎◌, inl, inr, refl, sym, ap, subst, ◌∙◌, Option, none, some, [],
  arith,
}
use logspine.MpscQueue.{MpscQueue, index}
use logspine.MpscQueue.Holds.{Holds}
use logspine.MpscQueue.Concurrent.{
  Pc, idle, pushing, push_seen, push_won, push_stored, popping, pop_seen, pop_won, pop_taken, Phase,
  free, claimed, published, taking, System, Step, push_start, push_look, push_win, push_lose,
  push_full, push_again, push_store, push_publish, pop_start, pop_look, pop_win, pop_lose,
  pop_empty, pop_again, pop_take, pop_release, started, Reach, start, later,
}
use logspine.MpscQueue.Concurrent.Invariant.{ThreadOk, InFlight, Inv, with_pc-Inv}
use logspine.MpscQueue.Concurrent.Push.{position, push_look-Inv, push_win-Inv}
use logspine.MpscQueue.Concurrent.Publish.{push_store-Inv, push_publish-Inv}
use logspine.MpscQueue.Concurrent.Pop.{pop_look-Inv, pop_win-Inv}
use logspine.MpscQueue.Concurrent.Release.{pop_take-Inv, pop_release-Inv}

-- The position whose slot a call uses.
abbrev pub held_position : {T : Type 0} → Pc T → Option ℕ
held_position (push_won pos x) = some pos
held_position (push_stored pos) = some pos
held_position (pop_won pos) = some pos
held_position (pop_taken pos v) = some pos
held_position p = none

-- Thread `i` has the slot.
abbrev HeldBy : ℕ → Phase → Type 0
HeldBy i (claimed p j) = i ≡ j
HeldBy i (taking p j) = i ≡ j
HeldBy i ph = ⊥

same_holder : (i j : ℕ) (ph : Phase) → HeldBy i ph → HeldBy j ph → i ≡ j
same_holder i j (free p) a b = absurd a
same_holder i j (claimed p k) a b = a ∙ sym b
same_holder i j (published p) a b = absurd a
same_holder i j (taking p k) a b = a ∙ sym b

module _ {T : Type 0} (size : ℕ) where
  Step-Inv :
      (s : System T) (v : Inv size s) (t : System T)
      → Step s t
      → t.queue.head + size < 2 ^ 63
      → Inv size t
  Step-Inv s v _ (push_start i x at) small =
      with_pc-Inv size s i (pushing s.queue.head x) v (omega arith)
  Step-Inv s v _ (push_look i pos x at) small = push_look-Inv size s v i pos x at
  Step-Inv s v _ (push_win i pos sq x at e here) small =
      push_win-Inv size s v i pos sq x at e here small
  Step-Inv s v _ (push_lose i pos sq x at e) small =
      with_pc-Inv size s i (pushing s.queue.head x) v (omega arith)
  Step-Inv s v _ (push_full i pos sq x at e) small = with_pc-Inv size s i idle v tt
  Step-Inv s v _ (push_again i pos sq x at e) small =
      with_pc-Inv size s i (pushing s.queue.head x) v (omega arith)
  Step-Inv s v _ (push_store i pos x at) small = push_store-Inv size s v i pos x at
  Step-Inv s v _ (push_publish i pos at) small = push_publish-Inv size s v i pos at
  Step-Inv s v _ (pop_start i at) small =
      with_pc-Inv size s i (popping s.queue.tail) v (omega arith)
  Step-Inv s v _ (pop_look i pos at) small = pop_look-Inv size s v i pos at
  Step-Inv s v _ (pop_win i pos sq at e here) small = pop_win-Inv size s v i pos sq at e here
  Step-Inv s v _ (pop_lose i pos sq at e) small =
      with_pc-Inv size s i (popping s.queue.tail) v (omega arith)
  Step-Inv s v _ (pop_empty i pos sq at e) small = with_pc-Inv size s i idle v tt
  Step-Inv s v _ (pop_again i pos sq at e) small =
      with_pc-Inv size s i (popping s.queue.tail) v (omega arith)
  Step-Inv s v _ (pop_take i pos at) small = pop_take-Inv size s v i pos at
  Step-Inv s v _ (pop_release i pos a at) small = pop_release-Inv size s v i pos a at

  -- A new queue.
  pub started-Inv :
      (q : MpscQueue T)
      → 2 ≤ size
      → Holds size q []
      → q.head ≡ 0
      → size < 2 ^ 63
      → Inv size (started q)
  started-Inv q two h zeroed small = record {
    indexed = h.indexed;
    mask = h.mask;
    two = two;
    small = omega arith;
    ordered = omega (arith, h.counted);
    slots = λ k lt. (fresh k lt, mod-eq_of_lt lt, omega arith, omega arith);
    threads = λ i. tt;
    live = λ p lo hi. absurd (omega arith);
  }
    where
      fresh : (k : ℕ) → k < size → (q.buffer k).sequence ≡ k
      fresh k lt =
          subst (λ m. (q.buffer m).sequence ≡ k) (ap (λ m. m % size) (the_same) ∙ mod-eq_of_lt lt)
            (h.free k (omega arith) lt ∙ the_same)
        where
          the_same : q.tail + k ≡ k
          the_same = omega (arith, h.counted)

  pub Reach-Inv : (o : System T) → Inv size o → (s : System T) → Reach size o s → Inv size s
  Reach-Inv o v _ start = v
  Reach-Inv o v _ (later {s} {t} r st bound) = Step-Inv s (Reach-Inv o v s r) t st bound

  module _ (q : MpscQueue T) (two : 2 ≤ size) (h : Holds size q []) (zeroed : q.head ≡ 0)
      (fits : size < 2 ^ 63) (s : System T) (r : Reach size (started q) s) where
    pub reached-Inv : Inv size s
    reached-Inv = Reach-Inv (started q) (started-Inv q two h zeroed fits) s r

    -- In every state that pushes and pops of any threads reach from a new queue of a capacity of at
    -- least 2, with any interleaving, while the positions stay below 2 ^ 63: two calls that are
    -- between winning a position and releasing its slot and use the same slot are one call of one
    -- thread.
    pub one_holder :
        (i j a b : ℕ)
        → held_position (s.pc i) ≡ some a
        → held_position (s.pc j) ≡ some b
        → index s.queue a ≡ index s.queue b
        → i ≡ j
    one_holder i j a b hi hj same =
        same_holder i j (s.phase (a % size)) (holds i a (s.pc i) (v.threads i) hi)
          (subst (λ k. HeldBy j (s.phase k)) (sym slots_meet) (holds j b (s.pc j) (v.threads j) hj))
      where
        v : Inv size s
        v = reached-Inv

        slots_meet : a % size ≡ b % size
        slots_meet = sym (v.indexed a) ∙ same ∙ v.indexed b

        at_position :
            (i a pos : ℕ)
            → (s.phase (pos % size) ≡ claimed pos i) ⊎ (s.phase (pos % size) ≡ taking pos i)
            → some pos ≡ some a
            → HeldBy i (s.phase (a % size))
        at_position i a pos (inl f) e =
            subst (λ p. HeldBy i (s.phase (p % size))) (cc) (subst (HeldBy i) (sym f) refl)
        at_position i a pos (inr f) e =
            subst (λ p. HeldBy i (s.phase (p % size))) (cc) (subst (HeldBy i) (sym f) refl)

        holds :
            (i a : ℕ) (p : Pc T)
            → ThreadOk size s i p
            → held_position p ≡ some a
            → HeldBy i (s.phase (a % size))
        holds i a idle h e = absurd (cc)
        holds i a (pushing pos x) h e = absurd (cc)
        holds i a (push_seen pos sq x) h e = absurd (cc)
        holds i a (push_won pos x) h e = at_position i a pos (inl h.0) e
        holds i a (push_stored pos) h e = at_position i a pos (inl h.0) e
        holds i a (popping pos) h e = absurd (cc)
        holds i a (pop_seen pos sq) h e = absurd (cc)
        holds i a (pop_won pos) h e = at_position i a pos (inr h.0) e
        holds i a (pop_taken pos o) h e = at_position i a pos (inr h.0) e

    -- In every state that pushes and pops of any threads reach from a new queue of a capacity of at
    -- least 2, with any interleaving, while the positions stay below 2 ^ 63, the tail is not past the
    -- head, and the head is at most the capacity ahead of the tail.
    pub within_capacity : (s.queue.tail ≤ s.queue.head) × (s.queue.head ≤ s.queue.tail + size)
    within_capacity = elim (dec_lt (s.queue.tail + size) s.queue.head) [
      | yes far ↦ absurd (
          apart (s.phase (s.queue.tail % size)) (v.live s.queue.tail (omega arith) (omega arith)) (
            subst (λ k. InFlight (s.queue.tail + size) (s.phase k))
              (add-mod_right s.queue.tail size) (v.live (s.queue.tail + size) (omega arith) far)))
      | no near ↦ (v.ordered, omega arith)
    ]
      where
        v : Inv size s
        v = reached-Inv

        at : (p : ℕ) (ph : Phase) → InFlight p ph → position ph ≡ p
        at p ph (inl f) = ap position f
        at p ph (inr (j, f)) = ap position f

        apart : (ph : Phase) → InFlight s.queue.tail ph → InFlight (s.queue.tail + size) ph → ⊥
        apart ph a b = omega (arith, v.two, at s.queue.tail ph a, at (s.queue.tail + size) ph b)
