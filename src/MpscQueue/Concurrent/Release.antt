-- ===== src/MpscQueue/Concurrent/Release.antt =====
-- A pop that has won its position keeps the invariant.
use native.Mathlib.Nat.{add-mod_right}
use logspine.Prelude.{
  ℕ, ◌+◌, ◌%◌, ◌≡◌, ◌⊎◌, inl, inr, refl, sym, ap, subst, ◌∙◌, Option, none, arith, assign_self,
  assign_ne,
}
use logspine.MpscQueue.{word, index}
use logspine.MpscQueue.Concurrent.{
  idle, pop_won, pop_taken, free, claimed, taking, System, take_item, release,
}
use logspine.MpscQueue.Concurrent.Invariant.{SlotOk, ThreadOk, InFlight, Inv}
use logspine.MpscQueue.Concurrent.Touch.{Touch, Touch-Inv}
use logspine.MpscQueue.Concurrent.Push.{own_thread, own_slot}

module _ {T : Type 0} (size : ℕ) (s : System T) (v : Inv size s) where
  -- A thread that takes from a slot is the only one that holds it.
  taking_mine :
      (k pos i : ℕ)
      → s.phase k ≡ taking pos i
      → (p j : ℕ) → (s.phase k ≡ claimed p j) ⊎ (s.phase k ≡ taking p j)
      → j ≡ i
  taking_mine k pos i was p j (inl f) = cc
  taking_mine k pos i was p j (inr f) = cc

  pub pop_take-Inv :
      (i pos : ℕ) → s.pc i ≡ pop_won pos → Inv size (take_item i pos (index s.queue pos) s)
  pop_take-Inv i pos at =
      subst (λ m. Inv size (take_item i pos m s)) (sym (v.indexed pos))
        (Touch-Inv size i k s t touch (pop_taken pos (s.queue.buffer k).value) refl v own
          (subst (SlotOk size t k) (sym own.0)
            (ap (λ c. c.sequence) stored ∙ old.0, refl, old.2, old.3))
          (λ p same lo hi. subst (λ m. InFlight p (s.phase m)) same (v.live p lo hi)) v.ordered
          v.small)
    where
      k : ℕ
      k = pos % size

      t : System T
      t = take_item i pos k s

      own : ThreadOk size s i (pop_won pos)
      own = own_thread size s v i (pop_won pos) at

      old : SlotOk size s k (taking pos i)
      old = own_slot size s v pos (taking pos i) own.0

      stored : t.queue.buffer k ≡ record (s.queue.buffer k) { value = none }
      stored = assign_self s.queue.buffer k (record (s.queue.buffer k) { value = none }) k refl

      touch : Touch size i k s t
      touch = record {
        mask_kept = refl;
        head_up = omega arith;
        tail_up = omega arith;
        head_only = λ p ne lo. lo;
        tail_only = λ p ne lo. lo;
        buffer_only =
            λ m ne. assign_ne s.queue.buffer k (record (s.queue.buffer k) { value = none }) m ne;
        phase_only = λ m ne. refl;
        log_only = λ p ne. refl;
        free_at = λ p f. absurd (cc (own.0));
        published_at = λ p f. absurd (cc (own.0));
        mine = taking_mine k pos i own.0;
      }

  pub pop_release-Inv :
      (i pos : ℕ) (a : Option T)
      → s.pc i ≡ pop_taken pos a
      → Inv size (release i pos (index s.queue pos) s)
  pop_release-Inv i pos a at =
      subst (λ m. Inv size (release i pos m s)) (sym (v.indexed pos))
        (Touch-Inv size i k s t touch idle refl v tt
          (subst (SlotOk size t k) (sym phased) (
            ap (λ c. c.sequence) stored,
            ap (λ m. m % size) following ∙ add-mod_right pos size,
            omega (arith, following, old.3),
            omega (arith, following, old.2, v.ordered),
          ))
          (λ p same lo hi.
            absurd (gone p (subst (λ m. InFlight p (s.phase m)) same (v.live p lo hi))))
          v.ordered v.small)
    where
      k : ℕ
      k = pos % size

      t : System T
      t = release i pos k s

      own : ThreadOk size s i (pop_taken pos a)
      own = own_thread size s v i (pop_taken pos a) at

      old : SlotOk size s k (taking pos i)
      old = own_slot size s v pos (taking pos i) own.0

      freed : ℕ
      freed = (pos + s.queue.buffer_mask + 1) % word

      following : freed ≡ pos + size
      following = omega (arith, v.small, v.mask, old.2, v.ordered)

      stored : t.queue.buffer k ≡ record (s.queue.buffer k) { sequence = freed }
      stored = assign_self s.queue.buffer k (record (s.queue.buffer k) { sequence = freed }) k refl

      phased : t.phase k ≡ free freed
      phased = assign_self s.phase k (free freed) k refl

      gone : (p : ℕ) → InFlight p (s.phase k) → ⊥
      gone p (inl f) = cc (own.0)
      gone p (inr (j, f)) = cc (own.0)

      touch : Touch size i k s t
      touch = record {
        mask_kept = refl;
        head_up = omega arith;
        tail_up = omega arith;
        head_only = λ p ne lo. lo;
        tail_only = λ p ne lo. lo;
        buffer_only = λ m ne.
            assign_ne s.queue.buffer k (record (s.queue.buffer k) { sequence = freed }) m ne;
        phase_only = λ m ne. assign_ne s.phase k (free freed) m ne;
        log_only = λ p ne. refl;
        free_at = λ p f. absurd (cc (own.0));
        published_at = λ p f. absurd (cc (own.0));
        mine = taking_mine k pos i own.0;
      }
