-- ===== src/MpscQueue/Concurrent/Pop.antt =====
-- The accesses of a pop keep the invariant.
use native.Mathlib.Decide.{ℕ_discrete}
use logspine.Prelude.{
  ℕ, ◌+◌, ◌%◌, ◌≤◌, ◌<◌, ◌≡◌, ◌⊎◌, inl, inr, refl, sym, ap, subst, ◌∙◌, arith, assign_self,
  assign_ne,
}
use logspine.MpscQueue.{Dif, dif, next, index}
use logspine.MpscQueue.Concurrent.{
  popping, pop_seen, pop_won, Phase, free, claimed, published, taking, System, with_pc, win_pop,
  cell,
}
use logspine.MpscQueue.Concurrent.Invariant.{SlotOk, InFlight, Inv, with_pc-Inv}
use logspine.MpscQueue.Concurrent.Touch.{Touch, Touch-Inv}
use logspine.MpscQueue.Concurrent.Push.{
  dif_zero_eq, position, own_thread, own_slot, slot_below, sequence_small, next_slot,
}

module _ {T : Type 0} (size : ℕ) (s : System T) (v : Inv size s) where
  -- The sequence number that a pop waits for is there only if the item of its position is published,
  -- or if another thread has won the position.
  pop_sees :
      (pos : ℕ) (ph : Phase)
      → SlotOk size s (pos % size) ph
      → (s.queue.buffer (pos % size)).sequence ≡ pos + 1
      → (ph ≡ published pos) ⊎ (pos < s.queue.tail)
  pop_sees pos (free p) h e = absurd (next_slot size s v pos p (sym h.1) (sym e ∙ h.0))
  pop_sees pos (claimed p i) h e = absurd (next_slot size s v pos p (sym h.1) (sym e ∙ h.0))
  pop_sees pos (published p) h e = inl (ap published (omega (arith, h.0, e)))
  pop_sees pos (taking p i) h e = inr (omega (arith, h.0, e, h.2))

  pub pop_look-Inv :
      (i pos : ℕ)
      → s.pc i ≡ popping pos
      → Inv size (with_pc i (pop_seen pos (cell s pos).sequence) s)
  pop_look-Inv i pos at =
      with_pc-Inv size s i (pop_seen pos (cell s pos).sequence) v
        (own, λ e. pop_sees pos (s.phase (pos % size)) slot (seen e))
    where
      own : pos ≤ s.queue.tail
      own = own_thread size s v i (popping pos) at

      slot : SlotOk size s (pos % size) (s.phase (pos % size))
      slot = v.slots (pos % size) (slot_below size s v pos)

      following : next pos ≡ pos + 1
      following = omega (arith, v.small, own, v.ordered)

      seen :
          dif (cell s pos).sequence (next pos) ≡ Dif.zero
          → (s.queue.buffer (pos % size)).sequence ≡ pos + 1
      seen e =
          dif_zero_eq (s.queue.buffer (pos % size)).sequence (next pos)
            (sequence_small size s v (pos % size) (s.phase (pos % size)) slot)
            (omega (arith, v.small, own, v.ordered, v.two))
            (subst (λ k. dif (s.queue.buffer k).sequence (next pos) ≡ Dif.zero) (v.indexed pos) e)
          ∙ following

  -- At the tail the item that a pop saw is still there.
  pop_published :
      (i pos sq : ℕ)
      → s.pc i ≡ pop_seen pos sq
      → dif sq (next pos) ≡ Dif.zero
      → s.queue.tail ≡ pos
      → s.phase (pos % size) ≡ published pos
  pop_published i pos sq at e here = still ((own_thread size s v i (pop_seen pos sq) at).1 e)
    where
      still :
          (s.phase (pos % size) ≡ published pos) ⊎ (pos < s.queue.tail)
          → s.phase (pos % size) ≡ published pos
      still (inl f) = f
      still (inr lt) = absurd (omega arith)

  pub pop_win-Inv :
      (i pos sq : ℕ)
      → s.pc i ≡ pop_seen pos sq
      → dif sq (next pos) ≡ Dif.zero
      → s.queue.tail ≡ pos
      → Inv size (win_pop i pos (index s.queue pos) s)
  pop_win-Inv i pos sq at e here =
      subst (λ m. Inv size (win_pop i pos m s)) (sym (v.indexed pos))
        (Touch-Inv size i k s t touch (pop_won pos) refl v (phased, old.5)
          (subst (SlotOk size t k) (sym phased) (old.0, refl, omega arith, old.3))
          (λ p same lo hi.
            absurd
              (late p lo (subst (λ m. InFlight p (s.phase m)) same (v.live p (omega arith) hi))))
          (omega (arith, old.2)) v.small)
    where
      k : ℕ
      k = pos % size

      t : System T
      t = win_pop i pos k s

      was : s.phase k ≡ published pos
      was = pop_published i pos sq at e here

      old : SlotOk size s k (published pos)
      old = own_slot size s v pos (published pos) was

      phased : t.phase k ≡ taking pos i
      phased = assign_self s.phase k (taking pos i) k refl

      following : next pos ≡ pos + 1
      following = omega (arith, v.small, old.2)

      late : (p : ℕ) → next pos ≤ p → InFlight p (s.phase k) → ⊥
      late p lo (inl f) = omega (arith, following, ap position (sym was ∙ f))
      late p lo (inr (j, f)) = cc (was)

      touch : Touch size i k s t
      touch = record {
        mask_kept = refl;
        head_up = omega arith;
        tail_up = omega (arith, following);
        head_only = λ p ne lo. lo;
        tail_only = λ p ne lo. elim (ℕ_discrete p pos) [
          | yes same ↦ absurd (ne (ap (λ m. m % size) same))
          | no other ↦ omega (arith, following)
        ];
        buffer_only = λ m ne. refl;
        phase_only = λ m ne. assign_ne s.phase k (taking pos i) m ne;
        log_only = λ p ne. refl;
        free_at = λ p f. cc (was);
        published_at = λ p f. omega (arith, following, ap position (sym was ∙ f));
        mine = λ p j f. unheld p j f;
      }
        where
          unheld : (p j : ℕ) → (s.phase k ≡ claimed p j) ⊎ (s.phase k ≡ taking p j) → j ≡ i
          unheld p j (inl f) = cc (was)
          unheld p j (inr f) = cc (was)
