-- ===== src/MpscQueue/Concurrent/Push.antt =====
-- The accesses of a push keep the invariant.
use native.Mathlib.Nat.{mod-lt}
use native.Mathlib.Decide.{ℕ_discrete}
use logspine.Prelude.{
  ℕ, ◌+◌, ◌%◌, ◌^◌, ◌≤◌, ◌<◌, ◌≡◌, ◌≢◌, ◌⊎◌, inl, inr, refl, sym, ap, subst, ◌∙◌, some, arith,
  assign_self, assign_ne,
}
use logspine.MpscQueue.{Dif, dif, index}
use logspine.MpscQueue.Ring.{mod_ne}
use logspine.MpscQueue.Concurrent.{
  Pc, pushing, push_seen, push_won, Phase, free, claimed, published, taking, System, with_pc, claim,
  cell,
}
use logspine.MpscQueue.Concurrent.Invariant.{SlotOk, ThreadOk, InFlight, Inv, with_pc-Inv}
use logspine.MpscQueue.Concurrent.Touch.{Touch, Touch-Inv}

-- Below 2 ^ 63 only a position itself has difference zero.
pub dif_zero_eq : (a b : ℕ) → a < 2 ^ 63 → b < 2 ^ 63 → dif a b ≡ Dif.zero → a ≡ b
unfolding dif
dif_zero_eq a b ha hb e = ground arith

abbrev pub position : Phase → ℕ
position (free p) = p
position (claimed p i) = p
position (published p) = p
position (taking p i) = p

module _ {T : Type 0} (size : ℕ) (s : System T) (v : Inv size s) where
  pub own_thread : (i : ℕ) (p : Pc T) → s.pc i ≡ p → ThreadOk size s i p
  own_thread i p e = subst (ThreadOk size s i) e (v.threads i)

  pub slot_below : (pos : ℕ) → pos % size < size
  slot_below pos = mod-lt pos (omega (arith, v.two))

  pub own_slot : (pos : ℕ) (ph : Phase) → s.phase (pos % size) ≡ ph → SlotOk size s (pos % size) ph
  own_slot pos ph e = subst (SlotOk size s (pos % size)) e (v.slots (pos % size) (slot_below pos))

  pub sequence_small :
      (k : ℕ) (ph : Phase) → SlotOk size s k ph → (s.queue.buffer k).sequence < 2 ^ 63
  sequence_small k (free p) h = omega (arith, v.small, h.0, h.3)
  sequence_small k (claimed p i) h = omega (arith, v.small, h.0, h.2)
  sequence_small k (published p) h = omega (arith, v.small, h.0, h.2)
  sequence_small k (taking p i) h = omega (arith, v.small, v.ordered, h.0, h.2)

  -- A slot's sequence number that is a position of another slot is not its own.
  pub next_slot : (p pos : ℕ) → p % size ≡ pos % size → p + 1 ≢ pos
  next_slot p pos same e = mod_ne size p pos (omega arith) (omega (arith, v.two)) same

  -- The sequence number that a push waits for is there only if the slot is free for its position, or
  -- if another thread has won the position.
  push_sees :
      (pos : ℕ) (ph : Phase)
      → SlotOk size s (pos % size) ph
      → (s.queue.buffer (pos % size)).sequence ≡ pos
      → (ph ≡ free pos) ⊎ (pos < s.queue.head)
  push_sees pos (free p) h e = inl (ap free (sym h.0 ∙ e))
  push_sees pos (claimed p i) h e = inr (omega (arith, h.0, h.2))
  push_sees pos (published p) h e = absurd (next_slot p pos h.1 (sym h.0 ∙ e))
  push_sees pos (taking p i) h e = absurd (next_slot p pos h.1 (sym h.0 ∙ e))

  pub push_look-Inv :
      (i pos : ℕ) (x : T)
      → s.pc i ≡ pushing pos x
      → Inv size (with_pc i (push_seen pos (cell s pos).sequence x) s)
  push_look-Inv i pos x at =
      with_pc-Inv size s i (push_seen pos (cell s pos).sequence x) v
        (own_thread i (pushing pos x) at, λ e. push_sees pos (s.phase (pos % size)) slot (seen e))
    where
      slot : SlotOk size s (pos % size) (s.phase (pos % size))
      slot = v.slots (pos % size) (slot_below pos)

      seen : dif (cell s pos).sequence pos ≡ Dif.zero → (s.queue.buffer (pos % size)).sequence ≡ pos
      seen e =
          dif_zero_eq (s.queue.buffer (pos % size)).sequence pos
            (sequence_small (pos % size) (s.phase (pos % size)) slot)
            (omega (arith, v.small, own_thread i (pushing pos x) at))
            (subst (λ k. dif (s.queue.buffer k).sequence pos ≡ Dif.zero) (v.indexed pos) e)

  -- At the head the slot that a push saw is still free.
  push_free :
      (i pos sq : ℕ) (x : T)
      → s.pc i ≡ push_seen pos sq x
      → dif sq pos ≡ Dif.zero
      → s.queue.head ≡ pos
      → s.phase (pos % size) ≡ free pos
  push_free i pos sq x at e here = still ((own_thread i (push_seen pos sq x) at).1 e)
    where
      still :
          (s.phase (pos % size) ≡ free pos) ⊎ (pos < s.queue.head) → s.phase (pos % size) ≡ free pos
      still (inl f) = f
      still (inr lt) = absurd (omega arith)

  pub push_win-Inv :
      (i pos sq : ℕ) (x : T)
      → s.pc i ≡ push_seen pos sq x
      → dif sq pos ≡ Dif.zero
      → s.queue.head ≡ pos
      → (claim i pos x (index s.queue pos) s).queue.head + size < 2 ^ 63
      → Inv size (claim i pos x (index s.queue pos) s)
  push_win-Inv i pos sq x at e here bound =
      subst (λ m. Inv size (claim i pos x m s)) (sym (v.indexed pos))
        (Touch-Inv size i k s t touch (push_won pos x) refl v
          (assign_self s.phase k (claimed pos i) k refl, assign_self s.log pos (some x) pos refl)
          (subst (SlotOk size t k) (sym (assign_self s.phase k (claimed pos i) k refl)) (
            old.0,
            refl,
            omega (arith, v.small),
            omega (arith, v.small, v.two),
            omega (arith, v.ordered),
          ))
          (λ p same lo hi. live p same lo (omega (arith, v.small)))
          (omega (arith, v.small, v.ordered)) bound)
    where
      k : ℕ
      k = pos % size

      t : System T
      t = claim i pos x k s

      was : s.phase k ≡ free pos
      was = push_free i pos sq x at e here

      old : SlotOk size s k (free pos)
      old = own_slot pos (free pos) was

      touch : Touch size i k s t
      touch = record {
        mask_kept = refl;
        head_up = omega (arith, v.small);
        tail_up = omega arith;
        head_only = λ p ne lo. elim (ℕ_discrete p pos) [
          | yes same ↦ absurd (ne (ap (λ m. m % size) same))
          | no other ↦ omega (arith, v.small)
        ];
        tail_only = λ p ne lo. lo;
        buffer_only = λ m ne. refl;
        phase_only = λ m ne. assign_ne s.phase k (claimed pos i) m ne;
        log_only = λ p ne. assign_ne s.log pos (some x) p (λ same. ne (ap (λ m. m % size) same));
        free_at = λ p f. omega (arith, v.small, ap position (sym was ∙ f));
        published_at = λ p f. cc (was);
        mine = λ p j f. unheld p j f;
      }
        where
          unheld : (p j : ℕ) → (s.phase k ≡ claimed p j) ⊎ (s.phase k ≡ taking p j) → j ≡ i
          unheld p j (inl f) = cc (was)
          unheld p j (inr f) = cc (was)

      live : (p : ℕ) → p % size ≡ k → s.queue.tail ≤ p → p < pos + 1 → InFlight p (t.phase k)
      live p same lo hi = elim (ℕ_discrete p pos) [
        | yes eq ↦
            inr (i, assign_self s.phase k (claimed pos i) k refl ∙ ap (λ m. claimed m i) (sym eq))
        | no ne ↦
            absurd (early (subst (λ m. InFlight p (s.phase m)) same (v.live p lo (omega arith))))
      ]
        where
          early : InFlight p (s.phase k) → ⊥
          early (inl f) = cc (was)
          early (inr (j, f)) = cc (was)
