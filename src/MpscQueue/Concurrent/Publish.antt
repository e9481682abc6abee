-- ===== src/MpscQueue/Concurrent/Publish.antt =====
-- A push that has won its position keeps the invariant.
use logspine.Prelude.{
  ℕ, ◌+◌, ◌%◌, ◌≡◌, ◌⊎◌, inl, inr, refl, sym, ap, subst, ◌∙◌, some, arith, assign_self, assign_ne,
}
use logspine.MpscQueue.{next, index}
use logspine.MpscQueue.Concurrent.{
  idle, push_won, push_stored, claimed, published, taking, System, store_item, publish,
}
use logspine.MpscQueue.Concurrent.Invariant.{SlotOk, ThreadOk, InFlight, Inv}
use logspine.MpscQueue.Concurrent.Touch.{Touch, Touch-Inv}
use logspine.MpscQueue.Concurrent.Push.{position, own_thread, own_slot}

module _ {T : Type 0} (size : ℕ) (s : System T) (v : Inv size s) where
  -- A thread that has claimed a slot is the only one that holds it.
  claimed_mine :
      (k pos i : ℕ)
      → s.phase k ≡ claimed pos i
      → (p j : ℕ) → (s.phase k ≡ claimed p j) ⊎ (s.phase k ≡ taking p j)
      → j ≡ i
  claimed_mine k pos i was p j (inl f) = cc
  claimed_mine k pos i was p j (inr f) = cc

  pub push_store-Inv :
      (i pos : ℕ) (x : T)
      → s.pc i ≡ push_won pos x
      → Inv size (store_item i pos x (index s.queue pos) s)
  push_store-Inv i pos x at =
      subst (λ m. Inv size (store_item i pos x m s)) (sym (v.indexed pos))
        (Touch-Inv size i k s t touch (push_stored pos) refl v
          (own.0, ap (λ c. c.value) stored ∙ sym own.1)
          (subst (SlotOk size t k) (sym own.0)
            (ap (λ c. c.sequence) stored ∙ old.0, refl, old.2, old.3, old.4))
          (λ p same lo hi. subst (λ m. InFlight p (s.phase m)) same (v.live p lo hi)) v.ordered
          v.small)
    where
      k : ℕ
      k = pos % size

      t : System T
      t = store_item i pos x k s

      own : ThreadOk size s i (push_won pos x)
      own = own_thread size s v i (push_won pos x) at

      old : SlotOk size s k (claimed pos i)
      old = own_slot size s v pos (claimed pos i) own.0

      stored : t.queue.buffer k ≡ record (s.queue.buffer k) { value = some x }
      stored = assign_self s.queue.buffer k (record (s.queue.buffer k) { value = some x }) k refl

      touch : Touch size i k s t
      touch = record {
        mask_kept = refl;
        head_up = omega arith;
        tail_up = omega arith;
        head_only = λ p ne lo. lo;
        tail_only = λ p ne lo. lo;
        buffer_only =
            λ m ne. assign_ne s.queue.buffer k (record (s.queue.buffer k) { value = some x }) m ne;
        phase_only = λ m ne. refl;
        log_only = λ p ne. refl;
        free_at = λ p f. absurd (cc (own.0));
        published_at = λ p f. absurd (cc (own.0));
        mine = claimed_mine k pos i own.0;
      }

  pub push_publish-Inv :
      (i pos : ℕ) → s.pc i ≡ push_stored pos → Inv size (publish i pos (index s.queue pos) s)
  push_publish-Inv i pos at =
      subst (λ m. Inv size (publish i pos m s)) (sym (v.indexed pos))
        (Touch-Inv size i k s t touch idle refl v tt
          (subst (SlotOk size t k) (sym phased) (
            ap (λ c. c.sequence) stored ∙ following,
            refl,
            old.2,
            old.3,
            old.4,
            ap (λ c. c.value) stored ∙ own.1,
          ))
          (λ p same lo hi. live p (subst (λ m. InFlight p (s.phase m)) same (v.live p lo hi)))
          v.ordered v.small)
    where
      k : ℕ
      k = pos % size

      t : System T
      t = publish i pos k s

      own : ThreadOk size s i (push_stored pos)
      own = own_thread size s v i (push_stored pos) at

      old : SlotOk size s k (claimed pos i)
      old = own_slot size s v pos (claimed pos i) own.0

      following : next pos ≡ pos + 1
      following = omega (arith, v.small, old.2)

      stored : t.queue.buffer k ≡ record (s.queue.buffer k) { sequence = next pos }
      stored =
          assign_self s.queue.buffer k (record (s.queue.buffer k) { sequence = next pos }) k refl

      phased : t.phase k ≡ published pos
      phased = assign_self s.phase k (published pos) k refl

      live : (p : ℕ) → InFlight p (s.phase k) → InFlight p (t.phase k)
      live p (inl f) = absurd (cc (own.0))
      live p (inr (j, f)) = inl (phased ∙ ap published (ap position (sym own.0 ∙ f)))

      touch : Touch size i k s t
      touch = record {
        mask_kept = refl;
        head_up = omega arith;
        tail_up = omega arith;
        head_only = λ p ne lo. lo;
        tail_only = λ p ne lo. lo;
        buffer_only = λ m ne.
            assign_ne s.queue.buffer k (record (s.queue.buffer k) { sequence = next pos }) m ne;
        phase_only = λ m ne. assign_ne s.phase k (published pos) m ne;
        log_only = λ p ne. refl;
        free_at = λ p f. absurd (cc (own.0));
        published_at = λ p f. absurd (cc (own.0));
        mine = claimed_mine k pos i own.0;
      }
