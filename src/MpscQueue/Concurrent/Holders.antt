-- ===== src/MpscQueue/Concurrent/Holders.antt =====
-- A slot that is being filled or emptied belongs to a call that is under way.
use native.Mathlib.Decide.{ℕ_discrete}
use logspine.Prelude.{
  ℕ, ◌+◌, ◌%◌, ◌<◌, ◌≡◌, ◌≢◌, ◌⊎◌, inl, inr, refl, sym, ap, subst, ◌∙◌, Option, none, some, assign,
  assign_self, assign_ne,
}
use logspine.MpscQueue.{index, word}
use logspine.MpscQueue.Concurrent.{
  Pc, idle, pushing, push_seen, push_won, push_stored, popping, pop_seen, pop_won, pop_taken, Phase,
  free, claimed, published, taking, System, with_pc, cell, claim, store_item, publish, win_pop,
  take_item, release, Step, push_start, push_look, push_win, push_lose, push_full, push_again,
  push_store, push_publish, pop_start, pop_look, pop_win, pop_lose, pop_empty, pop_again, pop_take,
  pop_release, Reach, start, later,
}
use logspine.MpscQueue.Concurrent.Invariant.{SlotOk, Inv}
use logspine.MpscQueue.Concurrent.Safety.{held_position, Reach-Inv}

abbrev holder : Phase → Option ℕ
holder (free p) = none
holder (claimed p i) = some i
holder (published p) = none
holder (taking p i) = some i

abbrev pub UsedBy : Phase → ℕ → ℕ → Type 0
UsedBy ph p i = (ph ≡ claimed p i) ⊎ (ph ≡ taking p i)

module _ {T : Type 0} (size : ℕ) where
  abbrev pub Holders : System T → Type 0
  Holders s = (k p i : ℕ) → k < size → UsedBy (s.phase k) p i → held_position (s.pc i) ≡ some p

  module _ (s t : System T) (i : ℕ) (q : Pc T) (moved : t.pc ≡ assign s.pc i q)
      (hold : Holders s) where
    own_pc : (j : ℕ) → j ≡ i → t.pc j ≡ q
    own_pc j same = ap (λ f. f j) moved ∙ assign_self s.pc i q j (sym same)

    other_pc : (j : ℕ) → j ≢ i → t.pc j ≡ s.pc j
    other_pc j ne = ap (λ f. f j) moved ∙ assign_ne s.pc i q j ne

    -- A step that leaves the phases.
    same_phases : t.phase ≡ s.phase → held_position q ≡ held_position (s.pc i) → Holders t
    same_phases phases held k p j lt u =
        let old = hold k p j lt (subst (λ f. UsedBy (f k) p j) phases u) in
        elim (ℕ_discrete j i) [
          | yes same ↦
              ap held_position (own_pc j same)
              ∙ held
              ∙ ap (λ m. held_position (s.pc m)) (sym same)
              ∙ old
          | no ne ↦ ap held_position (other_pc j ne) ∙ old
        ]

    -- A step that changes the phase of one slot, if the thread has no other slot.
    one_phase :
        (k : ℕ) (ph : Phase)
        → t.phase ≡ assign s.phase k ph
        → ((p j : ℕ) → UsedBy ph p j → (j ≡ i) × (held_position q ≡ some p))
        → ((m p : ℕ) → m < size → m ≢ k → UsedBy (s.phase m) p i → ⊥)
        → Holders t
    one_phase k ph phases now only m p j lt u = elim (ℕ_discrete m k) [
      | yes at ↦
          let here = now p j (
            subst (λ h. UsedBy h p j) (ap (λ f. f m) phases ∙ assign_self s.phase k ph m (sym at))
              u) in
          ap held_position (own_pc j here.0) ∙ here.1
      | no away ↦
          let before : UsedBy (s.phase m) p j =
            subst (λ h. UsedBy h p j) (ap (λ f. f m) phases ∙ assign_ne s.phase k ph m away) u in
          elim (ℕ_discrete j i) [
            | yes same ↦ absurd (only m p lt away (subst (λ n. UsedBy (s.phase m) p n) same before))
            | no ne ↦ ap held_position (other_pc j ne) ∙ hold m p j lt before
          ]
    ]

  module _ (s : System T) (v : Inv size s) (hold : Holders s) where
    -- A thread outside any slot has none.
    has_none :
        (i : ℕ) (c : Pc T)
        → s.pc i ≡ c
        → held_position c ≡ none
        → (k m p : ℕ) → m < size
        → m ≢ k
        → UsedBy (s.phase m) p i
        → ⊥
    has_none i c at out k m p lt ne u = cc (hold m p i lt u, ap held_position at)

    -- A thread at a position has only the slot of this position.
    has_one :
        (i pos : ℕ) (c : Pc T)
        → s.pc i ≡ c
        → held_position c ≡ some pos
        → (m p : ℕ) → m < size
        → m ≢ index s.queue pos
        → UsedBy (s.phase m) p i
        → ⊥
    has_one i pos c at own m p lt ne u = ne (
        sym (used_slot m p i (s.phase m) (v.slots m lt) u)
        ∙ ap (λ n. n % size) (the_same p pos same)
        ∙ sym (v.indexed pos))
      where
        same : some p ≡ some pos
        same = sym (hold m p i lt u) ∙ ap held_position at ∙ own

        the_same : (a b : ℕ) → some a ≡ some b → a ≡ b
        the_same a b e = cc

        used_slot : (m p i : ℕ) (ph : Phase) → SlotOk size s m ph → UsedBy ph p i → p % size ≡ m
        used_slot m p i ph ok (inl e) = (subst (SlotOk size s m) e ok).1
        used_slot m p i ph ok (inr e) = (subst (SlotOk size s m) e ok).1

    nothing_new :
        (ph : Phase) (i : ℕ)
        → holder ph ≡ none
        → (p j : ℕ) → UsedBy ph p j
        → (j ≡ i) × (none ≡ some p)
    nothing_new ph i free_now p j (inl e) = absurd (cc (ap holder e))
    nothing_new ph i free_now p j (inr e) = absurd (cc (ap holder e))

    just_claimed : (pos i p j : ℕ) → UsedBy (claimed pos i) p j → (j ≡ i) × (some pos ≡ some p)
    just_claimed pos i p j (inl e) = (cc, cc)
    just_claimed pos i p j (inr e) = absurd (cc)

    just_taking : (pos i p j : ℕ) → UsedBy (taking pos i) p j → (j ≡ i) × (some pos ≡ some p)
    just_taking pos i p j (inl e) = absurd (cc)
    just_taking pos i p j (inr e) = (cc, cc)

    Step-Holders : (t : System T) → Step s t → Holders t
    Step-Holders _ (push_start i x at) =
        same_phases s (with_pc i (pushing s.queue.head x) s) i (pushing s.queue.head x) refl hold
          refl (sym (ap held_position at))
    Step-Holders _ (push_look i pos x at) =
        same_phases s (with_pc i (push_seen pos (cell s pos).sequence x) s) i
          (push_seen pos (cell s pos).sequence x) refl hold refl (sym (ap held_position at))
    Step-Holders _ (push_lose i pos sq x at e) =
        same_phases s (with_pc i (pushing s.queue.head x) s) i (pushing s.queue.head x) refl hold
          refl (sym (ap held_position at))
    Step-Holders _ (push_full i pos sq x at e) =
        same_phases s (with_pc i (idle) s) i (idle) refl hold refl (sym (ap held_position at))
    Step-Holders _ (push_again i pos sq x at e) =
        same_phases s (with_pc i (pushing s.queue.head x) s) i (pushing s.queue.head x) refl hold
          refl (sym (ap held_position at))
    Step-Holders _ (push_store i pos x at) =
        same_phases s (store_item i pos x (index s.queue pos) s) i (push_stored pos) refl hold refl
          (sym (ap held_position at))
    Step-Holders _ (pop_start i at) =
        same_phases s (with_pc i (popping s.queue.tail) s) i (popping s.queue.tail) refl hold refl
          (sym (ap held_position at))
    Step-Holders _ (pop_look i pos at) =
        same_phases s (with_pc i (pop_seen pos (cell s pos).sequence) s) i
          (pop_seen pos (cell s pos).sequence) refl hold refl (sym (ap held_position at))
    Step-Holders _ (pop_lose i pos sq at e) =
        same_phases s (with_pc i (popping s.queue.tail) s) i (popping s.queue.tail) refl hold refl
          (sym (ap held_position at))
    Step-Holders _ (pop_empty i pos sq at e) =
        same_phases s (with_pc i (idle) s) i (idle) refl hold refl (sym (ap held_position at))
    Step-Holders _ (pop_again i pos sq at e) =
        same_phases s (with_pc i (popping s.queue.tail) s) i (popping s.queue.tail) refl hold refl
          (sym (ap held_position at))
    Step-Holders _ (pop_take i pos at) =
        same_phases s (take_item i pos (index s.queue pos) s) i (pop_taken pos (cell s pos).value)
          refl hold refl (sym (ap held_position at))
    Step-Holders _ (push_win i pos sq x at e here) =
        one_phase s (claim i pos x (index s.queue pos) s) i (push_won pos x) refl hold
          (index s.queue pos) (claimed pos i) refl (just_claimed pos i)
          (has_none i (push_seen pos sq x) at refl (index s.queue pos))
    Step-Holders _ (push_publish i pos at) =
        one_phase s (publish i pos (index s.queue pos) s) i idle refl hold (index s.queue pos)
          (published pos) refl (nothing_new (published pos) i refl)
          (has_one i pos (push_stored pos) at refl)
    Step-Holders _ (pop_win i pos sq at e here) =
        one_phase s (win_pop i pos (index s.queue pos) s) i (pop_won pos) refl hold
          (index s.queue pos) (taking pos i) refl (just_taking pos i)
          (has_none i (pop_seen pos sq) at refl (index s.queue pos))
    Step-Holders _ (pop_release i pos a at) =
        one_phase s (release i pos (index s.queue pos) s) i idle refl hold (index s.queue pos)
          (free freed) refl (nothing_new (free freed) i refl)
          (has_one i pos (pop_taken pos a) at refl)
      where
        freed : ℕ
        freed = (pos + s.queue.buffer_mask + 1) % word

  pub Reach-Holders :
      (o : System T) → Inv size o → Holders o → (s : System T) → Reach size o s → Holders s
  Reach-Holders o v hold _ start = hold
  Reach-Holders o v hold _ (later {s} {t} r st bound) =
      Step-Holders s (Reach-Inv size o v s r) (Reach-Holders o v hold s r) t st
