-- ===== src/MpscQueue/Concurrent/Touch.antt =====
-- Steps that change one slot: they keep the invariant if they do so at that slot.
use Prim.Native.Nat.{bit_and}
use native.Mathlib.Nat.{add-mod_right}
use native.Mathlib.Decide.{ℕ_discrete, dec_lt}
use logspine.Prelude.{
  ℕ, ◌+◌, ◌%◌, ◌^◌, ◌≤◌, ◌<◌, ◌≡◌, ◌≢◌, ◌⊎◌, inl, inr, sym, ap, subst, ◌∙◌, arith, assign,
}
use logspine.MpscQueue.Concurrent.{Pc, Phase, free, claimed, published, taking, System}
use logspine.MpscQueue.Concurrent.Invariant.{SlotOk, ThreadOk, InFlight, Inv, Frame, threads-frame}

-- A step of thread `i` at slot `k`, which no other thread holds. The head and the tail pass only
-- positions of that slot.
pub record Touch {T : Type 0} (size i k : ℕ) (s t : System T) : Type 0 where
  pub mask_kept : t.queue.buffer_mask ≡ s.queue.buffer_mask
  pub head_up : s.queue.head ≤ t.queue.head
  pub tail_up : s.queue.tail ≤ t.queue.tail
  pub head_only : (p : ℕ) → p % size ≢ k → s.queue.head ≤ p → t.queue.head ≤ p
  pub tail_only : (p : ℕ) → p % size ≢ k → s.queue.tail ≤ p → t.queue.tail ≤ p
  pub buffer_only : (m : ℕ) → m ≢ k → t.queue.buffer m ≡ s.queue.buffer m
  pub phase_only : (m : ℕ) → m ≢ k → t.phase m ≡ s.phase m
  pub log_only : (p : ℕ) → p % size ≢ k → t.log p ≡ s.log p
  pub free_at : (p : ℕ) → s.phase k ≡ free p → p < t.queue.head
  pub published_at : (p : ℕ) → s.phase k ≡ published p → p < t.queue.tail
  pub mine : (p j : ℕ) → (s.phase k ≡ claimed p j) ⊎ (s.phase k ≡ taking p j) → j ≡ i

module _ {T : Type 0} (size i k : ℕ) (s t : System T) (u : Touch size i k s t) where
  Touch-Frame : Frame size i s t
  Touch-Frame = record {
    head_up = u.head_up;
    tail_up = u.tail_up;
    still_free = λ p e. elim (ℕ_discrete (p % size) k) [
      | yes at ↦ inr (u.free_at p (subst (λ m. s.phase m ≡ free p) at e))
      | no ne ↦ inl (u.phase_only (p % size) ne ∙ e)
    ];
    still_published = λ p e. elim (ℕ_discrete (p % size) k) [
      | yes at ↦ inr (u.published_at p (subst (λ m. s.phase m ≡ published p) at e))
      | no ne ↦ inl (u.phase_only (p % size) ne ∙ e)
    ];
    held = λ p j other h. elim (ℕ_discrete (p % size) k) [
      | yes at ↦ absurd (
          other
            (u.mine p j (subst (λ m. (s.phase m ≡ claimed p j) ⊎ (s.phase m ≡ taking p j)) at h)))
      | no ne ↦ (
        u.phase_only (p % size) ne,
        ap (λ c. c.value) (u.buffer_only (p % size) ne),
        u.log_only p ne,
      )
    ];
  }

  -- Another slot stays as it was.
  other_slot : (ph : Phase) (m : ℕ) → m ≢ k → SlotOk size s m ph → SlotOk size t m ph
  other_slot (free p) m ne h = (
    ap (λ c. c.sequence) (u.buffer_only m ne) ∙ h.0,
    h.1,
    u.head_only p (λ e. ne (sym h.1 ∙ e)) h.2,
    omega (arith, u.head_up),
  )
  other_slot (claimed p j) m ne h = (
    ap (λ c. c.sequence) (u.buffer_only m ne) ∙ h.0,
    h.1,
    omega (arith, u.head_up),
    u.head_only (p + size) (λ e. ne (sym h.1 ∙ sym (add-mod_right p size) ∙ e)) h.3,
    u.tail_only p (λ e. ne (sym h.1 ∙ e)) h.4,
  )
  other_slot (published p) m ne h = (
    ap (λ c. c.sequence) (u.buffer_only m ne) ∙ h.0,
    h.1,
    omega (arith, u.head_up),
    u.head_only (p + size) (λ e. ne (sym h.1 ∙ sym (add-mod_right p size) ∙ e)) h.3,
    u.tail_only p (λ e. ne (sym h.1 ∙ e)) h.4,
    ap (λ c. c.value) (u.buffer_only m ne) ∙ h.5 ∙ sym (u.log_only p (λ e. ne (sym h.1 ∙ e))),
  )
  other_slot (taking p j) m ne h = (
    ap (λ c. c.sequence) (u.buffer_only m ne) ∙ h.0,
    h.1,
    omega (arith, u.tail_up),
    u.head_only (p + size) (λ e. ne (sym h.1 ∙ sym (add-mod_right p size) ∙ e)) h.3,
  )

  pub Touch-Inv :
      (p : Pc T)
      → t.pc ≡ assign s.pc i p
      → Inv size s
      → ThreadOk size t i p
      → SlotOk size t k (t.phase k)
      → ((p : ℕ) → p % size ≡ k → t.queue.tail ≤ p → p < t.queue.head → InFlight p (t.phase k))
      → t.queue.tail ≤ t.queue.head
      → t.queue.head + size < 2 ^ 63
      → Inv size t
  Touch-Inv p moved v own slot live ordered small = record {
    indexed = λ p. ap (bit_and p) u.mask_kept ∙ v.indexed p;
    mask = ap (λ m. m + 1) u.mask_kept ∙ v.mask;
    two = v.two;
    small = small;
    ordered = ordered;
    slots = λ m lt. elim (ℕ_discrete m k) [
      | yes at ↦ subst (λ m. SlotOk size t m (t.phase m)) (sym at) slot
      | no ne ↦
          subst (SlotOk size t m) (sym (u.phase_only m ne))
            (other_slot (s.phase m) m ne (v.slots m lt))
    ];
    threads = threads-frame size i s t Touch-Frame p moved v.threads own;
    live = λ p lo hi. elim (ℕ_discrete (p % size) k) [
      | yes at ↦ subst (λ m. InFlight p (t.phase m)) (sym at) (live p at lo hi)
      | no ne ↦
          subst (InFlight p) (sym (u.phase_only (p % size) ne))
            (v.live p (omega (arith, u.tail_up)) (below p ne hi))
    ];
  }
    where
      below : (p : ℕ) → p % size ≢ k → p < t.queue.head → p < s.queue.head
      below p ne hi = elim (dec_lt p s.queue.head) [
        | yes lt ↦ lt
        | no ge ↦ absurd (omega (arith, u.head_only p ne (omega arith)))
      ]
