-- ===== src/MpscQueue/Concurrent/Order.antt =====
-- What a pop takes, and that each position is won once.
use native.Mathlib.Decide.{dec_lt}
use logspine.Prelude.{
  ℕ, ◌%◌, ◌^◌, ◌≤◌, ◌<◌, ◌≡◌, refl, ap, ◌∙◌, Option, some, [], arith, assign_self, assign_ne,
}
use logspine.MpscQueue.{MpscQueue}
use logspine.MpscQueue.Holds.{Holds}
use logspine.MpscQueue.Concurrent.{
  push_won, pop_won, pop_taken, claimed, taking, System, Step, push_start, push_look, push_win,
  push_lose, push_full, push_again, push_store, push_publish, pop_start, pop_look, pop_win,
  pop_lose, pop_empty, pop_again, pop_take, pop_release, started, Reach, start, later,
}
use logspine.MpscQueue.Concurrent.Invariant.{SlotOk, ThreadOk, Inv}
use logspine.MpscQueue.Concurrent.Push.{own_thread, own_slot}
use logspine.MpscQueue.Concurrent.Safety.{Reach-Inv, started-Inv, reached-Inv}

-- Head and tail only move on, and the item of a position that was won stays.
abbrev Advances : {T : Type 0} → System T → System T → Type 0
Advances s t =
    (s.queue.head ≤ t.queue.head)
    × (s.queue.tail ≤ t.queue.tail)
    × ((p : ℕ) → p < s.queue.head → t.log p ≡ s.log p)

module _ {T : Type 0} (size : ℕ) where
  Step-Advances : (s : System T) → Inv size s → (t : System T) → Step s t → Advances s t
  Step-Advances s v _ (push_start i x at) = (omega arith, omega arith, λ p lt. refl)
  Step-Advances s v _ (push_look i pos x at) = (omega arith, omega arith, λ p lt. refl)
  Step-Advances s v _ (push_win i pos sq x at e here) = (
    omega (arith, v.small),
    omega arith,
    λ p lt. assign_ne s.log pos (some x) p (λ same. omega arith),
  )
  Step-Advances s v _ (push_lose i pos sq x at e) = (omega arith, omega arith, λ p lt. refl)
  Step-Advances s v _ (push_full i pos sq x at e) = (omega arith, omega arith, λ p lt. refl)
  Step-Advances s v _ (push_again i pos sq x at e) = (omega arith, omega arith, λ p lt. refl)
  Step-Advances s v _ (push_store i pos x at) = (omega arith, omega arith, λ p lt. refl)
  Step-Advances s v _ (push_publish i pos at) = (omega arith, omega arith, λ p lt. refl)
  Step-Advances s v _ (pop_start i at) = (omega arith, omega arith, λ p lt. refl)
  Step-Advances s v _ (pop_look i pos at) = (omega arith, omega arith, λ p lt. refl)
  Step-Advances s v _ (pop_win i pos sq at e here) =
      (omega arith, omega (arith, v.small, v.ordered), λ p lt. refl)
  Step-Advances s v _ (pop_lose i pos sq at e) = (omega arith, omega arith, λ p lt. refl)
  Step-Advances s v _ (pop_empty i pos sq at e) = (omega arith, omega arith, λ p lt. refl)
  Step-Advances s v _ (pop_again i pos sq at e) = (omega arith, omega arith, λ p lt. refl)
  Step-Advances s v _ (pop_take i pos at) = (omega arith, omega arith, λ p lt. refl)
  Step-Advances s v _ (pop_release i pos a at) = (omega arith, omega arith, λ p lt. refl)

  Reach-Advances : (o : System T) → Inv size o → (t : System T) → Reach size o t → Advances o t
  Reach-Advances o v _ start = (omega arith, omega arith, λ p lt. refl)
  Reach-Advances o v _ (later {s} {t} r st bound) =
      let a = Reach-Advances o v s r in
      let b = Step-Advances s (Reach-Inv size o v s r) t st in
      (
        omega (arith, a.0, b.0),
        omega (arith, a.1, b.1),
        λ p lt. b.2 p (omega (arith, a.0)) ∙ a.2 p lt,
      )

  -- Only a push that wins a position moves the head.
  new_head :
      (s : System T) (v : Inv size s) (t : System T)
      → Step s t
      → (p : ℕ) → s.queue.head ≤ p
      → p < t.queue.head
      → (x : T) × (j : ℕ) × (t.pc j ≡ push_won p x) × (t.log p ≡ some x)
  new_head s v _ (push_start i x at) p lo hi = absurd (omega arith)
  new_head s v _ (push_look i pos x at) p lo hi = absurd (omega arith)
  new_head s v _ (push_win i pos sq x at e here) p lo hi = (
    x,
    i,
    assign_self s.pc i (push_won pos x) i refl ∙ ap (λ m. push_won m x) first,
    assign_self s.log pos (some x) p first,
  )
    where
      first : pos ≡ p
      first = omega (arith, v.small)
  new_head s v _ (push_lose i pos sq x at e) p lo hi = absurd (omega arith)
  new_head s v _ (push_full i pos sq x at e) p lo hi = absurd (omega arith)
  new_head s v _ (push_again i pos sq x at e) p lo hi = absurd (omega arith)
  new_head s v _ (push_store i pos x at) p lo hi = absurd (omega arith)
  new_head s v _ (push_publish i pos at) p lo hi = absurd (omega arith)
  new_head s v _ (pop_start i at) p lo hi = absurd (omega arith)
  new_head s v _ (pop_look i pos at) p lo hi = absurd (omega arith)
  new_head s v _ (pop_win i pos sq at e here) p lo hi = absurd (omega arith)
  new_head s v _ (pop_lose i pos sq at e) p lo hi = absurd (omega arith)
  new_head s v _ (pop_empty i pos sq at e) p lo hi = absurd (omega arith)
  new_head s v _ (pop_again i pos sq at e) p lo hi = absurd (omega arith)
  new_head s v _ (pop_take i pos at) p lo hi = absurd (omega arith)
  new_head s v _ (pop_release i pos a at) p lo hi = absurd (omega arith)

  -- The state in which the push of a position had just won it, on the way from `o` to `s`.
  abbrev pub Origin : System T → System T → ℕ → Type 0
  Origin o s p =
      (x : T) × (j : ℕ) × (u : System T) × (Reach size o u)
      × (Reach size u s)
      × (u.pc j ≡ push_won p x)
      × (s.log p ≡ some x)

  pub all_pushed :
      (o : System T)
      → Inv size o
      → o.queue.head ≡ 0
      → (s : System T) → Reach size o s
      → (p : ℕ) → p < s.queue.head
      → Origin o s p
  all_pushed o v zeroed _ start p lt = absurd (omega arith)
  all_pushed o v zeroed _ (later {s} {t} r st bound) p lt = elim (dec_lt p s.queue.head) [
    | yes before ↦
        let (x, j, u, ou, us, won, logged) = all_pushed o v zeroed s r p before in
        let a = Step-Advances s (Reach-Inv size o v s r) t st in
        (x, j, u, ou, later us st bound, won, a.2 p before ∙ logged)
    | no after ↦
        let (x, j, won, logged) = new_head s (Reach-Inv size o v s r) t st p (omega arith) lt in
        (x, j, t, later r st bound, start, won, logged)
  ]

  module _ (q : MpscQueue T) (two : 2 ≤ size) (h : Holds size q []) (zeroed : q.head ≡ 0)
      (fits : size < 2 ^ 63) (s : System T) (r : Reach size (started q) s) where
    -- Pushes and pops of any threads, their shared accesses interleaved in any order, on a new queue
    -- of a capacity of at least 2 while the positions stay below 2 ^ 63: if a push has won a position
    -- with an item, then a pop that later takes from that position takes that item.
    pub takes_pushed :
        (j pos : ℕ) (x : T)
        → s.pc j ≡ push_won pos x
        → (t : System T) → Reach size s t
        → (i : ℕ) (v : Option T) → t.pc i ≡ pop_taken pos v
        → v ≡ some x
    takes_pushed j pos x won t later_on i v taken =
        (own_thread size t (Reach-Inv size s inv t later_on) i (pop_taken pos v) taken).1
        ∙ (Reach-Advances s inv t later_on).2 pos slot.2
        ∙ holds.1
      where
        inv : Inv size s
        inv = reached-Inv size q two h zeroed fits s r

        holds : ThreadOk size s j (push_won pos x)
        holds = own_thread size s inv j (push_won pos x) won

        slot : SlotOk size s (pos % size) (claimed pos j)
        slot = own_slot size s inv pos (claimed pos j) holds.0

    -- Pushes and pops of any threads, their shared accesses interleaved in any order, on a new queue
    -- of a capacity of at least 2 while the positions stay below 2 ^ 63: what a pop takes is an item,
    -- and on the way to the state where it took it there is a state in which a push has just won the
    -- same position with this item.
    pub taken_was_pushed :
        (i pos : ℕ) (v : Option T)
        → s.pc i ≡ pop_taken pos v
        → (x : T) × (v ≡ some x)
          × ((j : ℕ) × (u : System T) × (Reach size (started q) u)
              × (Reach size u s)
              × (u.pc j ≡ push_won pos x))
    taken_was_pushed i pos v taken =
        let (x, j, u, ou, us, won, logged) =
          all_pushed (started q) (started-Inv size q two h zeroed fits) zeroed s r pos
            (omega (arith, slot.2, inv.ordered)) in
        (x, holds.1 ∙ logged, (j, u, ou, us, won))
      where
        inv : Inv size s
        inv = reached-Inv size q two h zeroed fits s r

        holds : ThreadOk size s i (pop_taken pos v)
        holds = own_thread size s inv i (pop_taken pos v) taken

        slot : SlotOk size s (pos % size) (taking pos i)
        slot = own_slot size s inv pos (taking pos i) holds.0

    -- Once a pop has won a position, the tail is past it in every later state, so that no other pop
    -- wins it.
    popped_once :
        (i pos : ℕ) → s.pc i ≡ pop_won pos → (t : System T) → Reach size s t → pos < t.queue.tail
    popped_once i pos won t later_on = omega (arith, slot.2, (Reach-Advances s inv t later_on).1)
      where
        inv : Inv size s
        inv = reached-Inv size q two h zeroed fits s r

        slot : SlotOk size s (pos % size) (taking pos i)
        slot = own_slot size s inv pos (taking pos i) (own_thread size s inv i (pop_won pos) won).0
