-- ===== src/AsyncDispatcher/Threads/Covers.antt =====
-- What becomes of the items that callers queue, and what a flush that returns has waited for.
use native.Mathlib.Decide.{dec_lt}
use mathlib.Core.List.{Mem}
use logspine.Prelude.{
  length, ℕ, ◌+◌, ◌^◌, ◌≤◌, ◌<◌, ◌≡◌, ◌≢◌, ◌⊎◌, inl, inr, refl, subst, ◌∙◌, true, false, some, List,
  [], arith, assign_self, assign_ne,
}
use logspine.Dispatcher.{SinkClass, bump}
use logspine.AsyncDispatcher.{
  AsyncDispatcher, AsyncOptions, QueueItem, flush_request, drop_oldest, async_dispatcher,
}
use logspine.AsyncDispatcher.Worker.{safe_write, safe_flush_sinks}
use logspine.AsyncDispatcher.Threads.Kept.{Write-Kept, Set-Kept}
use logspine.AsyncDispatcher.Threads.{
  System, Fate, in_hand, processed, overwritten, shed, idle, held, begin_flush,
}
use logspine.AsyncDispatcher.Threads.Steps.{
  started, Step, Reach, moves, writes, pushes, sheds, flushes, joins, turns, sets, pops, overwrites,
  runs_event, runs_request, finishes, start, later,
}
use logspine.AsyncDispatcher.Threads.Queue.{length-Window, Reach-InQueue}
use logspine.AsyncDispatcher.Threads.Order.{InOrder, Held-Mem, Reach-InOrder}
use logspine.AsyncDispatcher.Threads.Callers.{both}
use logspine.AsyncDispatcher.Threads.Marks.{bump-suc, InMarks, Reach-InMarks}
use logspine.AsyncDispatcher.Threads.Flush.{Reach-Flushed}
use logspine.AsyncDispatcher.Threads.Sources.{NoneOrSource, Reach-Sourced}

-- A dispatcher as it is constructed.
pub record Constructed {S : Type 0} (d : AsyncDispatcher S) : Type 0 where
  pub queue : d.queue ≡ []
  pub next_flush_id : d.next_flush_id ≡ 0
  pub completed_flush_id : d.completed_flush_id ≡ 0

pub async_dispatcher-Constructed :
    {S : Type 0} (sinks : List ℕ) (store : ℕ → S) (options : AsyncOptions) (d : AsyncDispatcher S)
    → async_dispatcher sinks store options ≡ some d
    → Constructed d
unfolding async_dispatcher
async_dispatcher-Constructed sinks store options d h = ground arith

module _ {S : Type 0} {c : SinkClass S} where
  Reach-Reach : {o s t : System S} → Reach c o s → Reach c s t → Reach c o t
  Reach-Reach r start = r
  Reach-Reach r (later q step below) = later (Reach-Reach r q) step below

  -- A mark stays once its id has been given.
  Step-mark :
      {s t : System S}
      → Step c s t
      → s.shared.next_flush_id + 1 < 2 ^ 64
      → (id : ℕ) → id ≤ s.shared.next_flush_id
      → (id ≤ t.shared.next_flush_id) × (t.mark id ≡ s.mark id)
  unfolding safe_write safe_flush_sinks
  Step-mark (moves i p q at m) b id l = (l, refl)
  Step-mark (writes i p q d at w) b id l = (omega (arith, l, (Write-Kept w).next_flush_id), refl)
  Step-mark (pushes i p q item at m room) b id l = (l, refl)
  Step-mark (sheds i e first rest at o full) b id l = (l, refl)
  Step-mark {s = s} (flushes i at) b id l = (
    omega (arith, l, bump-suc s.shared.next_flush_id b),
    assign_ne s.mark _ s.head id (λ x. omega (arith, x, l, bump-suc s.shared.next_flush_id b)),
  )
  Step-mark (joins i at e) b id l = (l, refl)
  Step-mark (turns w v at m) b id l = (l, refl)
  Step-mark (sets w v d at m) b id l = (omega (arith, l, (Set-Kept m).next_flush_id), refl)
  Step-mark (pops w v first rest at m full) b id l = (l, refl)
  Step-mark (overwrites p at on) b id l = (l, refl)
  Step-mark (runs_event p batch e at k) b id l = (l, refl)
  Step-mark (runs_request p batch k at e) b id l = (l, refl)
  Step-mark (finishes at) b id l = (l, refl)

  Reach-mark :
      {s t : System S}
      → s.shared.next_flush_id + 1 < 2 ^ 64
      → Reach c s t
      → (t.shared.next_flush_id + 1 < 2 ^ 64)
        × ((id : ℕ)
            → id ≤ s.shared.next_flush_id
            → (id ≤ t.shared.next_flush_id) × (t.mark id ≡ s.mark id))
  Reach-mark b start = (b, λ id l. (l, refl))
  Reach-mark b (later r step below) =
      let before = Reach-mark b r in
      (
        below,
        λ id l.
            let now = Step-mark step before.0 id (before.1 id l).0 in
            (now.0, now.1 ∙ (before.1 id l).1),
      )

Fate-cases : (f : Fate) → (f ≡ in_hand) ⊎ ((f ≡ processed) ⊎ ((f ≡ overwritten) ⊎ (f ≡ shed)))
Fate-cases in_hand = inl refl
Fate-cases processed = inr (inl refl)
Fate-cases overwritten = inr (inr (inl refl))
Fate-cases shed = inr (inr (inr refl))

-- While the dispatcher is not stopping, what the worker is through with has been processed.
settled-Mem :
    {S : Type 0} (s : System S)
    → InOrder s
    → s.shared.stopping ≡ false
    → (p : ℕ) → s.fate p ≢ in_hand
    → Mem p s.done ⊎ ((s.fate p ≡ shed) × (s.shared.options.overflow ≡ drop_oldest))
settled-Mem s o off p settled = elim (Fate-cases (s.fate p)) [
  | inl e ↦ absurd (settled e)
  | inr (inl e) ↦ inl (o.processed_done p e)
  | inr (inr (inl e)) ↦ absurd (both (o.overwritten_stopping p e) off)
  | inr (inr (inr e)) ↦ inr (e, o.shed_oldest p e)
]

-- The request behind `completed_flush_id_` was pushed after what it waits for.
request_behind :
    {S : Type 0} (s : System S) (n : ℕ)
    → s.tail + length s.shared.queue ≡ s.head
    → InMarks s
    → n ≤ s.mark s.shared.completed_flush_id
    → 0 < s.shared.completed_flush_id
    → NoneOrSource s.tail s.log s.done s.shared.completed_flush_id
    → (q : ℕ) × (n ≤ q) × Mem q s.done × (s.log q ≡ flush_request s.shared.completed_flush_id)
request_behind s n l marks reached some_id (inl none_yet) = absurd (omega arith)
request_behind s n l marks reached some_id (inr (q, out, m, e)) = (
  q,
  omega
      (arith, reached, (marks.requests q s.shared.completed_flush_id (omega (arith, l, out)) e).1),
  m,
  e,
)

bump_positive : (n : ℕ) {m : ℕ} → n + 2 < 2 ^ 64 → bump n ≤ m → 0 < m
bump_positive n h l = omega arith

bump_below : (n : ℕ) → n + 2 < 2 ^ 64 → bump n + 1 < 2 ^ 64
bump_below n h = omega arith

module _ {S : Type 0} (c : SinkClass S) (fresh : QueueItem) (d : AsyncDispatcher S) where
  -- Whatever the callers and the worker do, and in whatever order, while the ids of flushes stay
  -- below 2 ^ 64 - 1: each item that has been queued is in the queue, in the hands of the worker,
  -- among those it has processed, overwritten by the worker of a dispatcher that has been told to
  -- stop, or removed to make room under `drop_oldest`.
  pub accounts :
      {s : System S}
      → Reach c (started fresh d) s
      → (p : ℕ) → p < s.head
      → (s.tail ≤ p)
        ⊎ (Mem p (held s.worker)
            ⊎ (Mem p s.done
                ⊎ (((s.fate p ≡ overwritten) × (s.shared.stopping ≡ true))
                    ⊎ ((s.fate p ≡ shed) × (s.shared.options.overflow ≡ drop_oldest)))))
  accounts {s} r p l =
      let o = Reach-InOrder c fresh d r in
      elim (dec_lt p s.tail) [
        | no beyond ↦ inl (omega arith)
        | yes out ↦ elim (Fate-cases (s.fate p)) [
          | inl e ↦
              inr (
                inl (Held-Mem s.tail s.fate 0 (held s.worker) o.ordered.hand p (omega arith) out e))
          | inr (inl e) ↦ inr (inr (inl (o.processed_done p e)))
          | inr (inr (inl e)) ↦ inr (inr (inr (inl (e, o.overwritten_stopping p e))))
          | inr (inr (inr e)) ↦ inr (inr (inr (inr (e, o.shed_oldest p e))))
        ]
      ]

module _ {S : Type 0} (c : SinkClass S) (fresh : QueueItem) (sinks : List ℕ) (store : ℕ → S)
    (options : AsyncOptions) (d : AsyncDispatcher S) where
  -- From a constructed dispatcher, with any interleaving of the callers and the worker while the ids
  -- of flushes stay below 2 ^ 64 - 1: if a flush gets its id in a state `s`, then in each later state
  -- in which the dispatcher has not been told to stop and `completed_flush_id_` is no less than this
  -- id, which is when the wait of the flush ends, every item that was queued before `s` has been
  -- processed, or removed under `drop_oldest`, and the worker has processed a flush request that was
  -- queued after all of them.
  pub flush_covers :
      (i : ℕ) {s t : System S}
      → async_dispatcher sinks store options ≡ some d
      → Reach c (started fresh d) s
      → s.pc i ≡ idle
      → s.shared.next_flush_id + 2 < 2 ^ 64
      → Reach c (begin_flush i s) t
      → t.shared.stopping ≡ false
      → bump s.shared.next_flush_id ≤ t.shared.completed_flush_id
      → ((p : ℕ)
          → p < s.head
          → Mem p t.done ⊎ ((t.fate p ≡ shed) × (t.shared.options.overflow ≡ drop_oldest)))
        × ((q : ℕ) × (s.head ≤ q)
            × Mem q t.done
            × (t.log q ≡ flush_request t.shared.completed_flush_id))
  flush_covers i {s} {t} new r at b q off returns =
      let n = async_dispatcher-Constructed sinks store options d new in
      let id = bump s.shared.next_flush_id in
      let given = bump_below s.shared.next_flush_id b in
      let all = Reach-Reach (later r (flushes i at) given) q in
      let kept = (Reach-mark given q).1 id (omega arith) in
      let waited =
        (Reach-Flushed c fresh d n.queue n.next_flush_id n.completed_flush_id all).completed_waited
          off in
      let marks = Reach-InMarks c fresh d n.queue n.next_flush_id all in
      let reached =
        subst (λ m. m ≤ t.mark t.shared.completed_flush_id)
          (kept.1 ∙ assign_self s.mark id s.head id refl)
          (marks.ascending id t.shared.completed_flush_id returns waited.0) in
      let in_queue = Reach-InQueue c fresh d n.queue all in
      (
        λ p l.
            settled-Mem t (Reach-InOrder c fresh d all) off p
              (waited.1 p (omega (arith, l, reached))).1,
        request_behind t s.head (length-Window t.log t.tail t.shared.queue t.head in_queue.window)
            marks reached (bump_positive s.shared.next_flush_id b returns)
            ((Reach-Sourced c fresh d n.queue n.next_flush_id n.completed_flush_id
                all).completed_done
              off),
      )
