-- ===== src/AsyncDispatcher/Threads/Dispatches.antt =====
-- The steps of a run, counted: what becomes of the calls of `dispatch` and of the items that callers
-- remove.
use native.Mathlib.Decide.{ℕ_discrete}
use logspine.Prelude.{
  ℕ, ◌+◌, ◌%◌, ◌^◌, ◌<◌, ◌≡◌, refl, ap, ◌==◌, if◌then◌else◌, Bool, true, assign, arith,
}
use logspine.Dispatcher.{SinkClass, bump}
use logspine.AsyncDispatcher.{AsyncDispatcher, QueueItem}
use logspine.AsyncDispatcher.Worker.{safe_write, safe_flush_sinks}
use logspine.AsyncDispatcher.Threads.{
  Pc, idle, choosing, took, request, flush_wait, joining, System,
}
use logspine.AsyncDispatcher.Threads.Steps.{
  Step, Reach, moves, writes, pushes, sheds, flushes, joins, turns, sets, pops, overwrites,
  runs_event, runs_request, finishes, started, start, later,
}
use logspine.AsyncDispatcher.Threads.Balance.{
  under_way, holding, begins, refuses_event, counts_item, queues_event, begins-balance,
  Write-balance, Write-dropped, Set-dropped, Push-balance,
}

-- A number for the steps of some callers.
abbrev weight : (ℕ → Bool) → ℕ → ℕ → ℕ
weight who i n = if who i then n else 0

module _ {S : Type 0} {c : SinkClass S} where
  -- The caller that a step is of; the worker counts as caller 0, and does none of what is counted.
  abbrev actor : {s t : System S} → Step c s t → ℕ
  actor (moves i p q at m) = i
  actor (writes i p q d at w) = i
  actor (pushes i p q item at m room) = i
  actor (sheds i e first rest at o full) = i
  actor (flushes i at) = i
  actor (joins i at e) = i
  actor step = 0

  abbrev begins_call : {s t : System S} → Step c s t → ℕ
  begins_call (moves i p q at m) = begins m
  begins_call step = 0

  abbrev queues_call : {s t : System S} → Step c s t → ℕ
  queues_call (pushes i p q item at m room) = queues_event m
  queues_call step = 0

  abbrev refuses_call : {s t : System S} → Step c s t → ℕ
  refuses_call (writes i p q d at w) = refuses_event w
  refuses_call step = 0

  abbrev removes_item : {s t : System S} → Step c s t → ℕ
  removes_item (sheds i e first rest at o full) = 1
  removes_item step = 0

  abbrev counts_removed : {s t : System S} → Step c s t → ℕ
  counts_removed (writes i p q d at w) = counts_item w
  counts_removed step = 0

module _ {S : Type 0} {c : SinkClass S} (who : ℕ → Bool) where
  -- In a run, for the callers `who`: the calls of `dispatch`, those that queued their event, and those
  -- that were refused; the items that were removed to make room, and of these the counted ones.
  abbrev pub begun : {o s : System S} → Reach c o s → ℕ
  begun start = 0
  begun (later r step below) = begun r + weight who (actor step) (begins_call step)

  abbrev pub queued : {o s : System S} → Reach c o s → ℕ
  queued start = 0
  queued (later r step below) = queued r + weight who (actor step) (queues_call step)

  abbrev pub refused : {o s : System S} → Reach c o s → ℕ
  refused start = 0
  refused (later r step below) = refused r + weight who (actor step) (refuses_call step)

  abbrev pub removed : {o s : System S} → Reach c o s → ℕ
  removed start = 0
  removed (later r step below) = removed r + weight who (actor step) (removes_item step)

  abbrev pub counted : {o s : System S} → Reach c o s → ℕ
  counted start = 0
  counted (later r step below) = counted r + weight who (actor step) (counts_removed step)

abbrev pub only : ℕ → ℕ → Bool
only i j = j == i

abbrev pub everyone : ℕ → Bool
everyone j = true

-- What holds before and after caller `j` goes from `p` to `q`, for the steps of caller `i` only.
Balanced : ℕ → ℕ → Pc → Pc → ℕ → ℕ → ℕ → ℕ → ℕ → Type 0
Balanced i j p q b n r m k =
    (under_way q + weight (only i) j n + weight (only i) j r ≡ under_way p + weight (only i) j b)
    × (holding q + weight (only i) j k ≡ holding p + weight (only i) j m)

-- A step of caller `j` changes what holds of caller `i` only if they are the same.
caller_goes :
    (pc : ℕ → Pc) (i j : ℕ) (p q : Pc) (b n r m k : ℕ)
    → pc j ≡ p
    → under_way q + n + r ≡ under_way p + b
    → holding q + k ≡ holding p + m
    → Balanced i j (pc i) (assign pc j q i) b n r m k
unfolding Balanced
caller_goes pc i j p q b n r m k at e h = elim (ℕ_discrete j i) [
  | yes same ↦ (
    ground (arith, e, ap under_way at, ap (λ x. under_way (pc x)) same),
    ground (arith, h, ap holding at, ap (λ x. holding (pc x)) same),
  )
  | no ne ↦ (ground arith, ground arith)
]

worker_goes : (i : ℕ) (p : Pc) → Balanced i 0 p p 0 0 0 0 0
unfolding Balanced
worker_goes i p = (ground arith, ground arith)

module _ {S : Type 0} {c : SinkClass S} where
  -- For one caller.
  Step-Balanced :
      (i : ℕ) {s t : System S} (step : Step c s t)
      → Balanced i
          (actor step)
          (s.pc i)
          (t.pc i)
          (begins_call step)
          (queues_call step)
          (refuses_call step)
          (removes_item step)
          (counts_removed step)
  Step-Balanced i {s} (moves j p q at m) =
      caller_goes s.pc i j p q (begins m) 0 0 0 0 at (omega (arith, (begins-balance m).0))
        (omega (arith, (begins-balance m).1))
  Step-Balanced i {s} (writes j p q d at w) =
      caller_goes s.pc i j p q 0 0 (refuses_event w) 0 (counts_item w) at
        (omega (arith, (Write-balance w).0)) (omega (arith, (Write-balance w).1))
  Step-Balanced i {s} (pushes j p q item at m room) =
      caller_goes s.pc i j p q 0 (queues_event m) 0 0 0 at (omega (arith, (Push-balance m).0))
        (omega (arith, (Push-balance m).1))
  Step-Balanced i {s} (sheds j e first rest at o full) =
      caller_goes s.pc i j (choosing e) (took first e) 0 0 0 1 0 at refl refl
  Step-Balanced i {s} (flushes j at) =
      caller_goes s.pc i j idle (request (bump s.shared.next_flush_id) flush_wait) 0 0 0 0 0 at refl
        refl
  Step-Balanced i {s} (joins j at e) = caller_goes s.pc i j joining idle 0 0 0 0 0 at refl refl
  Step-Balanced i {s} (turns w v at m) = worker_goes i (s.pc i)
  Step-Balanced i {s} (sets w v d at m) = worker_goes i (s.pc i)
  Step-Balanced i {s} (pops w v first rest at m full) = worker_goes i (s.pc i)
  Step-Balanced i {s} (overwrites p at on) = worker_goes i (s.pc i)
  Step-Balanced i {s} (runs_event p batch e at l) = worker_goes i (s.pc i)
  Step-Balanced i {s} (runs_request p batch id at l) = worker_goes i (s.pc i)
  Step-Balanced i {s} (finishes at) = worker_goes i (s.pc i)

  -- For the counter.
  Step-dropped :
      {s t : System S} (step : Step c s t)
      → s.shared.dropped < 2 ^ 64
      → t.shared.dropped ≡ (s.shared.dropped + refuses_call step + counts_removed step) % 2 ^ 64
  unfolding safe_write safe_flush_sinks
  Step-dropped (moves j p q at m) h = omega arith
  Step-dropped (writes j p q d at w) h = Write-dropped w h
  Step-dropped (pushes j p q item at m room) h = omega arith
  Step-dropped (sheds j e first rest at o full) h = omega arith
  Step-dropped (flushes j at) h = omega arith
  Step-dropped (joins j at e) h = omega arith
  Step-dropped (turns w v at m) h = omega arith
  Step-dropped (sets w v d at m) h = omega (arith, Set-dropped m)
  Step-dropped (pops w v first rest at m full) h = omega arith
  Step-dropped (overwrites p at on) h = omega arith
  Step-dropped (runs_event p batch e at l) h = omega arith
  Step-dropped (runs_request p batch id at l) h = omega arith
  Step-dropped (finishes at) h = omega arith

  Reach-dropped :
      {o s : System S} (r : Reach c o s)
      → o.shared.dropped < 2 ^ 64
      → s.shared.dropped ≡ (o.shared.dropped + refused everyone r + counted everyone r) % 2 ^ 64
  Reach-dropped start h = omega arith
  Reach-dropped (later r step below) h =
      omega (arith, Reach-dropped r h, Step-dropped step (omega (arith, Reach-dropped r h)))

  -- Whatever the callers and the worker do, and in whatever order, from a dispatcher before any call,
  -- while the ids of flushes stay below 2 ^ 64 - 1: of the calls of `dispatch` that a caller has begun,
  -- each has queued its event or was refused, but for the one that is under way; of the items it has
  -- removed to make room, each is counted, but for the one it is about to count; and the counter of
  -- dropped events, which starts below 2 ^ 64, has grown by the refusals and these counts of all
  -- callers, modulo 2 ^ 64.
  pub dispatches_accounted :
      (fresh : QueueItem) (d : AsyncDispatcher S) (i : ℕ) {s : System S}
      (r : Reach c (started fresh d) s)
      → d.dropped < 2 ^ 64
      → (begun (only i) r ≡ queued (only i) r + refused (only i) r + under_way (s.pc i))
        × (removed (only i) r ≡ counted (only i) r + holding (s.pc i))
        × (s.shared.dropped ≡ (d.dropped + refused everyone r + counted everyone r) % 2 ^ 64)
  unfolding Balanced
  dispatches_accounted fresh d i start h = (omega arith, omega arith, omega arith)
  dispatches_accounted fresh d i (later r step below) h =
      let before = dispatches_accounted fresh d i r h in
      let now = Step-Balanced i step in
      (
        omega (arith, before.0, now.0),
        omega (arith, before.1, now.1),
        Reach-dropped (later r step below) h,
      )
