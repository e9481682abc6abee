-- ===== src/AsyncDispatcher/Threads/Replay.antt =====
-- The sinks under the interleaved dispatcher against those under the synchronous one.
use logspine.Prelude.{ℕ, ◌≤◌, ◌≡◌, refl, sym, ap, ap₂, ◌∙◌, List, [], ◌∷◌, assign, assign_ne, arith}
use logspine.Dispatcher.{SinkClass}
use logspine.SyncDispatcher.{SyncDispatcher}
use logspine.SyncDispatcher
use logspine.AsyncDispatcher.{AsyncDispatcher, QueueItem, event, flush_request}
use logspine.AsyncDispatcher.Worker.{safe_write, safe_flush_sinks}
use logspine.AsyncDispatcher.Same.{as_sync}
use logspine.AsyncDispatcher.Threads.Kept.{Write-Kept, Set-Kept}
use logspine.AsyncDispatcher.Threads.{
  System, WorkerPc, deciding, draining, ended, running, finishing, held,
}
use logspine.AsyncDispatcher.Threads.Steps.{
  started, Set, Turn, Pop, Step, Reach, moves, writes, pushes, sheds, flushes, joins, turns, sets,
  pops, overwrites, runs_event, runs_request, finishes, start, later, falls_asleep, wakes_up,
  completes, sees_stopping, sees_running, finds_nothing, finds_nothing_again, looks_stopping, waits,
  decides_to_drain, decides_to_fill, drained, drained_all, filled, batch_done, takes, takes_again,
  drains, drains_last, fills,
}
use logspine.AsyncDispatcher.Threads.Queue.{InQueue, length-Window, Reach-InQueue}
use logspine.AsyncDispatcher.Threads.Hand.{front, front-Held}
use logspine.AsyncDispatcher.Threads.Ordered.{Descending, Descending-widen}
use logspine.AsyncDispatcher.Threads.Order.{InOrder, Reach-InOrder}

module _ {S : Type 0} (c : SinkClass S) where
  -- The call of the synchronous dispatcher for an item.
  unfoldable pub call_for : QueueItem → SyncDispatcher S → SyncDispatcher S
  call_for (event e) d = SyncDispatcher.dispatch c e d
  call_for (flush_request id) d = SyncDispatcher.flush c d

  -- The calls for the items of the positions, of which the last comes first.
  unfoldable pub replay : (ℕ → QueueItem) → List ℕ → SyncDispatcher S → SyncDispatcher S
  unfolding call_for
  replay log [] d = d
  replay log (p ∷ done) d = call_for (log p) (replay log done d)

  -- The worker ends with a flush.
  unfoldable pub last_flush : WorkerPc → SyncDispatcher S → SyncDispatcher S
  last_flush ended d = SyncDispatcher.flush c d
  last_flush w d = d

  -- What is pushed later does not count.
  replay-assign :
      (log : ℕ → QueueItem) (head : ℕ) (item : QueueItem) (done : List ℕ) (bound : ℕ)
      (d : SyncDispatcher S)
      → Descending done bound
      → bound ≤ head
      → replay (assign log head item) done d ≡ replay log done d
  unfolding replay
  replay-assign log head item [] bound d h l = refl
  replay-assign log head item (p ∷ done) bound d h l =
      ap₂ call_for (assign_ne log head item p (λ e. omega (arith, h.0)))
        (replay-assign log head item done p d h.1 (omega (arith, h.0)))

  module _ (o : SyncDispatcher S) where
    Turn-active :
        {d : AsyncDispatcher S} {w v : WorkerPc} → Turn d w v → last_flush w o ≡ last_flush v o
    unfolding last_flush
    Turn-active (sees_stopping h) = refl
    Turn-active (sees_running h) = refl
    Turn-active finds_nothing = refl
    Turn-active finds_nothing_again = refl
    Turn-active (looks_stopping h) = refl
    Turn-active (waits h) = refl
    Turn-active (decides_to_drain h) = refl
    Turn-active (decides_to_fill p h) = refl
    Turn-active (drained p batch) = refl
    Turn-active drained_all = refl
    Turn-active (filled batch) = refl
    Turn-active batch_done = refl

    Set-active :
        {d d' : AsyncDispatcher S} {w v : WorkerPc} → Set d w d' v → last_flush w o ≡ last_flush v o
    unfolding last_flush
    Set-active falls_asleep = refl
    Set-active (wakes_up p) = refl
    Set-active (completes id batch) = refl

    Pop-active : {size p : ℕ} {w v : WorkerPc} → Pop size p w v → last_flush w o ≡ last_flush v o
    unfolding last_flush
    Pop-active takes = refl
    Pop-active takes_again = refl
    Pop-active (drains batch h) = refl
    Pop-active (drains_last batch h) = refl
    Pop-active (fills batch h) = refl

  -- What the sinks have been through.
  abbrev pub Replayed : SyncDispatcher S → System S → Type 0
  Replayed o s = as_sync s.shared ≡ last_flush s.worker (replay s.log s.done o)

  module _ (o : SyncDispatcher S) where
    work_at-Replayed :
        (s : System S) (w v : WorkerPc)
        → s.worker ≡ w
        → last_flush w (replay s.log s.done o) ≡ last_flush v (replay s.log s.done o)
        → Replayed o s
        → as_sync s.shared ≡ last_flush v (replay s.log s.done o)
    work_at-Replayed s w v at same h = h ∙ ap (λ u. last_flush u (replay s.log s.done o)) at ∙ same

    pub Step-Replayed :
        {capacity : ℕ} {s t : System S}
        → Step c s t
        → InQueue capacity s
        → InOrder s
        → Replayed o s
        → Replayed o t
    unfolding safe_write safe_flush_sinks call_for replay last_flush SyncDispatcher.dispatch
        SyncDispatcher.flush
    Step-Replayed (moves i p q at m) j k h = h
    Step-Replayed (writes i p q d at w) j k h = (Write-Kept w).synced ∙ h
    Step-Replayed {s = s} (pushes i p q item at m room) j k h =
        h
        ∙ ap (last_flush s.worker) (
            sym (
              replay-assign s.log s.head item s.done (front s.tail (held s.worker)) o
                k.ordered.order
                (omega (
                  arith,
                  front-Held s.tail s.fate 0 (held s.worker) k.ordered.hand,
                  length-Window s.log s.tail s.shared.queue s.head j.window,
                ))))
    Step-Replayed (sheds i e first rest at o full) j k h = h
    Step-Replayed (flushes i at) j k h = h
    Step-Replayed (joins i at e) j k h = h
    Step-Replayed {s = s} (turns w v at m) j k h = work_at-Replayed s w v at (Turn-active _ m) h
    Step-Replayed {s = s} (sets w v d at m) j k h =
        (Set-Kept m).synced ∙ work_at-Replayed s w v at (Set-active _ m) h
    Step-Replayed {s = s} (pops w v first rest at m full) j k h =
        work_at-Replayed s w v at (Pop-active _ m) h
    Step-Replayed {s = s} (overwrites p at on) j k h =
        work_at-Replayed s (deciding (p ∷ [])) (draining []) at refl h
    Step-Replayed {s = s} (runs_event p batch e at l) j k h =
        ap (SyncDispatcher.dispatch c e)
          (work_at-Replayed s (running (p ∷ batch)) (running (p ∷ batch)) at refl h)
        ∙ ap (λ item. call_for item (replay s.log s.done o)) (sym l)
    Step-Replayed {s = s} (runs_request p batch id at l) j k h =
        ap (SyncDispatcher.flush c)
          (work_at-Replayed s (running (p ∷ batch)) (running (p ∷ batch)) at refl h)
        ∙ ap (λ item. call_for item (replay s.log s.done o)) (sym l)
    Step-Replayed {s = s} (finishes at) j k h =
        ap (SyncDispatcher.flush c) (work_at-Replayed s finishing finishing at refl h)

  -- Whatever the callers and the worker do, and in whatever order, starting from a dispatcher with
  -- an empty queue, while the ids of flushes stay below 2 ^ 64 - 1: the items that the worker has
  -- processed stand in the order of their pushes, each at most once, and what the sinks and the count
  -- of their failures are is what a synchronous dispatcher makes of them that is called for these
  -- items in this order, and to flush at last once the worker has ended.
  pub Reach-Replayed :
      (fresh : QueueItem) (d : AsyncDispatcher S) {s : System S}
      → d.queue ≡ []
      → Reach c (started fresh d) s
      → Descending s.done s.tail
        × (as_sync s.shared ≡ last_flush s.worker (replay s.log s.done (as_sync d)))
  unfolding replay last_flush
  Reach-Replayed fresh d {s} empty r =
      let o = Reach-InOrder c fresh d r in
      (
        Descending-widen _ _ _ (front-Held _ _ 0 (held s.worker) o.ordered.hand) o.ordered.order,
        replayed r,
      )
    where
      replayed : {s : System S} → Reach c (started fresh d) s → Replayed (as_sync d) s
      replayed start = refl
      replayed (later r step below) =
          Step-Replayed (as_sync d) step (Reach-InQueue c fresh d empty r)
            (Reach-InOrder c fresh d r) (replayed r)
