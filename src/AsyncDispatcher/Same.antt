-- ===== src/AsyncDispatcher/Same.antt =====
-- The asynchronous dispatcher against the synchronous one.
use logspine.Prelude.{suc, ◌≤◌, ◌≡◌, refl, ap, true, some, List, [], ◌∷◌, length, replicate}
use logspine.Dispatcher.{SinkClass}
use logspine.SyncDispatcher.{SyncDispatcher}
use logspine.SyncDispatcher
use logspine.AsyncDispatcher.{AsyncDispatcher, QueueItem, event, flush_request, with_queue}
use logspine.AsyncDispatcher.Worker.{safe_flush_sinks, process, process_all, worker_loop}
use logspine.AsyncDispatcher.Drain.{quiet, worker_loop_drains}

-- The sinks, their states and the count of their failures.
abbrev pub as_sync : {S : Type 0} → AsyncDispatcher S → SyncDispatcher S
as_sync d = record { sinks = d.sinks; store = d.store; failures = d.failures }

module _ {S : Type 0} (c : SinkClass S) where
  -- The calls of the synchronous dispatcher for the items of a queue.
  unfoldable pub call_each : List QueueItem → SyncDispatcher S → SyncDispatcher S
  call_each [] d = d
  call_each (event e ∷ items) d = call_each items (SyncDispatcher.dispatch c e d)
  call_each (flush_request id ∷ items) d = call_each items (SyncDispatcher.flush c d)

  process_all-as_sync :
      (items : List QueueItem) (d : AsyncDispatcher S)
      → as_sync (process_all c items d) ≡ call_each items (as_sync d)
  unfolding process_all call_each SyncDispatcher.dispatch SyncDispatcher.flush
  process_all-as_sync [] d = refl
  process_all-as_sync (event e ∷ items) d = process_all-as_sync items (process c (event e) d)
  process_all-as_sync (flush_request id ∷ items) d =
      process_all-as_sync items (process c (flush_request id) d)

  -- A worker that is told to stop while it waits, and which no other thread disturbs, ends, and its
  -- batches have the same effect on the sinks and on the count of their failures, whatever the batch
  -- size above 0, as a synchronous dispatcher that is called for each item of the queue in order,
  -- and to flush at last.
  pub worker_loop-as_sync :
      (fresh : QueueItem) (d : AsyncDispatcher S)
      → d.stopping ≡ true
      → 1 ≤ d.options.batch_size
      → (after : AsyncDispatcher S) × (worker_loop c
            (replicate (suc (length d.queue)) (quiet S))
            fresh
            d
          ≡ some after)
        × (as_sync after ≡ SyncDispatcher.flush c (call_each d.queue (as_sync d)))
  unfolding safe_flush_sinks SyncDispatcher.flush
  worker_loop-as_sync fresh d stopping positive = (
    safe_flush_sinks c (process_all c d.queue (with_queue [] d)),
    worker_loop_drains c fresh d stopping positive,
    ap (SyncDispatcher.flush c) (process_all-as_sync d.queue (with_queue [] d)),
  )
