-- ===== src/AsyncDispatcher/Tests.antt =====
-- A small asynchronous dispatcher.
use logspine.Prelude.{
  ℕ, ◌+◌, ◌*◌, ◌==◌, ◌≡◌, refl, Bool, true, false, none, some, List, [], ◌∷◌, ◌++◌, codes, arith,
  replicate,
}
use logspine.Level.{warn}
use logspine.Event.{LogEvent}
use logspine.Dispatcher.{SinkClass}
use logspine.SyncDispatcher.Isolation.{count, times}
use logspine.AsyncDispatcher.{
  AsyncDispatcher, AsyncOptions, QueueItem, event, flush_request, drop_oldest, with_queue,
  begin_shutdown,
}
use logspine.AsyncDispatcher.Enqueue.{enqueue_event, begin_flush, flush_returns}
use logspine.AsyncDispatcher.Oldest.{quiet_attempt, quiet_round, requests, drop_oldest_rotates}
use logspine.AsyncDispatcher.Worker.{process_all, safe_flush_sinks, worker_loop}
use logspine.SyncDispatcher
use logspine.AsyncDispatcher.Same.{as_sync, call_each, worker_loop-as_sync}
use logspine.AsyncDispatcher.Order.{seen, flush_completes}
use logspine.AsyncDispatcher.Drain.{quiet, quiet_poll, worker_loop_loses_item}

abbrev pub counting : SinkClass ℕ
counting = record { write = λ event n. (n + 1, n == 100); flush = λ n. (n + 1000, false) }

abbrev pub message : ℕ → LogEvent
message timestamp = record {
  severity = warn;
  logger_name = codes "checkout";
  message = codes "paid";
  timestamp = timestamp;
  thread_id = 1;
  location = none;
  fields = [];
  trace_id = none;
  span_id = none;
  correlation_id = none;
}

abbrev pub options : AsyncOptions
options = record {
  queue_capacity = 2;
  overflow = drop_oldest;
  batch_size = 1;
  block_retry_timeout = 5000;
}

abbrev pub with_items : List QueueItem → Bool → AsyncDispatcher ℕ
with_items items stopping = record {
  sinks = 0 ∷ 1 ∷ [];
  store = λ i. 100 * i;
  options = options;
  capacity = 2;
  queue = items;
  stopping = stopping;
  sleeping = false;
  completed_flush_id = 0;
  next_flush_id = 4;
  dropped = 0;
  failures = 0;
}

abbrev full : AsyncDispatcher ℕ
full = with_items (flush_request 4 ∷ event (message 1) ∷ []) false

drop_oldest_rotates_example :
    enqueue_event (quiet_attempt ℕ) (replicate 3 (quiet_round ℕ)) (message 2) full
    ≡ some (
      true,
      record full {
        queue = [] ++ (requests (4 ∷ []) ++ (event (message 2) ∷ []));
        sleeping = false;
        dropped = 2;
      },
    )
drop_oldest_rotates_example =
    drop_oldest_rotates (message 2) (4 ∷ []) (message 1) [] full refl refl refl refl (omega arith)

abbrev one_event : AsyncDispatcher ℕ
one_event = with_items (event (message 1) ∷ []) false

flush_completes_example :
    (d' : AsyncDispatcher ℕ) × (begin_flush [] one_event ≡ some (one_event.next_flush_id + 1, d'))
    × (flush_returns
          (one_event.next_flush_id + 1)
          (process_all counting d'.queue (with_queue [] d'))
        ≡ true)
    × ((i : ℕ)
        → (process_all counting d'.queue (with_queue [] d')).store i
          ≡ times
              (count i one_event.sinks)
              (λ s. (counting.flush s).0)
              (seen counting (count i one_event.sinks) one_event.queue (one_event.store i)))
flush_completes_example = flush_completes counting one_event refl (omega arith) (omega arith)

abbrev stopped : AsyncDispatcher ℕ
stopped = with_items (event (message 1) ∷ flush_request 4 ∷ []) true

worker_loop-as_sync_example :
    (after : AsyncDispatcher ℕ) × (worker_loop counting
        (replicate 3 (quiet ℕ))
        (event (message 0))
        stopped
      ≡ some after)
    × (as_sync after
        ≡ SyncDispatcher.flush counting (call_each counting stopped.queue (as_sync stopped)))
worker_loop-as_sync_example =
    worker_loop-as_sync counting (event (message 0)) stopped refl (omega arith)

worker_loop_loses_item_example :
    worker_loop counting
      (record { polls = quiet_poll ℕ ∷ []; meanwhile = begin_shutdown } ∷ replicate 1 (quiet ℕ))
      (event (message 0))
      (with_queue (event (message 1) ∷ event (message 2) ∷ []) full)
    ≡ some (
        safe_flush_sinks counting
          (process_all counting (event (message 2) ∷ []) (with_queue [] (begin_shutdown full))))
worker_loop_loses_item_example =
    worker_loop_loses_item counting (event (message 0)) (event (message 1)) (event (message 2) ∷ [])
      full refl (omega arith)
