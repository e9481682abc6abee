-- ===== src/AsyncDispatcher/Worker.antt =====
-- The worker thread of src/async_dispatcher.cpp. Other threads act between its steps as the rounds
-- say. A dequeue sees every item that a producer has begun to push: in AsyncDispatcher/Threads one
-- that overlaps a push may also find nothing.
use logspine.Prelude.{
  ℕ, zero, suc, ◌-◌, if◌then◌else◌, true, false, Option, none, some, List, [], ◌∷◌,
}
use logspine.Event.{LogEvent}
use logspine.Dispatcher.{SinkClass}
use logspine.SyncDispatcher.{call_all}
use logspine.AsyncDispatcher.{
  AsyncDispatcher, QueueItem, event, flush_request, with_queue, raise_completed,
}

-- What other threads do in a round of the loop in which the worker waits for an item: between its
-- two attempts, and during the wait.
pub record Poll (S : Type 0) : Type 0 where
  pub between : AsyncDispatcher S → AsyncDispatcher S
  pub waiting : AsyncDispatcher S → AsyncDispatcher S

-- What other threads do in a round of `worker_loop`: while it waits, and before it looks at
-- `stopping_` again.
pub record WorkerRound (S : Type 0) : Type 0 where
  pub polls : List (Poll S)
  pub meanwhile : AsyncDispatcher S → AsyncDispatcher S

module _ {S : Type 0} (c : SinkClass S) where
  unfoldable pub safe_write : LogEvent → AsyncDispatcher S → AsyncDispatcher S
  unfolding call_all
  safe_write e d =
      let (store, failures) = call_all c (c.write e) d.sinks d.store d.failures in
      record d { store = store; failures = failures }

  unfoldable pub safe_flush_sinks : AsyncDispatcher S → AsyncDispatcher S
  unfolding call_all
  safe_flush_sinks d =
      let (store, failures) = call_all c c.flush d.sinks d.store d.failures in
      record d { store = store; failures = failures }

  -- The body of the loop over a batch, and the loop.
  unfoldable pub process : QueueItem → AsyncDispatcher S → AsyncDispatcher S
  unfolding safe_write safe_flush_sinks
  process (event e) d = safe_write e d
  process (flush_request id) d = raise_completed id (safe_flush_sinks d)

  unfoldable pub process_all : List QueueItem → AsyncDispatcher S → AsyncDispatcher S
  unfolding process
  process_all [] d = d
  process_all (item ∷ items) d = process_all items (process item d)

module _ {S : Type 0} where
  -- Up to `n` items from the queue.
  unfoldable pub take_items : ℕ → AsyncDispatcher S → List QueueItem × AsyncDispatcher S
  take_items zero d = ([], d)
  take_items (suc n) d = elim d.queue [
    | [] ↦ ([], d)
    | item ∷ items ↦ let (batch, d') = take_items n (with_queue items d) in (item ∷ batch, d')
  ]

  -- That loop, which leaves `item` alone if it ends because of `stopping_`.
  unfoldable pub poll :
      List (Poll S) → QueueItem → AsyncDispatcher S → Option (QueueItem × AsyncDispatcher S)
  poll [] item d = none
  poll (r ∷ rounds) item d = elim d.stopping [
    | true ↦ some (item, d)
    | false ↦ elim d.queue [
      | first ∷ items ↦ some (first, with_queue items d)
      | [] ↦
          let d1 = r.between (record d { sleeping = true }) in
          elim d1.queue [
            | first ∷ items ↦ some (first, record d1 { queue = items; sleeping = false })
            | [] ↦ elim d1.stopping [
              | true ↦ some (item, d1)
              | false ↦ poll rounds item (r.waiting d1)
            ]
          ]
    ]
  ]

  -- The batch. When the dispatcher is stopping, `item` is overwritten by what is dequeued next.
  unfoldable pub gather : QueueItem → AsyncDispatcher S → List QueueItem × AsyncDispatcher S
  unfolding take_items
  gather item d =
      if d.stopping
      then take_items d.options.batch_size d
      else (let (batch, d') = take_items (d.options.batch_size - 1) d in (item ∷ batch, d'))

module _ {S : Type 0} (c : SinkClass S) where
  -- The loop of the worker, until it ends; `fresh` is a `queue_item` as it is constructed.
  unfoldable pub worker_loop :
      List (WorkerRound S) → QueueItem → AsyncDispatcher S → Option (AsyncDispatcher S)
  unfolding poll gather process_all safe_flush_sinks
  worker_loop [] fresh d = none
  worker_loop (r ∷ rounds) fresh d = elim (poll r.polls fresh d) [
    | none ↦ none
    | some (item, d1) ↦
        let taken = gather item (r.meanwhile d1) in
        elim taken.0 [
          | [] ↦ some (safe_flush_sinks c taken.1)
          | first ∷ batch ↦ worker_loop rounds fresh (process_all c (first ∷ batch) taken.1)
        ]
  ]
