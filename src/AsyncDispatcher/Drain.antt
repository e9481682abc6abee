-- ===== src/AsyncDispatcher/Drain.antt =====
-- The batches of the worker, and the end of its loop.
use logspine.Prelude.{
  ℕ, zero, suc, ◌-◌, ◌^◌, ◌≤◌, ◌≡◌, refl, sym, ap, ◌∙◌, arith, if◌then◌else◌, true, false, Option,
  some, List, [], ◌∷◌, ◌++◌, length, take, drop, replicate, take-append-drop, length-drop,
  length-take, subst,
}
use logspine.Dispatcher.{SinkClass}
use logspine.AsyncDispatcher.{AsyncDispatcher, QueueItem, with_queue, begin_shutdown}
use logspine.AsyncDispatcher.Worker.{
  safe_flush_sinks, process_all, take_items, Poll, poll, gather, WorkerRound, worker_loop,
}
use logspine.AsyncDispatcher.Order.{
  process_all-append, process_all-with_queue, process_all-stopping,
}

module _ {S : Type 0} where
  take_items-with_queue :
      (n : ℕ) (items : List QueueItem) (d : AsyncDispatcher S)
      → take_items n (with_queue items d) ≡ (take n items, with_queue (drop n items) d)
  unfolding take_items
  take_items-with_queue zero items d = refl
  take_items-with_queue (suc n) [] d = refl
  take_items-with_queue (suc n) (item ∷ items) d =
      ap (λ r. (item ∷ r.0, r.1)) (take_items-with_queue n items d)

  gather_running :
      (item : QueueItem) (d : AsyncDispatcher S)
      → d.stopping ≡ false
      → gather item d ≡ (
        item ∷ take (d.options.batch_size - 1) d.queue,
        with_queue (drop (d.options.batch_size - 1) d.queue) d,
      )
  unfolding gather
  gather_running item d e =
      let rest = take_items (d.options.batch_size - 1) d in
      ap (λ b. if b then take_items d.options.batch_size d else (item ∷ rest.0, rest.1)) e
      ∙ ap (λ r. (item ∷ r.0, r.1)) (take_items-with_queue (d.options.batch_size - 1) d.queue d)

  -- While the dispatcher is not stopping, a batch is the item that the worker has and what the queue
  -- holds next, in order, no longer than the batch size; the rest stays in the queue.
  gather_takes_prefix :
      (item : QueueItem) (d : AsyncDispatcher S)
      → d.stopping ≡ false
      → 1 ≤ d.options.batch_size
      → ((gather item d).0 ++ (gather item d).1.queue ≡ item ∷ d.queue)
        × (1 ≤ length (gather item d).0)
        × (length (gather item d).0 ≤ d.options.batch_size)
  gather_takes_prefix item d running positive = rw (gather_running item d running) (
    ap (λ q. item ∷ q) (take-append-drop (d.options.batch_size - 1) d.queue),
    omega arith,
    omega (arith, length-take (d.options.batch_size - 1) d.queue),
  )

-- Rounds in which no other thread does anything.
abbrev pub quiet_poll : (S : Type 0) → Poll S
quiet_poll S = record { between = λ d. d; waiting = λ d. d }

abbrev pub quiet : (S : Type 0) → WorkerRound S
quiet S = record { polls = quiet_poll S ∷ []; meanwhile = λ d. d }

module _ {S : Type 0} (c : SinkClass S) where
  -- What the loop does with a batch.
  after_batch :
      List (WorkerRound S)
      → QueueItem
      → List QueueItem
      → AsyncDispatcher S
      → Option (AsyncDispatcher S)
  after_batch rounds fresh [] d = some (safe_flush_sinks c d)
  after_batch rounds fresh (item ∷ items) d =
      worker_loop c rounds fresh (process_all c (item ∷ items) d)

  after_batch-eq :
      (rounds : List (WorkerRound S)) (fresh : QueueItem) (items : List QueueItem)
      (d : AsyncDispatcher S)
      → elim items [
        | [] ↦ some (safe_flush_sinks c d)
        | first ∷ batch ↦ worker_loop c rounds fresh (process_all c (first ∷ batch) d)
      ]
        ≡ after_batch rounds fresh items d
  unfolding after_batch
  after_batch-eq rounds fresh [] d = refl
  after_batch-eq rounds fresh (item ∷ items) d = refl

  stopped_round :
      (rounds : List (WorkerRound S)) (fresh : QueueItem) (items : List QueueItem)
      (d : AsyncDispatcher S)
      → worker_loop c (quiet S ∷ rounds) fresh (record d { queue = items; stopping = true })
        ≡ after_batch rounds fresh
            (take d.options.batch_size items)
            (record d { queue = drop d.options.batch_size items; stopping = true })
  unfolding worker_loop poll gather
  stopped_round rounds fresh items d =
      ap
        (λ (taken : List QueueItem × AsyncDispatcher S). elim taken.0 [
          | [] ↦ some (safe_flush_sinks c taken.1)
          | first ∷ batch ↦ worker_loop c rounds fresh (process_all c (first ∷ batch) taken.1)
        ])
        (take_items-with_queue d.options.batch_size items (record d { stopping = true }))
      ∙ after_batch-eq rounds fresh (take d.options.batch_size items)
          (record d { queue = drop d.options.batch_size items; stopping = true })

  stopping_round :
      (rounds : List (WorkerRound S)) (fresh : QueueItem) (items : List QueueItem)
      (d : AsyncDispatcher S)
      → d.stopping ≡ true
      → worker_loop c (quiet S ∷ rounds) fresh (with_queue items d)
        ≡ after_batch rounds fresh
            (take d.options.batch_size items)
            (with_queue (drop d.options.batch_size items) d)
  stopping_round rounds fresh items d e =
      subst
        (λ b.
          worker_loop c (quiet S ∷ rounds) fresh (record d { queue = items; stopping = b })
          ≡ after_batch rounds fresh (take d.options.batch_size items)
              (record d { queue = drop d.options.batch_size items; stopping = b }))
        (sym e) (stopped_round rounds fresh items d)

  after_batch_drains :
      (n b : ℕ) (fresh : QueueItem) (items : List QueueItem) (d : AsyncDispatcher S)
      → length items ≤ n
      → d.stopping ≡ true
      → d.options.batch_size ≡ suc b
      → after_batch
          (replicate n (quiet S))
          fresh
          (take d.options.batch_size items)
          (with_queue (drop d.options.batch_size items) d)
        ≡ some (safe_flush_sinks c (process_all c items (with_queue [] d)))
  unfolding after_batch process_all
  after_batch_drains n b fresh [] d short stopping size = rw size
  after_batch_drains zero b fresh (item ∷ items) d short stopping size = absurd (omega arith)
  after_batch_drains (suc n) b fresh (item ∷ items) d short stopping size =
      let batch = item ∷ take b items in
      let d1 = process_all c batch (with_queue [] d) in
      let h = process_all-stopping c batch (with_queue [] d) in
      ap
        (λ k.
          after_batch (replicate (suc n) (quiet S)) fresh (take k (item ∷ items))
            (with_queue (drop k (item ∷ items)) d))
        size
      ∙ ap (worker_loop c (replicate (suc n) (quiet S)) fresh)
          (process_all-with_queue c batch (drop b items) (with_queue [] d))
      ∙ stopping_round (replicate n (quiet S)) fresh (drop b items) d1 (h.0 ∙ stopping)
      ∙ after_batch_drains n b fresh (drop b items) d1 (omega (arith, length-drop b items))
          (h.0 ∙ stopping) (ap (λ o. o.batch_size) h.1 ∙ size)
      ∙ ap (λ e. some (safe_flush_sinks c (process_all c (drop b items) e)))
          (sym (process_all-with_queue c batch [] (with_queue [] d)))
      ∙ ap (λ e. some (safe_flush_sinks c e))
          (sym (process_all-append c batch (drop b items) (with_queue [] d)))
      ∙ ap (λ q. some (safe_flush_sinks c (process_all c (item ∷ q) (with_queue [] d))))
          (take-append-drop b items)

  -- A worker that is told to stop while it waits, and which no other thread disturbs, ends, having
  -- processed every item of the queue in order, whatever the batch size above 0, and flushed the
  -- sinks. It needs at most one round more than there are items.
  pub worker_loop_drains :
      (fresh : QueueItem) (d : AsyncDispatcher S)
      → d.stopping ≡ true
      → 1 ≤ d.options.batch_size
      → worker_loop c (replicate (suc (length d.queue)) (quiet S)) fresh d
        ≡ some (safe_flush_sinks c (process_all c d.queue (with_queue [] d)))
  worker_loop_drains fresh d stopping positive =
      stopping_round (replicate (length d.queue) (quiet S)) fresh d.queue d stopping
      ∙ after_batch_drains (length d.queue) (d.options.batch_size - 1) fresh d.queue d (omega arith)
          stopping (omega arith)

  -- The dispatcher as `begin_shutdown` leaves it.
  abbrev shut_down : AsyncDispatcher S → AsyncDispatcher S
  shut_down d = record d { stopping = true; sleeping = false; completed_flush_id = 2 ^ 64 - 1 }

  overwritten_round :
      (rounds : List (WorkerRound S)) (fresh first : QueueItem) (items : List QueueItem)
      (d : AsyncDispatcher S)
      → worker_loop c
          (record { polls = quiet_poll S ∷ []; meanwhile = begin_shutdown } ∷ rounds)
          fresh
          (record d { queue = first ∷ items; stopping = false })
        ≡ after_batch rounds fresh
            (take d.options.batch_size items)
            (with_queue (drop d.options.batch_size items) (shut_down d))
  unfolding worker_loop poll gather begin_shutdown
  overwritten_round rounds fresh first items d =
      ap
        (λ (taken : List QueueItem × AsyncDispatcher S). elim taken.0 [
          | [] ↦ some (safe_flush_sinks c taken.1)
          | first ∷ batch ↦ worker_loop c rounds fresh (process_all c (first ∷ batch) taken.1)
        ])
        (take_items-with_queue d.options.batch_size items (shut_down d))
      ∙ after_batch-eq rounds fresh (take d.options.batch_size items)
          (with_queue (drop d.options.batch_size items) (shut_down d))

  -- If the shutdown begins just after the worker has taken an item from the queue, and no other
  -- thread disturbs it, that item is lost: the worker ends having processed the items behind it and
  -- flushed the sinks, as if the item had never been queued.
  pub worker_loop_loses_item :
      (fresh first : QueueItem) (items : List QueueItem) (d : AsyncDispatcher S)
      → d.stopping ≡ false
      → 1 ≤ d.options.batch_size
      → worker_loop c
          (record { polls = quiet_poll S ∷ []; meanwhile = begin_shutdown }
            ∷ replicate (length items) (quiet S))
          fresh
          (with_queue (first ∷ items) d)
        ≡ some (safe_flush_sinks c (process_all c items (with_queue [] (begin_shutdown d))))
  unfolding begin_shutdown
  worker_loop_loses_item fresh first items d running positive =
      subst
        (λ b.
          worker_loop c
            (record { polls = quiet_poll S ∷ []; meanwhile = begin_shutdown }
              ∷ replicate (length items) (quiet S))
            fresh (record d { queue = first ∷ items; stopping = b })
          ≡ some (
              safe_flush_sinks c
                (process_all c items (with_queue [] (begin_shutdown (record d { stopping = b }))))))
        (sym running)
        (overwritten_round (replicate (length items) (quiet S)) fresh first items d
          ∙ after_batch_drains (length items) (d.options.batch_size - 1) fresh items (shut_down d)
              (omega arith) refl (omega arith))
