-- ===== src/AsyncDispatcher/Order.antt =====
-- What the worker does with the items of the queue, and in which order.
use logspine.Prelude.{
  ℕ, ◌+◌, ◌^◌, ◌≤◌, ◌<◌, ◌≡◌, refl, ap, ◌∙◌, arith, leb, true, false, some, List, [], ◌∷◌, ◌++◌,
  length,
}
use logspine.Dispatcher.{SinkClass}
use logspine.SyncDispatcher.Isolation.{count, times, call_all-store}
use logspine.AsyncDispatcher.{
  AsyncDispatcher, QueueItem, event, flush_request, push, with_queue, wake, raise_completed,
}
use logspine.AsyncDispatcher.Enqueue.{
  request_round, request_loop, enqueue_flush_request, begin_flush, flush_returns,
}
use logspine.AsyncDispatcher.Worker.{safe_write, safe_flush_sinks, process, process_all}

module _ {S : Type 0} (c : SinkClass S) where
  -- What a sink that stands `n` times in the list goes through for the items of a queue.
  unfoldable pub seen : ℕ → List QueueItem → S → S
  seen n [] s = s
  seen n (event e ∷ items) s = seen n items (times n (λ s. (c.write e s).0) s)
  seen n (flush_request id ∷ items) s = seen n items (times n (λ s. (c.flush s).0) s)

  -- The items reach every sink in their order, each as often as the sink stands in the list.
  process_all-store :
      (items : List QueueItem) (d : AsyncDispatcher S) (i : ℕ)
      → (process_all c items d).store i ≡ seen (count i d.sinks) items (d.store i)
  unfolding process_all seen
  process_all-store [] d i = refl
  process_all-store (event e ∷ items) d i =
      process_all-store items (safe_write c e d) i
      ∙ ap (seen (count i d.sinks) items)
          (call_all-store c (c.write e) d.sinks d.store d.failures i)
  process_all-store (flush_request id ∷ items) d i =
      process_all-store items (raise_completed id (safe_flush_sinks c d)) i
      ∙ ap (seen (count i d.sinks) items) (call_all-store c c.flush d.sinks d.store d.failures i)

  pub process_all-append :
      (items more : List QueueItem) (d : AsyncDispatcher S)
      → process_all c (items ++ more) d ≡ process_all c more (process_all c items d)
  unfolding process_all
  process_all-append [] more d = refl
  process_all-append (item ∷ items) more d = process_all-append items more (process c item d)

  -- The worker leaves the queue to the producers.
  pub process_all-with_queue :
      (items queue : List QueueItem) (d : AsyncDispatcher S)
      → process_all c items (with_queue queue d) ≡ with_queue queue (process_all c items d)
  unfolding process_all
  process_all-with_queue [] queue d = refl
  process_all-with_queue (event e ∷ items) queue d =
      process_all-with_queue items queue (safe_write c e d)
  process_all-with_queue (flush_request id ∷ items) queue d =
      process_all-with_queue items queue (raise_completed id (safe_flush_sinks c d))

  pub process_all-stopping :
      (items : List QueueItem) (d : AsyncDispatcher S)
      → ((process_all c items d).stopping ≡ d.stopping)
        × ((process_all c items d).options ≡ d.options)
        × (d.completed_flush_id ≤ (process_all c items d).completed_flush_id)
  unfolding process_all
  process_all-stopping [] d = (refl, refl, omega arith)
  process_all-stopping (event e ∷ items) d = process_all-stopping items (safe_write c e d)
  process_all-stopping (flush_request id ∷ items) d =
      let h = process_all-stopping items (raise_completed id (safe_flush_sinks c d)) in
      (h.0, h.1, ground (arith, h.2))

  seen-append :
      (n : ℕ) (items more : List QueueItem) (s : S)
      → seen n (items ++ more) s ≡ seen n more (seen n items s)
  unfolding seen
  seen-append n [] more s = refl
  seen-append n (event e ∷ items) more s = seen-append n items more _
  seen-append n (flush_request id ∷ items) more s = seen-append n items more _

  -- A flush request that was processed is completed.
  process_all_completes :
      (items : List QueueItem) (id : ℕ) (d : AsyncDispatcher S)
      → id ≤ (process_all c (items ++ (flush_request id ∷ [])) d).completed_flush_id
  unfolding process_all
  process_all_completes items id d =
      rw (process_all-append items (flush_request id ∷ []) d) (ground arith)

  -- Without other threads, a flush request that finds room gets the next id. Once the worker has
  -- processed the queue, the wait of the caller is over, and every sink has gone through the items
  -- that were queued before and then flushed. The id has not come to its end.
  pub flush_completes :
      (d : AsyncDispatcher S)
      → d.stopping ≡ false
      → length d.queue < d.capacity
      → d.next_flush_id + 1 < 2 ^ 64
      → (d' : AsyncDispatcher S) × (begin_flush [] d ≡ some (d.next_flush_id + 1, d'))
        × (flush_returns (d.next_flush_id + 1) (process_all c d'.queue (with_queue [] d')) ≡ true)
        × ((i : ℕ)
            → (process_all c d'.queue (with_queue [] d')).store i
              ≡ times
                  (count i d.sinks)
                  (λ s. (c.flush s).0)
                  (seen (count i d.sinks) d.queue (d.store i)))
  unfolding begin_flush enqueue_flush_request request_loop request_round seen
  flush_completes d running room small = (
    queued,
    ground arith,
    le→leb _ _ (process_all_completes d.queue (d.next_flush_id + 1) (with_queue [] queued)),
    λ i.
        process_all-store queued.queue (with_queue [] queued) i
        ∙ seen-append (count i d.sinks) d.queue (flush_request (d.next_flush_id + 1) ∷ [])
            (d.store i),
  )
    where
      queued : AsyncDispatcher S
      queued = wake (
          push (flush_request (d.next_flush_id + 1))
            (record d { next_flush_id = d.next_flush_id + 1 }))

      le→leb : (a b : ℕ) → a ≤ b → leb a b ≡ true
      le→leb a b h = ground arith
