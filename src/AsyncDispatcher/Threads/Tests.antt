-- ===== src/AsyncDispatcher/Threads/Tests.antt =====
-- A run of a small dispatcher: a caller queues an event and then flushes, beside the worker.
use mathlib.Core.List.{Mem}
use logspine.Prelude.{
  ◌*◌, ℕ, ◌+◌, ◌%◌, ◌^◌, ◌≡◌, ◌<◌, ◌≤◌, ◌⊎◌, refl, true, false, some, [], ◌∷◌, arith,
}
use logspine.MpscQueue.{round_up_to_power_of_2}
use logspine.AsyncDispatcher.{
  AsyncDispatcher, QueueItem, event, flush_request, drop_oldest, async_dispatcher, push, wake,
  drop_one, raise_completed,
}
use logspine.AsyncDispatcher.Worker.{safe_write, safe_flush_sinks}
use logspine.AsyncDispatcher.Same.{as_sync}
use logspine.AsyncDispatcher.Tests.{counting, message, options, with_items}
use logspine.AsyncDispatcher.Threads.{
  System, in_hand, overwritten, shed, idle, starting, trying, looping, full, choosing, took, queued,
  request, pushing, requested, awaiting, flush_wait, test, dequeuing, deciding, filling, running,
  completing, held, call_at, with_shared, work_at, push_item, pop_item, begin_flush, finish_item,
}
use logspine.AsyncDispatcher.Threads.Steps.{
  started, Reach, start, later, moves, writes, pushes, flushes, turns, sets, pops, runs_event,
  runs_request, dispatches, starts, first_try, wakes, request_running, of_request, wakes_for, sheds,
  enters_loop, has_no_room, full_running, counts_event, sees_running, takes, decides_to_fill,
  filled, batch_done, completes,
}
use logspine.AsyncDispatcher.Threads.Dispatches.{
  begun, queued as queued_events, refused, removed, counted, only, everyone, dispatches_accounted,
}
use logspine.AsyncDispatcher.Threads.Balance.{under_way, holding}
use logspine.AsyncDispatcher.Threads.Ordered.{Descending}
use logspine.AsyncDispatcher.Threads.Replay.{replay, last_flush, Reach-Replayed}
use logspine.AsyncDispatcher.Threads.Covers.{accounts, flush_covers}

abbrev fresh : QueueItem
fresh = event (message 0)

abbrev made : AsyncDispatcher ℕ
made = record (with_items [] false) { next_flush_id = 0 }

made_is_constructed : async_dispatcher (0 ∷ 1 ∷ []) (λ i. 100 * i) options ≡ some made
unfolding async_dispatcher round_up_to_power_of_2
made_is_constructed = refl

abbrev first : System ℕ
first = started fresh made

-- The states of the run, until the caller flushes.
abbrev dispatched : System ℕ
dispatched = call_at 0 idle (
    with_shared (wake (push (event (message 1)) made)) (
      call_at 0 queued (
        push_item (event (message 1))
          (call_at 0 (trying (message 1)) (call_at 0 (starting (message 1)) first)))))

dispatched_reached : Reach counting first dispatched
dispatched_reached =
    later
      (later
        (later
          (later start (moves 0 idle (starting (message 1)) refl (dispatches (message 1)))
            (omega arith))
          (moves 0 (starting (message 1)) (trying (message 1)) refl (starts (message 1) refl))
          (omega arith))
        (pushes 0 (trying (message 1)) queued (event (message 1)) refl (first_try (message 1)) refl)
        (omega arith))
      (writes 0 queued idle (wake (push (event (message 1)) made)) refl wakes) (omega arith)

-- The caller flushes while the worker takes the event.
abbrev flush_0 : System ℕ
flush_0 = begin_flush 0 dispatched

abbrev flush_1 : System ℕ
flush_1 = call_at 0 (pushing 1 flush_wait) flush_0

abbrev flush_2 : System ℕ
flush_2 = work_at dequeuing flush_1

abbrev flush_3 : System ℕ
flush_3 = work_at (deciding (0 ∷ [])) (pop_item [] in_hand flush_2)

abbrev flush_4 : System ℕ
flush_4 = call_at 0 (requested 1 flush_wait) (push_item (flush_request 1) flush_3)

abbrev flush_5 : System ℕ
flush_5 = work_at (filling (0 ∷ [])) flush_4

abbrev flush_6 : System ℕ
flush_6 = work_at (running (0 ∷ [])) flush_5

abbrev flush_7 : System ℕ
flush_7 = call_at 0 (awaiting 1) (with_shared (wake flush_6.shared) flush_6)

abbrev flush_8 : System ℕ
flush_8 = finish_item 0 (safe_write counting (message 1) flush_7.shared) (running []) flush_7

abbrev flush_9 : System ℕ
flush_9 = work_at test flush_8

abbrev flush_10 : System ℕ
flush_10 = work_at dequeuing flush_9

abbrev flush_11 : System ℕ
flush_11 = work_at (deciding (1 ∷ [])) (pop_item [] in_hand flush_10)

abbrev flush_12 : System ℕ
flush_12 = work_at (filling (1 ∷ [])) flush_11

abbrev flush_13 : System ℕ
flush_13 = work_at (running (1 ∷ [])) flush_12

abbrev flush_14 : System ℕ
flush_14 = finish_item 1 (safe_flush_sinks counting flush_13.shared) (completing 1 []) flush_13

abbrev flush_15 : System ℕ
flush_15 = work_at (running []) (with_shared (raise_completed 1 flush_14.shared) flush_14)

to_flush_1 : Reach counting flush_0 flush_1
to_flush_1 =
    later start
      (moves 0 (request 1 flush_wait) (pushing 1 flush_wait) refl
        (request_running 1 flush_wait refl))
      (omega arith)

to_flush_2 : Reach counting flush_0 flush_2
to_flush_2 = later to_flush_1 (turns test dequeuing refl (sees_running refl)) (omega arith)

to_flush_3 : Reach counting flush_0 flush_3
to_flush_3 =
    later to_flush_2 (pops dequeuing (deciding (0 ∷ [])) (event (message 1)) [] refl takes refl)
      (omega arith)

to_flush_4 : Reach counting flush_0 flush_4
to_flush_4 =
    later to_flush_3
      (pushes 0 (pushing 1 flush_wait) (requested 1 flush_wait) (flush_request 1) refl
        (of_request 1 flush_wait) refl)
      (omega arith)

to_flush_5 : Reach counting flush_0 flush_5
to_flush_5 =
    later to_flush_4 (turns (deciding (0 ∷ [])) (filling (0 ∷ [])) refl (decides_to_fill 0 refl))
      (omega arith)

to_flush_6 : Reach counting flush_0 flush_6
to_flush_6 =
    later to_flush_5 (turns (filling (0 ∷ [])) (running (0 ∷ [])) refl (filled (0 ∷ [])))
      (omega arith)

to_flush_7 : Reach counting flush_0 flush_7
to_flush_7 =
    later to_flush_6
      (writes 0 (requested 1 flush_wait) (awaiting 1) (wake flush_6.shared) refl
        (wakes_for 1 flush_wait))
      (omega arith)

to_flush_8 : Reach counting flush_0 flush_8
unfolding safe_write
to_flush_8 = later to_flush_7 (runs_event 0 [] (message 1) refl refl) (omega arith)

to_flush_9 : Reach counting flush_0 flush_9
unfolding safe_write
to_flush_9 = later to_flush_8 (turns (running []) test refl batch_done) (omega arith)

to_flush_10 : Reach counting flush_0 flush_10
unfolding safe_write
to_flush_10 = later to_flush_9 (turns test dequeuing refl (sees_running refl)) (omega arith)

to_flush_11 : Reach counting flush_0 flush_11
unfolding safe_write
to_flush_11 =
    later to_flush_10 (pops dequeuing (deciding (1 ∷ [])) (flush_request 1) [] refl takes refl)
      (omega arith)

to_flush_12 : Reach counting flush_0 flush_12
unfolding safe_write
to_flush_12 =
    later to_flush_11 (turns (deciding (1 ∷ [])) (filling (1 ∷ [])) refl (decides_to_fill 1 refl))
      (omega arith)

to_flush_13 : Reach counting flush_0 flush_13
unfolding safe_write
to_flush_13 =
    later to_flush_12 (turns (filling (1 ∷ [])) (running (1 ∷ [])) refl (filled (1 ∷ [])))
      (omega arith)

to_flush_14 : Reach counting flush_0 flush_14
unfolding safe_write safe_flush_sinks
to_flush_14 = later to_flush_13 (runs_request 1 [] 1 refl refl) (omega arith)

to_flush_15 : Reach counting flush_0 flush_15
unfolding safe_write safe_flush_sinks
to_flush_15 =
    later to_flush_14
      (sets (completing 1 []) (running []) (raise_completed 1 flush_14.shared) refl
        (completes 1 []))
      (omega arith)

flush_covers_example :
    ((p : ℕ)
      → p < 1
      → Mem p flush_15.done
        ⊎ ((flush_15.fate p ≡ shed) × (flush_15.shared.options.overflow ≡ drop_oldest)))
    × ((q : ℕ) × (1 ≤ q)
        × Mem q flush_15.done
        × (flush_15.log q ≡ flush_request flush_15.shared.completed_flush_id))
unfolding safe_write safe_flush_sinks
flush_covers_example =
    flush_covers counting fresh (0 ∷ 1 ∷ []) (λ i. 100 * i) options made 0 made_is_constructed
      dispatched_reached refl (omega arith) to_flush_15 refl (omega arith)

-- The run of the worker up to the event.
from_made : Reach counting first flush_8
unfolding safe_write
from_made =
    later
      (later
        (later
          (later
            (later
              (later
                (later
                  (later (later dispatched_reached (flushes 0 refl) (omega arith))
                    (moves 0 (request 1 flush_wait) (pushing 1 flush_wait) refl
                      (request_running 1 flush_wait refl))
                    (omega arith))
                  (turns test dequeuing refl (sees_running refl)) (omega arith))
                (pops dequeuing (deciding (0 ∷ [])) (event (message 1)) [] refl takes refl)
                (omega arith))
              (pushes 0 (pushing 1 flush_wait) (requested 1 flush_wait) (flush_request 1) refl
                (of_request 1 flush_wait) refl)
              (omega arith))
            (turns (deciding (0 ∷ [])) (filling (0 ∷ [])) refl (decides_to_fill 0 refl))
            (omega arith))
          (turns (filling (0 ∷ [])) (running (0 ∷ [])) refl (filled (0 ∷ []))) (omega arith))
        (writes 0 (requested 1 flush_wait) (awaiting 1) (wake flush_6.shared) refl
          (wakes_for 1 flush_wait))
        (omega arith))
      (runs_event 0 [] (message 1) refl refl) (omega arith)

Reach-Replayed_example :
    Descending flush_8.done flush_8.tail
    × (as_sync flush_8.shared
        ≡ last_flush counting flush_8.worker
            (replay counting flush_8.log flush_8.done (as_sync made)))
Reach-Replayed_example = Reach-Replayed counting fresh made refl from_made

accounts_example :
    (flush_8.tail ≤ 1)
    ⊎ (Mem 1 (held flush_8.worker)
        ⊎ (Mem 1 flush_8.done
            ⊎ (((flush_8.fate 1 ≡ overwritten) × (flush_8.shared.stopping ≡ true))
                ⊎ ((flush_8.fate 1 ≡ shed) × (flush_8.shared.options.overflow ≡ drop_oldest)))))
accounts_example = accounts counting fresh made from_made 1 (omega arith)

-- Beside the queued event another caller finds the queue full, removes the event and counts it.
abbrev shed_1 : System ℕ
shed_1 = call_at 1 (choosing (message 2)) (
    call_at 1 (full (message 2)) (
      call_at 1 (looping (message 2))
        (call_at 1 (trying (message 2)) (call_at 1 (starting (message 2)) dispatched))))

abbrev shed_2 : System ℕ
shed_2 = call_at 1 (took (event (message 1)) (message 2)) (pop_item [] shed shed_1)

abbrev shed_3 : System ℕ
shed_3 = call_at 1 (looping (message 2)) (with_shared (drop_one shed_2.shared) shed_2)

to_shed_1 : Reach counting first shed_1
to_shed_1 =
    later
      (later
        (later
          (later
            (later dispatched_reached
              (moves 1 idle (starting (message 2)) refl (dispatches (message 2))) (omega arith))
            (moves 1 (starting (message 2)) (trying (message 2)) refl (starts (message 2) refl))
            (omega arith))
          (moves 1 (trying (message 2)) (looping (message 2)) refl (enters_loop (message 2)))
          (omega arith))
        (moves 1 (looping (message 2)) (full (message 2)) refl (has_no_room (message 2)))
        (omega arith))
      (moves 1 (full (message 2)) (choosing (message 2)) refl (full_running (message 2) refl))
      (omega arith)

to_shed_3 : Reach counting first shed_3
to_shed_3 =
    later
      (later to_shed_1 (sheds 1 (message 2) (event (message 1)) [] refl refl refl) (omega arith))
      (writes 1 (took (event (message 1)) (message 2)) (looping (message 2))
        (drop_one shed_2.shared) refl (counts_event (message 1) (message 2)))
      (omega arith)

dispatches_accounted_example :
    (begun (only 1) to_shed_3
      ≡ queued_events (only 1) to_shed_3 + refused (only 1) to_shed_3 + under_way (shed_3.pc 1))
    × (removed (only 1) to_shed_3 ≡ counted (only 1) to_shed_3 + holding (shed_3.pc 1))
    × (shed_3.shared.dropped
        ≡ (made.dropped + refused everyone to_shed_3 + counted everyone to_shed_3) % 2 ^ 64)
dispatches_accounted_example = dispatches_accounted fresh made 1 to_shed_3 (omega arith)
