-- ===== src/AsyncDispatcher/Enqueue.antt =====
-- The calls of producers: `dispatch` and `flush` of src/async_dispatcher.cpp. A call of the queue,
-- with the tests around it, is one step. A call that overlaps one of another thread may fail although
-- the queue has room, or an item: the pop that makes the room has not released its slot yet, or the
-- push of the oldest item has not published it.
use mathlib.Core.Option
use logspine.Prelude.{
  ℕ, ltb, leb, not, ◌&&◌, if◌then◌else◌, Bool, true, false, Option, none, some, List, [], ◌∷◌,
}
use logspine.Event.{LogEvent}
use logspine.Dispatcher.{bump}
use logspine.AsyncDispatcher.{
  AsyncDispatcher, event, flush_request, block, drop_newest, drop_oldest, has_room, push,
  with_queue, wake, drop_one, raise_completed,
}

-- An attempt to enqueue: whether it fails because of a pop under way, and what other threads do
-- between it and the next one.
pub record Attempt (S : Type 0) : Type 0 where
  pub refused : Bool
  pub meanwhile : AsyncDispatcher S → AsyncDispatcher S

-- What other threads and the clock do in a round of the loop of `enqueue_event`: whether the attempt
-- to enqueue fails because of a pop under way, and the one to dequeue because of a push; the attempts
-- to put a flush request back, and what other threads do before the next round; whether the wait on
-- the condition timed out, and the milliseconds since the start.
pub record Round (S : Type 0) : Type 0 where
  pub refused : Bool
  pub missed : Bool
  pub waits : List (Attempt S)
  pub meanwhile : AsyncDispatcher S → AsyncDispatcher S
  pub timed_out : Bool
  pub elapsed : ℕ

-- How a round ends: the call returns, goes round again, or is still in a wait.
pub data Outcome (S : Type 0) : Type 0 where
  ends : Bool → AsyncDispatcher S → Outcome S
  again : AsyncDispatcher S → Outcome S
  waits_on : Outcome S

module _ {S : Type 0} where
  -- `queue_->enqueue` succeeds.
  abbrev pub accepts : Bool → AsyncDispatcher S → Bool
  accepts refused d = not refused && has_room d

  -- A round of the loop of `enqueue_flush_request`; `none` has to wait for room.
  unfoldable pub request_round : Bool → ℕ → AsyncDispatcher S → Option (AsyncDispatcher S)
  request_round refused flush_id d =
      if accepts refused d
      then some (wake (push (flush_request flush_id) d))
      else if d.stopping
      then some (raise_completed flush_id d)
      else none

  -- The loop, with an attempt for each round, and one more that no other call overlaps.
  unfoldable pub request_loop :
      List (Attempt S) → ℕ → AsyncDispatcher S → Option (AsyncDispatcher S)
  unfolding request_round
  request_loop [] flush_id d = request_round false flush_id d
  request_loop (a ∷ waits) flush_id d = elim (request_round a.refused flush_id d) [
    | some d' ↦ some d'
    | none ↦ request_loop waits flush_id (a.meanwhile d)
  ]

  unfoldable pub enqueue_flush_request :
      List (Attempt S) → ℕ → AsyncDispatcher S → Option (AsyncDispatcher S)
  unfolding request_loop
  enqueue_flush_request waits flush_id d =
      if d.stopping then some (raise_completed flush_id d) else request_loop waits flush_id d

  -- `drop_oldest`: an item leaves the queue and counts as dropped; a flush request goes back to the
  -- end.
  unfoldable pub take_oldest : List (Attempt S) → AsyncDispatcher S → Option (AsyncDispatcher S)
  unfolding enqueue_flush_request
  take_oldest waits d = elim d.queue [
    | [] ↦ some d
    | event e ∷ items ↦ some (drop_one (with_queue items d))
    | flush_request id ∷ items ↦ enqueue_flush_request waits id (drop_one (with_queue items d))
  ]

  unfoldable pub make_room : Round S → AsyncDispatcher S → Option (AsyncDispatcher S)
  unfolding take_oldest
  make_room r d = if r.missed then some d else take_oldest r.waits d

  -- The wait of `block` has lasted too long.
  abbrev pub gives_up : Round S → AsyncDispatcher S → Bool
  gives_up r d =
      ltb 0 d.options.block_retry_timeout
      && r.timed_out
      && leb d.options.block_retry_timeout r.elapsed

  -- The `switch` over the policies, in a round that finds the queue full.
  unfoldable pub overflow_round : Round S → AsyncDispatcher S → Outcome S
  unfolding make_room
  overflow_round r d = elim d.options.overflow [
    | drop_newest ↦ ends false (drop_one d)
    | drop_oldest ↦ elim (make_room r d) [ none ↦ waits_on | some d' ↦ again (r.meanwhile d') ]
    | block ↦ if gives_up r d then ends false (drop_one (r.meanwhile d)) else again (r.meanwhile d)
  ]

  unfoldable pub event_round : Round S → LogEvent → AsyncDispatcher S → Outcome S
  unfolding overflow_round
  event_round r e d =
      if accepts r.refused d
      then ends true (wake (push (event e) d))
      else if d.stopping
      then ends false (drop_one d)
      else overflow_round r d

  -- The loop of `enqueue_event`: whether the event was queued.
  unfoldable pub event_loop :
      List (Round S) → LogEvent → AsyncDispatcher S → Option (Bool × AsyncDispatcher S)
  unfolding event_round
  event_loop [] e d = none
  event_loop (r ∷ rounds) e d = elim (event_round r e d) [
    | ends queued d' ↦ some (queued, d')
    | again d' ↦ event_loop rounds e d'
    | waits_on ↦ none
  ]

  -- The first attempt, behind which the loop starts.
  unfoldable pub enqueue_event :
      Attempt S → List (Round S) → LogEvent → AsyncDispatcher S → Option (Bool × AsyncDispatcher S)
  unfolding event_loop
  enqueue_event a rounds e d =
      if d.stopping
      then some (false, drop_one d)
      else if accepts a.refused d
      then some (true, wake (push (event e) d))
      else event_loop rounds e (a.meanwhile d)

  unfoldable pub dispatch :
      Attempt S → List (Round S) → LogEvent → AsyncDispatcher S → Option (AsyncDispatcher S)
  unfolding enqueue_event
  dispatch a rounds e d = Option.map (λ r. r.1) (enqueue_event a rounds e d)

  -- `flush` up to its wait, which ends when `completed_flush_id` is no less than the id given.
  unfoldable pub begin_flush : List (Attempt S) → AsyncDispatcher S → Option (ℕ × AsyncDispatcher S)
  unfolding enqueue_flush_request
  begin_flush waits d =
      let id = bump d.next_flush_id in
      Option.map (λ d'. (id, d')) (enqueue_flush_request waits id (record d { next_flush_id = id }))

  abbrev pub flush_returns : ℕ → AsyncDispatcher S → Bool
  flush_returns id d = leb id d.completed_flush_id
