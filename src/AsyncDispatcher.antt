-- ===== src/AsyncDispatcher.antt =====
-- include/logspine/async_dispatcher.hpp and src/async_dispatcher.cpp. The queue is the bounded list
-- that MpscQueue refines. A loop that other threads run beside has a list of rounds, which say what
-- those threads do to the dispatcher meanwhile; `none` is a loop whose rounds have run out.
pub mod Enqueue
pub mod Worker
pub mod Oldest
pub mod Order
pub mod Drain
pub mod Same
pub mod Threads
mod Tests
use logspine.Prelude.{
  ℕ, zero, suc, ◌+◌, ◌-◌, ◌%◌, ◌^◌, ltb, leb, ◌==◌, ◌||◌, ◌&&◌, if◌then◌else◌, Bool, true, false,
  Option, none, some, List, [], ◌∷◌, ◌++◌, length,
}
use logspine.Event.{LogEvent}
use logspine.Dispatcher.{SinkClass, bump}
use logspine.SyncDispatcher.{call_all}
use logspine.MpscQueue.{round_up_to_power_of_2}

-- `queue_item`
pub data QueueItem : Type 0 where
  event : LogEvent → QueueItem
  flush_request : ℕ → QueueItem

pub data OverflowPolicy : Type 0 where
  block drop_newest drop_oldest : OverflowPolicy

-- The timeout is in milliseconds; one that is not positive is 0.
pub record AsyncOptions : Type 0 where
  pub queue_capacity : ℕ
  pub overflow : OverflowPolicy
  pub batch_size : ℕ
  pub block_retry_timeout : ℕ

pub record AsyncDispatcher (S : Type 0) : Type 0 where
  pub sinks : List ℕ
  pub store : ℕ → S
  pub options : AsyncOptions
  pub capacity : ℕ
  pub queue : List QueueItem
  pub stopping : Bool
  pub sleeping : Bool
  pub completed_flush_id : ℕ
  pub next_flush_id : ℕ
  pub dropped : ℕ
  pub failures : ℕ

-- The constructor, without the start of the worker; `none` is `std::invalid_argument`.
unfoldable pub async_dispatcher :
    {S : Type 0} → List ℕ → (ℕ → S) → AsyncOptions → Option (AsyncDispatcher S)
async_dispatcher sinks store options =
    let capacity = round_up_to_power_of_2 options.queue_capacity in
    if options.queue_capacity == 0 || options.batch_size == 0 || capacity == 0
    then none
    else some (record {
      sinks = sinks;
      store = store;
      options = options;
      capacity = capacity;
      queue = [];
      stopping = false;
      sleeping = false;
      completed_flush_id = 0;
      next_flush_id = 0;
      dropped = 0;
      failures = 0;
    })

module _ {S : Type 0} where
  -- `queue_->enqueue` where it succeeds, and `queue_->dequeue`.
  abbrev pub has_room : AsyncDispatcher S → Bool
  has_room d = ltb (length d.queue) d.capacity

  abbrev pub push : QueueItem → AsyncDispatcher S → AsyncDispatcher S
  push item d = record d { queue = d.queue ++ (item ∷ []) }

  abbrev pub with_queue : List QueueItem → AsyncDispatcher S → AsyncDispatcher S
  with_queue items d = record d { queue = items }

  -- A sleeping worker is woken.
  abbrev pub wake : AsyncDispatcher S → AsyncDispatcher S
  wake d = record d { sleeping = false }

  -- `dropped_events_.fetch_add(1)`
  abbrev pub drop_one : AsyncDispatcher S → AsyncDispatcher S
  drop_one d = record d { dropped = bump d.dropped }

  -- The loop that raises `completed_flush_id_` to an id.
  abbrev pub raise_completed : ℕ → AsyncDispatcher S → AsyncDispatcher S
  raise_completed id d = record d {
    completed_flush_id = if ltb d.completed_flush_id id then id else d.completed_flush_id;
  }

  -- `shutdown` before it joins the worker.
  unfoldable pub begin_shutdown : AsyncDispatcher S → AsyncDispatcher S
  begin_shutdown d =
      if d.stopping
      then d
      else record d { stopping = true; sleeping = false; completed_flush_id = 2 ^ 64 - 1 }
