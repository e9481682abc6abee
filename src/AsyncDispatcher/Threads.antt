-- ===== src/AsyncDispatcher/Threads.antt =====
-- src/async_dispatcher.cpp with any number of callers and the worker, their accesses to what they
-- share interleaved in any order. A call of the queue is one step; it may fail whether or not the
-- queue is full or empty, as it does while another call is under way. A wait may end at any time, so
-- the mutex and the conditions leave no trace here.
pub mod Steps
pub mod Kept
pub mod Queue
pub mod Hand
pub mod Ordered
pub mod Order
pub mod Replay
pub mod Callers
pub mod Marks
pub mod Flush
pub mod Sources
pub mod Covers
pub mod Balance
pub mod Dispatches
mod Tests
use logspine.Prelude.{
  ℕ, suc, ◌+◌, ◌-◌, ◌^◌, ◌≤◌, ◌<◌, ◌≡◌, Bool, true, false, List, [], ◌∷◌, ◌++◌, length, assign,
}
use logspine.Event.{LogEvent}
use logspine.Dispatcher.{SinkClass, bump}
use logspine.AsyncDispatcher.{
  AsyncDispatcher, QueueItem, event, flush_request, OverflowPolicy, block, drop_newest, drop_oldest,
  has_room, push, with_queue, wake, drop_one, raise_completed,
}
use logspine.AsyncDispatcher.Worker.{safe_write, safe_flush_sinks}

-- What a call of `enqueue_flush_request` goes back to: the loop of `enqueue_event`, or the wait of
-- `flush`.
pub data Caller : Type 0 where
  event_loop : LogEvent → Caller
  flush_wait : Caller

-- Where a caller stands: in `enqueue_event`, in `enqueue_flush_request`, in `flush`, in `shutdown`.
pub data Pc : Type 0 where
  idle : Pc
  starting : LogEvent → Pc
  trying : LogEvent → Pc
  queued : Pc
  looping : LogEvent → Pc
  full : LogEvent → Pc
  choosing : LogEvent → Pc
  blocked : LogEvent → Pc
  took : QueueItem → LogEvent → Pc
  refusing : Pc
  request : ℕ → Caller → Pc
  pushing : ℕ → Caller → Pc
  no_room : ℕ → Caller → Pc
  raising : ℕ → Caller → Pc
  requested : ℕ → Caller → Pc
  awaiting : ℕ → Pc
  stopped : Pc
  woken : Pc
  joining : Pc

abbrev pub back_to : ℕ → Caller → Pc
back_to id (event_loop e) = looping e
back_to id flush_wait = awaiting id

-- Where the worker stands, with `item` and `batch` as the positions of what they hold.
pub data WorkerPc : Type 0 where
  test : WorkerPc
  dequeuing : WorkerPc
  sleeping : WorkerPc
  dequeuing_again : WorkerPc
  waking : ℕ → WorkerPc
  looking : WorkerPc
  deciding : List ℕ → WorkerPc
  draining : List ℕ → WorkerPc
  filling : List ℕ → WorkerPc
  running : List ℕ → WorkerPc
  completing : ℕ → List ℕ → WorkerPc
  finishing : WorkerPc
  ended : WorkerPc

abbrev pub held : WorkerPc → List ℕ
held (waking p) = p ∷ []
held (deciding item) = item
held (draining batch) = batch
held (filling batch) = batch
held (running batch) = batch
held (completing id batch) = batch
held w = []

-- What became of an item that has left the queue: the worker holds it, has processed it, or has
-- overwritten it, or a caller removed it to make room.
pub data Fate : Type 0 where
  in_hand processed overwritten shed : Fate

-- Behind `worker` nothing is seen by the code. Items have the numbers of their pushes; those from
-- `tail` on are in the queue. `done` are the processed ones, the last first, and `mark` has the
-- number of items that had been pushed when a flush got its id.
pub record System (S : Type 0) : Type 0 where
  pub shared : AsyncDispatcher S
  pub pc : ℕ → Pc
  pub worker : WorkerPc
  pub log : ℕ → QueueItem
  pub head : ℕ
  pub tail : ℕ
  pub fate : ℕ → Fate
  pub done : List ℕ
  pub mark : ℕ → ℕ

module _ {S : Type 0} where
  abbrev pub call_at : ℕ → Pc → System S → System S
  call_at i p s = record s { pc = assign s.pc i p }

  abbrev pub with_shared : AsyncDispatcher S → System S → System S
  with_shared d s = record s { shared = d }

  abbrev pub work_at : WorkerPc → System S → System S
  work_at w s = record s { worker = w }

  abbrev pub push_item : QueueItem → System S → System S
  push_item item s = record s {
    shared = push item s.shared;
    log = assign s.log s.head item;
    head = suc s.head;
  }

  abbrev pub pop_item : List QueueItem → Fate → System S → System S
  pop_item rest f s = record s {
    shared = with_queue rest s.shared;
    tail = suc s.tail;
    fate = assign s.fate s.tail f;
  }

  -- `flush` gets its id.
  abbrev pub begin_flush : ℕ → System S → System S
  begin_flush i s =
      let id = bump s.shared.next_flush_id in
      record s {
        shared = record (s.shared) { next_flush_id = id };
        pc = assign s.pc i (request id flush_wait);
        mark = assign s.mark id s.head;
      }

  -- The worker is through with an item.
  abbrev pub finish_item : ℕ → AsyncDispatcher S → WorkerPc → System S → System S
  finish_item p d w s = record s {
    shared = d;
    worker = w;
    fate = assign s.fate p processed;
    done = p ∷ s.done;
  }

  -- The worker overwrites its item.
  abbrev pub overwrite_item : ℕ → System S → System S
  overwrite_item p s = record s { worker = draining []; fate = assign s.fate p overwritten }
