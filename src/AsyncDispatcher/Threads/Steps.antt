-- ===== src/AsyncDispatcher/Threads/Steps.antt =====
-- The steps of the interleaved dispatcher.
use logspine.Prelude.{ℕ, ◌+◌, ◌-◌, ◌^◌, ◌≤◌, ◌<◌, ◌≡◌, true, false, List, [], ◌∷◌, ◌++◌, length}
use logspine.Event.{LogEvent}
use logspine.Dispatcher.{SinkClass}
use logspine.AsyncDispatcher.{
  AsyncDispatcher, QueueItem, event, flush_request, block, drop_newest, drop_oldest, has_room, wake,
  drop_one, raise_completed,
}
use logspine.AsyncDispatcher.Worker.{safe_write, safe_flush_sinks}
use logspine.AsyncDispatcher.Threads.{
  Caller, Pc, System, WorkerPc, awaiting, back_to, begin_flush, blocked, call_at, choosing,
  completing, deciding, dequeuing, dequeuing_again, draining, ended, event_loop, filling,
  finish_item, finishing, full, idle, in_hand, joining, looking, looping, no_room, overwrite_item,
  pop_item, push_item, pushing, queued, raising, refusing, request, requested, running, shed,
  sleeping, starting, stopped, test, took, trying, waking, with_shared, woken, work_at,
}

-- A caller goes on without changing anything: it is called, tests a flag, finds no room or no item,
-- or a wait ends.
pub data Move {S : Type 0} (d : AsyncDispatcher S) : Pc → Pc → Type 0 where
  dispatches : (e : LogEvent) → Move d idle (starting e)
  finds_stopping : (e : LogEvent) → d.stopping ≡ true → Move d (starting e) refusing
  starts : (e : LogEvent) → d.stopping ≡ false → Move d (starting e) (trying e)
  enters_loop : (e : LogEvent) → Move d (trying e) (looping e)
  has_no_room : (e : LogEvent) → Move d (looping e) (full e)
  full_stopping : (e : LogEvent) → d.stopping ≡ true → Move d (full e) refusing
  full_running : (e : LogEvent) → d.stopping ≡ false → Move d (full e) (choosing e)
  newest : (e : LogEvent) → d.options.overflow ≡ drop_newest → Move d (choosing e) refusing
  nothing_to_shed :
      (e : LogEvent) → d.options.overflow ≡ drop_oldest → Move d (choosing e) (looping e)
  blocks : (e : LogEvent) → d.options.overflow ≡ block → Move d (choosing e) (blocked e)
  tries_again : (e : LogEvent) → Move d (blocked e) (looping e)
  gives_up : (e : LogEvent) → 0 < d.options.block_retry_timeout → Move d (blocked e) refusing
  request_stopping :
      (id : ℕ) (a : Caller) → d.stopping ≡ true → Move d (request id a) (raising id a)
  request_running :
      (id : ℕ) (a : Caller) → d.stopping ≡ false → Move d (request id a) (pushing id a)
  request_full : (id : ℕ) (a : Caller) → Move d (pushing id a) (no_room id a)
  full_request_stopping :
      (id : ℕ) (a : Caller) → d.stopping ≡ true → Move d (no_room id a) (raising id a)
  waits_for_room : (id : ℕ) (a : Caller) → d.stopping ≡ false → Move d (no_room id a) (pushing id a)
  already_stopped : d.stopping ≡ true → Move d idle idle
  flush_returns : (id : ℕ) → id ≤ d.completed_flush_id → Move d (awaiting id) idle

-- A caller changes flags or counters.
pub data Write {S : Type 0} (d : AsyncDispatcher S) : Pc → AsyncDispatcher S → Pc → Type 0 where
  wakes : Write d queued (wake d) idle
  wakes_for : (id : ℕ) (a : Caller) → Write d (requested id a) (wake d) (back_to id a)
  refuses : Write d refusing (drop_one d) idle
  counts_event : (x e : LogEvent) → Write d (took (event x) e) (drop_one d) (looping e)
  counts_request :
      (id : ℕ) (e : LogEvent)
      → Write d (took (flush_request id) e) (drop_one d) (request id (event_loop e))
  raises : (id : ℕ) (a : Caller) → Write d (raising id a) (raise_completed id d) (back_to id a)
  stops : d.stopping ≡ false → Write d idle (record d { stopping = true }) stopped
  stop_wakes : Write d stopped (wake d) woken
  stop_raises : Write d woken (record d { completed_flush_id = 2 ^ 64 - 1 }) joining

-- A caller adds an item to the queue.
pub data Push : Pc → QueueItem → Pc → Type 0 where
  first_try : (e : LogEvent) → Push (trying e) (event e) queued
  in_loop : (e : LogEvent) → Push (looping e) (event e) queued
  of_request : (id : ℕ) (a : Caller) → Push (pushing id a) (flush_request id) (requested id a)

-- The worker goes on without changing anything.
pub data Turn {S : Type 0} (d : AsyncDispatcher S) : WorkerPc → WorkerPc → Type 0 where
  sees_stopping : d.stopping ≡ true → Turn d test (deciding [])
  sees_running : d.stopping ≡ false → Turn d test dequeuing
  finds_nothing : Turn d dequeuing sleeping
  finds_nothing_again : Turn d dequeuing_again looking
  looks_stopping : d.stopping ≡ true → Turn d looking (deciding [])
  waits : d.stopping ≡ false → Turn d looking test
  decides_to_drain : d.stopping ≡ true → Turn d (deciding []) (draining [])
  decides_to_fill : (p : ℕ) → d.stopping ≡ false → Turn d (deciding (p ∷ [])) (filling (p ∷ []))
  drained : (p : ℕ) (batch : List ℕ) → Turn d (draining (p ∷ batch)) (running (p ∷ batch))
  drained_all : Turn d (draining []) finishing
  filled : (batch : List ℕ) → Turn d (filling batch) (running batch)
  batch_done : Turn d (running []) test

-- The worker changes flags.
pub data Set {S : Type 0} (d : AsyncDispatcher S)
    : WorkerPc → AsyncDispatcher S → WorkerPc → Type 0 where
  falls_asleep : Set d sleeping (record d { sleeping = true }) dequeuing_again
  wakes_up : (p : ℕ) → Set d (waking p) (wake d) (deciding (p ∷ []))
  completes :
      (id : ℕ) (batch : List ℕ) → Set d (completing id batch) (raise_completed id d) (running batch)

-- The worker takes the item at a position from the queue.
pub data Pop (batch_size p : ℕ) : WorkerPc → WorkerPc → Type 0 where
  takes : Pop batch_size p dequeuing (deciding (p ∷ []))
  takes_again : Pop batch_size p dequeuing_again (waking p)
  drains :
      (batch : List ℕ)
      → length (batch ++ (p ∷ [])) < batch_size
      → Pop batch_size p (draining batch) (draining (batch ++ (p ∷ [])))
  drains_last :
      (batch : List ℕ)
      → batch_size ≤ length (batch ++ (p ∷ []))
      → Pop batch_size p (draining batch) (running (batch ++ (p ∷ [])))
  fills :
      (batch : List ℕ)
      → length batch < batch_size
      → Pop batch_size p (filling batch) (filling (batch ++ (p ∷ [])))

pub data Step {S : Type 0} (c : SinkClass S) (s : System S) : System S → Type 0 where
  moves : (i : ℕ) (p q : Pc) → s.pc i ≡ p → Move s.shared p q → Step c s (call_at i q s)
  writes :
      (i : ℕ) (p q : Pc) (d : AsyncDispatcher S)
      → s.pc i ≡ p
      → Write s.shared p d q
      → Step c s (call_at i q (with_shared d s))
  pushes :
      (i : ℕ) (p q : Pc) (item : QueueItem)
      → s.pc i ≡ p
      → Push p item q
      → has_room s.shared ≡ true
      → Step c s (call_at i q (push_item item s))
  sheds :
      (i : ℕ) (e : LogEvent) (first : QueueItem) (rest : List QueueItem)
      → s.pc i ≡ choosing e
      → s.shared.options.overflow ≡ drop_oldest
      → s.shared.queue ≡ first ∷ rest
      → Step c s (call_at i (took first e) (pop_item rest shed s))
  flushes : (i : ℕ) → s.pc i ≡ idle → Step c s (begin_flush i s)
  joins : (i : ℕ) → s.pc i ≡ joining → s.worker ≡ ended → Step c s (call_at i idle s)
  turns : (w v : WorkerPc) → s.worker ≡ w → Turn s.shared w v → Step c s (work_at v s)
  sets :
      (w v : WorkerPc) (d : AsyncDispatcher S)
      → s.worker ≡ w
      → Set s.shared w d v
      → Step c s (work_at v (with_shared d s))
  pops :
      (w v : WorkerPc) (first : QueueItem) (rest : List QueueItem)
      → s.worker ≡ w
      → Pop s.shared.options.batch_size s.tail w v
      → s.shared.queue ≡ first ∷ rest
      → Step c s (work_at v (pop_item rest in_hand s))
  overwrites :
      (p : ℕ)
      → s.worker ≡ deciding (p ∷ [])
      → s.shared.stopping ≡ true
      → Step c s (overwrite_item p s)
  runs_event :
      (p : ℕ) (batch : List ℕ) (e : LogEvent)
      → s.worker ≡ running (p ∷ batch)
      → s.log p ≡ event e
      → Step c s (finish_item p (safe_write c e s.shared) (running batch) s)
  runs_request :
      (p : ℕ) (batch : List ℕ) (id : ℕ)
      → s.worker ≡ running (p ∷ batch)
      → s.log p ≡ flush_request id
      → Step c s (finish_item p (safe_flush_sinks c s.shared) (completing id batch) s)
  finishes :
      s.worker ≡ finishing → Step c s (work_at ended (with_shared (safe_flush_sinks c s.shared) s))

-- A dispatcher as its constructor leaves it, before any call. The log is empty: it has an item for
-- every position from the first push on.
abbrev pub started : {S : Type 0} → QueueItem → AsyncDispatcher S → System S
started fresh d = record {
  shared = d;
  pc = λ i. idle;
  worker = test;
  log = λ p. fresh;
  head = 0;
  tail = 0;
  fate = λ p. in_hand;
  done = [];
  mark = λ id. 0;
}

-- The states that any interleaving reaches from `o` while the ids of flushes stay below 2 ^ 64 - 1.
pub data Reach {S : Type 0} (c : SinkClass S) (o : System S) : System S → Type 0 where
  start : Reach c o o
  later :
      {s t : System S}
      → Reach c o s
      → Step c s t
      → t.shared.next_flush_id + 1 < 2 ^ 64
      → Reach c o t
