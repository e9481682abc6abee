-- ===== src/MpscQueue/Concurrent.antt =====
-- include/logspine/detail/mpsc_queue.hpp with any number of threads that push and pop, their shared
-- accesses interleaved in any order. An access is one step, and sees what the last one left.
pub mod Invariant
pub mod Touch
pub mod Push
pub mod Publish
pub mod Pop
pub mod Release
pub mod Safety
pub mod Order
pub mod Holders
pub mod Quiet
mod Tests
use logspine.Prelude.{ℕ, ◌+◌, ◌%◌, ◌^◌, ◌<◌, ◌≡◌, Option, none, some, assign}
use logspine.MpscQueue.{MpscQueue, Slot, Dif, dif, next, index, word}

-- Where a call stands, with the local variables that are live there: `pos`, the sequence number that
-- was read, the item.
pub data Pc (T : Type 0) : Type 0 where
  idle : Pc T
  pushing : ℕ → T → Pc T
  push_seen : ℕ → ℕ → T → Pc T
  push_won : ℕ → T → Pc T
  push_stored : ℕ → Pc T
  popping : ℕ → Pc T
  pop_seen : ℕ → ℕ → Pc T
  pop_won : ℕ → Pc T
  pop_taken : ℕ → Option T → Pc T

-- What a slot is used for. The threads do not see this: it only records which of them won which
-- position. A slot waits for a position, or is being filled or emptied by a thread.
pub data Phase : Type 0 where
  free : ℕ → Phase
  claimed : ℕ → ℕ → Phase
  published : ℕ → Phase
  taking : ℕ → ℕ → Phase

-- `log` records the item of each position that a push won.
pub record System (T : Type 0) : Type 0 where
  pub queue : MpscQueue T
  pub pc : ℕ → Pc T
  pub phase : ℕ → Phase
  pub log : ℕ → Option T

module _ {T : Type 0} where
  abbrev pub with_pc : ℕ → Pc T → System T → System T
  with_pc i p s = record s { pc = assign s.pc i p }

  -- The slot of a position.
  abbrev pub cell : System T → ℕ → Slot T
  cell s pos = s.queue.buffer (index s.queue pos)

  -- A thread wins a position; it stores the item; it publishes the slot. The slot is number `k`.
  abbrev pub claim : ℕ → ℕ → T → ℕ → System T → System T
  claim i pos x k s = record s {
    queue = record (s.queue) { head = next pos };
    pc = assign s.pc i (push_won pos x);
    phase = assign s.phase k (claimed pos i);
    log = assign s.log pos (some x);
  }

  abbrev pub store_item : ℕ → ℕ → T → ℕ → System T → System T
  store_item i pos x k s = record s {
    queue = record (s.queue) {
      buffer = assign s.queue.buffer k (record (s.queue.buffer k) { value = some x });
    };
    pc = assign s.pc i (push_stored pos);
  }

  abbrev pub publish : ℕ → ℕ → ℕ → System T → System T
  publish i pos k s = record s {
    queue = record (s.queue) {
      buffer = assign s.queue.buffer k (record (s.queue.buffer k) { sequence = next pos });
    };
    pc = assign s.pc i idle;
    phase = assign s.phase k (published pos);
  }

  -- The same for a pop.
  abbrev pub win_pop : ℕ → ℕ → ℕ → System T → System T
  win_pop i pos k s = record s {
    queue = record (s.queue) { tail = next pos };
    pc = assign s.pc i (pop_won pos);
    phase = assign s.phase k (taking pos i);
  }

  abbrev pub take_item : ℕ → ℕ → ℕ → System T → System T
  take_item i pos k s = record s {
    queue = record (s.queue) {
      buffer = assign s.queue.buffer k (record (s.queue.buffer k) { value = none });
    };
    pc = assign s.pc i (pop_taken pos (s.queue.buffer k).value);
  }

  abbrev pub release : ℕ → ℕ → ℕ → System T → System T
  release i pos k s = record s {
    queue = record (s.queue) {
      buffer =
          assign s.queue.buffer k
            (record (s.queue.buffer k) { sequence = (pos + s.queue.buffer_mask + 1) % word });
    };
    pc = assign s.pc i idle;
    phase = assign s.phase k (free ((pos + s.queue.buffer_mask + 1) % word));
  }

-- One shared access of thread `i`. `compare_exchange_weak` may fail whether or not the position is
-- still the head, and then loads it. A full or empty queue ends the call.
pub data Step {T : Type 0} (s : System T) : System T → Type 0 where
  push_start : (i : ℕ) (x : T) → s.pc i ≡ idle → Step s (with_pc i (pushing s.queue.head x) s)
  push_look :
      (i pos : ℕ) (x : T)
      → s.pc i ≡ pushing pos x
      → Step s (with_pc i (push_seen pos (cell s pos).sequence x) s)
  push_win :
      (i pos sq : ℕ) (x : T)
      → s.pc i ≡ push_seen pos sq x
      → dif sq pos ≡ Dif.zero
      → s.queue.head ≡ pos
      → Step s (claim i pos x (index s.queue pos) s)
  push_lose :
      (i pos sq : ℕ) (x : T)
      → s.pc i ≡ push_seen pos sq x
      → dif sq pos ≡ Dif.zero
      → Step s (with_pc i (pushing s.queue.head x) s)
  push_full :
      (i pos sq : ℕ) (x : T)
      → s.pc i ≡ push_seen pos sq x
      → dif sq pos ≡ Dif.negative
      → Step s (with_pc i idle s)
  push_again :
      (i pos sq : ℕ) (x : T)
      → s.pc i ≡ push_seen pos sq x
      → dif sq pos ≡ Dif.positive
      → Step s (with_pc i (pushing s.queue.head x) s)
  push_store :
      (i pos : ℕ) (x : T)
      → s.pc i ≡ push_won pos x
      → Step s (store_item i pos x (index s.queue pos) s)
  push_publish :
      (i pos : ℕ) → s.pc i ≡ push_stored pos → Step s (publish i pos (index s.queue pos) s)
  pop_start : (i : ℕ) → s.pc i ≡ idle → Step s (with_pc i (popping s.queue.tail) s)
  pop_look :
      (i pos : ℕ) → s.pc i ≡ popping pos → Step s (with_pc i (pop_seen pos (cell s pos).sequence) s)
  pop_win :
      (i pos sq : ℕ)
      → s.pc i ≡ pop_seen pos sq
      → dif sq (next pos) ≡ Dif.zero
      → s.queue.tail ≡ pos
      → Step s (win_pop i pos (index s.queue pos) s)
  pop_lose :
      (i pos sq : ℕ)
      → s.pc i ≡ pop_seen pos sq
      → dif sq (next pos) ≡ Dif.zero
      → Step s (with_pc i (popping s.queue.tail) s)
  pop_empty :
      (i pos sq : ℕ)
      → s.pc i ≡ pop_seen pos sq
      → dif sq (next pos) ≡ Dif.negative
      → Step s (with_pc i idle s)
  pop_again :
      (i pos sq : ℕ)
      → s.pc i ≡ pop_seen pos sq
      → dif sq (next pos) ≡ Dif.positive
      → Step s (with_pc i (popping s.queue.tail) s)
  pop_take : (i pos : ℕ) → s.pc i ≡ pop_won pos → Step s (take_item i pos (index s.queue pos) s)
  pop_release :
      (i pos : ℕ) (v : Option T)
      → s.pc i ≡ pop_taken pos v
      → Step s (release i pos (index s.queue pos) s)

-- A queue as its constructor leaves it, before any call.
abbrev pub started : {T : Type 0} → MpscQueue T → System T
started q = record { queue = q; pc = λ i. idle; phase = free; log = λ p. none }

-- The states that any interleaving reaches from `o` while the positions stay below 2 ^ 63.
pub data Reach {T : Type 0} (size : ℕ) (o : System T) : System T → Type 0 where
  start : Reach size o o
  later :
      {s t : System T} → Reach size o s → Step s t → t.queue.head + size < 2 ^ 63 → Reach size o t
