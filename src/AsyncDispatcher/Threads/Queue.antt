-- ===== src/AsyncDispatcher/Threads/Queue.antt =====
-- The queue is a window of the log, and never longer than its capacity.
use logspine.Prelude.{
  ℕ, suc, ◌+◌, ◌≤◌, ◌≡◌, refl, sym, ap, subst, ◌∙◌, true, List, [], ◌∷◌, ◌++◌, length, assign,
  assign_self, assign_ne, arith, ltb→lt, length-append,
}
use logspine.Dispatcher.{SinkClass}
use logspine.AsyncDispatcher.{AsyncDispatcher, QueueItem, has_room}
use logspine.AsyncDispatcher.Worker.{safe_write, safe_flush_sinks}
use logspine.AsyncDispatcher.Threads.Kept.{Kept, Write-Kept, Set-Kept}
use logspine.AsyncDispatcher.Threads.{System, Fate, in_hand, shed, with_shared, pop_item, push_item}
use logspine.AsyncDispatcher.Threads.Steps.{
  started, Step, Reach, moves, writes, pushes, sheds, flushes, joins, turns, sets, pops, overwrites,
  runs_event, runs_request, finishes, start, later,
}

-- The list has the items of the positions from `tail` up to `head`.
abbrev pub Window : (ℕ → QueueItem) → ℕ → List QueueItem → ℕ → Type 0
Window log tail [] head = tail ≡ head
Window log tail (x ∷ xs) head = (log tail ≡ x) × Window log (suc tail) xs head

pub length-Window :
    (log : ℕ → QueueItem) (tail : ℕ) (xs : List QueueItem) (head : ℕ)
    → Window log tail xs head
    → tail + length xs ≡ head
length-Window log tail [] head h = omega arith
length-Window log tail (x ∷ xs) head h = omega (arith, length-Window log (suc tail) xs head h.1)

Window-push :
    (log : ℕ → QueueItem) (tail : ℕ) (xs : List QueueItem) (head : ℕ) (item : QueueItem)
    → Window log tail xs head
    → Window (assign log head item) tail (xs ++ (item ∷ [])) (suc head)
Window-push log tail [] head item h = (assign_self log head item tail (sym h), ap suc h)
Window-push log tail (x ∷ xs) head item h = (
  assign_ne log head item tail (λ e. omega (arith, length-Window log (suc tail) xs head h.1)) ∙ h.0,
  Window-push log (suc tail) xs head item h.1,
)

pub Window-pop :
    (log : ℕ → QueueItem) (tail : ℕ) (xs : List QueueItem) (head : ℕ) (first : QueueItem)
    (rest : List QueueItem)
    → xs ≡ first ∷ rest
    → Window log tail xs head
    → Window log tail (first ∷ rest) head
Window-pop log tail xs head first rest e h = subst (λ ys. Window log tail ys head) e h

pub record InQueue {S : Type 0} (capacity : ℕ) (s : System S) : Type 0 where
  pub window : Window s.log s.tail s.shared.queue s.head
  pub room : length s.shared.queue ≤ capacity
  pub fixed : s.shared.capacity ≡ capacity

module _ {S : Type 0} {capacity : ℕ} where
  -- What changes neither the queue nor its capacity.
  with_shared-InQueue :
      (s : System S) (d : AsyncDispatcher S)
      → Kept s.shared d
      → InQueue capacity s
      → InQueue capacity (with_shared d s)
  with_shared-InQueue s d k h = record {
    window = subst (λ xs. Window s.log s.tail xs s.head) (sym k.queue) h.window;
    room = ground (arith, h.room, k.queue);
    fixed = k.capacity ∙ h.fixed;
  }

  pop_item-InQueue :
      (s : System S) (first : QueueItem) (rest : List QueueItem) (f : Fate)
      → s.shared.queue ≡ first ∷ rest
      → InQueue capacity s
      → InQueue capacity (pop_item rest f s)
  pop_item-InQueue s first rest f full h = record {
    window = (Window-pop s.log s.tail s.shared.queue s.head first rest full h.window).1;
    room = omega (arith, h.room, ap length full);
    fixed = h.fixed;
  }

  push_item-InQueue :
      (s : System S) (item : QueueItem)
      → has_room s.shared ≡ true
      → InQueue capacity s
      → InQueue capacity (push_item item s)
  push_item-InQueue s item room h = record {
    window = Window-push s.log s.tail s.shared.queue s.head item h.window;
    room = omega (
      arith,
      length-append s.shared.queue (item ∷ []),
      ltb→lt (length s.shared.queue) s.shared.capacity room,
      h.fixed,
    );
    fixed = h.fixed;
  }

  Step-InQueue :
      (c : SinkClass S) {s t : System S} → Step c s t → InQueue capacity s → InQueue capacity t
  unfolding safe_write safe_flush_sinks
  Step-InQueue c (moves i p q at m) h = record { window = h.window; room = h.room; fixed = h.fixed }
  Step-InQueue c (writes i p q d at w) h =
      let k = with_shared-InQueue _ d (Write-Kept w) h in
      record { window = k.window; room = k.room; fixed = k.fixed }
  Step-InQueue c (pushes i p q item at m room) h =
      let k = push_item-InQueue _ item room h in
      record { window = k.window; room = k.room; fixed = k.fixed }
  Step-InQueue c (sheds i e first rest at o full) h =
      let k = pop_item-InQueue _ first rest shed full h in
      record { window = k.window; room = k.room; fixed = k.fixed }
  Step-InQueue c (flushes i at) h = record { window = h.window; room = h.room; fixed = h.fixed }
  Step-InQueue c (joins i at e) h = record { window = h.window; room = h.room; fixed = h.fixed }
  Step-InQueue c (turns w v at m) h = record { window = h.window; room = h.room; fixed = h.fixed }
  Step-InQueue c (sets w v d at m) h =
      let k = with_shared-InQueue _ d (Set-Kept m) h in
      record { window = k.window; room = k.room; fixed = k.fixed }
  Step-InQueue c (pops w v first rest at m full) h =
      let k = pop_item-InQueue _ first rest in_hand full h in
      record { window = k.window; room = k.room; fixed = k.fixed }
  Step-InQueue c (overwrites p at m) h = record {
    window = h.window;
    room = h.room;
    fixed = h.fixed;
  }
  Step-InQueue c (runs_event p batch e at l) h = record {
    window = h.window;
    room = h.room;
    fixed = h.fixed;
  }
  Step-InQueue c (runs_request p batch id at l) h = record {
    window = h.window;
    room = h.room;
    fixed = h.fixed;
  }
  Step-InQueue c (finishes at) h = record { window = h.window; room = h.room; fixed = h.fixed }

module _ {S : Type 0} (c : SinkClass S) (fresh : QueueItem) (d : AsyncDispatcher S) where
  -- Whatever the callers and the worker do, and in whatever order, starting from a dispatcher with
  -- an empty queue, while the ids of flushes stay below 2 ^ 64 - 1: the queue has the items of the
  -- last pushes in the order of the pushes, and no more than its capacity, which stays.
  pub Reach-InQueue :
      {s : System S} → d.queue ≡ [] → Reach c (started fresh d) s → InQueue d.capacity s
  Reach-InQueue empty start = record {
    window = subst (λ xs. Window (λ p. fresh) 0 xs 0) (sym empty) refl;
    room = ground (arith, empty);
    fixed = refl;
  }
  Reach-InQueue empty (later r step below) = Step-InQueue c step (Reach-InQueue empty r)
