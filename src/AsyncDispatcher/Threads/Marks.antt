-- ===== src/AsyncDispatcher/Threads/Marks.antt =====
-- What a flush has to wait for, in every state: a request is in the log behind what had been pushed
-- when the flush got its id.
use native.Mathlib.Decide.{ℕ_discrete}
use logspine.Prelude.{
  ℕ, suc, ◌+◌, ◌^◌, ◌≤◌, ◌<◌, ◌≡◌, sym, ap, subst, ◌∙◌, ◌==◌, some, [], assign, assign_self,
  assign_ne, arith,
}
use logspine.Event.{LogEvent}
use logspine.Dispatcher.{SinkClass, bump}
use logspine.AsyncDispatcher.{AsyncDispatcher, QueueItem, event, flush_request}
use logspine.AsyncDispatcher.Worker.{safe_write, safe_flush_sinks}
use logspine.AsyncDispatcher.Threads.Kept.{Write-Kept, Set-Kept, if_cases}
use logspine.AsyncDispatcher.Threads.{System, Pc, idle, took, request, flush_wait}
use logspine.AsyncDispatcher.Threads.Steps.{
  started, Step, Reach, moves, writes, pushes, sheds, flushes, joins, turns, sets, pops, overwrites,
  runs_event, runs_request, finishes, start, later,
}
use logspine.AsyncDispatcher.Threads.Queue.{InQueue, Window-pop, length-Window, Reach-InQueue}
use logspine.AsyncDispatcher.Threads.Callers.{
  asked, Move-asked, Write-asked, Push-asked, Push-request,
}

pub record Marked (next head : ℕ) (log : ℕ → QueueItem) (mark : ℕ → ℕ) (pc : ℕ → Pc) : Type 0 where
  pub ascending : (a b : ℕ) → a ≤ b → b ≤ next → mark a ≤ mark b
  pub before_head : (a : ℕ) → a ≤ next → mark a ≤ head
  pub requests : (p id : ℕ) → p < head → log p ≡ flush_request id → (id ≤ next) × (mark id ≤ p)
  pub asked_next : (i id : ℕ) → asked (pc i) ≡ some id → id ≤ next

pub some_inj : (a b : ℕ) → some a ≡ some b → a ≡ b
some_inj a b h = cc

-- What holds of the new value and of the others holds of all.
pub assign_cases :
    {A : Type 0} (P : A → Type 0) (f : ℕ → A) (i : ℕ) (a : A) (j : ℕ)
    → P a
    → P (f j)
    → P (assign f i a j)
assign_cases P f i a j = if_cases P (i == j) a (f j)

module _ {next head : ℕ} {log : ℕ → QueueItem} {mark : ℕ → ℕ} {pc : ℕ → Pc} where
  Marked-call :
      (i : ℕ) (q : Pc)
      → ((id : ℕ) → asked q ≡ some id → id ≤ next)
      → Marked next head log mark pc
      → Marked next head log mark (assign pc i q)
  Marked-call i q new h = record {
    ascending = h.ascending;
    before_head = h.before_head;
    requests = h.requests;
    asked_next = λ j id.
        assign_cases (λ p. asked p ≡ some id → id ≤ next) pc i q j (new id) (h.asked_next j id);
  }

  Marked-push :
      (item : QueueItem)
      → ((id : ℕ) → item ≡ flush_request id → id ≤ next)
      → Marked next head log mark pc
      → Marked next (suc head) (assign log head item) mark pc
  Marked-push item new h = record {
    ascending = h.ascending;
    before_head = λ a l. omega (arith, h.before_head a l);
    requests = λ p id l e. elim (ℕ_discrete p head) [
      | yes last ↦ (
        new id (sym (assign_self log head item p (sym last)) ∙ e),
        omega (
          arith,
          last,
          h.before_head id (new id (sym (assign_self log head item p (sym last)) ∙ e)),
        ),
      )
      | no ne ↦ h.requests p id (omega arith) (sym (assign_ne log head item p ne) ∙ e)
    ];
    asked_next = h.asked_next;
  }

  Marked-flush :
      (i : ℕ)
      → Marked next head log mark pc
      → Marked
          (suc next)
          head
          log
          (assign mark (suc next) head)
          (assign pc i (request (suc next) flush_wait))
  Marked-flush i h = record {
    ascending = λ a b l m. ground (arith, h.ascending a b, h.before_head a);
    before_head = λ a l. ground (arith, h.before_head a);
    requests = λ p id l e. (
      omega (arith, (h.requests p id l e).0),
      subst (λ n. n ≤ p)
          (sym (assign_ne mark (suc next) head id (λ x. omega (arith, x, (h.requests p id l e).0))))
          (h.requests p id l e).1,
    );
    asked_next = λ j id.
        assign_cases (λ p. asked p ≡ some id → id ≤ suc next) pc i (request (suc next) flush_wait) j
          (λ e. omega (arith, some_inj (suc next) id e)) (λ e. omega (arith, h.asked_next j id e));
  }

pub bump-suc : (n : ℕ) → n + 1 < 2 ^ 64 → bump n ≡ suc n
bump-suc n h = omega arith

took-asked :
    (first : QueueItem) (e : LogEvent) (id : ℕ)
    → asked (took first e) ≡ some id
    → first ≡ flush_request id
took-asked (event x) e id h = cc
took-asked (flush_request k) e id h = ap flush_request (some_inj k id h)

abbrev pub InMarks : {S : Type 0} → System S → Type 0
InMarks s = Marked s.shared.next_flush_id s.head s.log s.mark s.pc

module _ {S : Type 0} (c : SinkClass S) where
  pub Step-InMarks :
      {capacity : ℕ} {s t : System S}
      → Step c s t
      → s.shared.next_flush_id + 1 < 2 ^ 64
      → InQueue capacity s
      → InMarks s
      → InMarks t
  unfolding safe_write safe_flush_sinks
  Step-InMarks (moves i p q at m) b j h =
      Marked-call i q (λ id e. h.asked_next i id (ap asked at ∙ Move-asked m e)) h
  Step-InMarks {s = s} (writes i p q d at w) b j h =
      subst (λ n. Marked n s.head s.log s.mark (assign s.pc i q)) (sym (Write-Kept w).next_flush_id)
        (Marked-call i q (λ id e. h.asked_next i id (ap asked at ∙ Write-asked w e)) h)
  Step-InMarks (pushes i p q item at m room) b j h =
      Marked-call i q (λ id e. h.asked_next i id (ap asked at ∙ Push-asked m e))
        (Marked-push item (λ id e. h.asked_next i id (ap asked at ∙ Push-request m e)) h)
  Step-InMarks {s = s} (sheds i e first rest at o full) b j h =
      let w = Window-pop s.log s.tail s.shared.queue s.head first rest full j.window in
      let l = length-Window s.log (suc s.tail) rest s.head w.1 in
      Marked-call i (took first e)
        (λ id k. (h.requests s.tail id (omega (arith, l)) (w.0 ∙ took-asked first e id k)).0) h
  Step-InMarks {s = s} (flushes i at) b j h =
      subst
        (λ n. Marked n s.head s.log (assign s.mark n s.head) (assign s.pc i (request n flush_wait)))
        (sym (bump-suc s.shared.next_flush_id b)) (Marked-flush i h)
  Step-InMarks (joins i at e) b j h = Marked-call i idle (λ id e. cc) h
  Step-InMarks (turns w v at m) b j h = h
  Step-InMarks {s = s} (sets w v d at m) b j h =
      subst (λ n. Marked n s.head s.log s.mark s.pc) (sym (Set-Kept m).next_flush_id) h
  Step-InMarks (pops w v first rest at m full) b j h = h
  Step-InMarks (overwrites p at on) b j h = h
  Step-InMarks (runs_event p batch e at l) b j h = h
  Step-InMarks (runs_request p batch id at l) b j h = h
  Step-InMarks (finishes at) b j h = h

module _ {S : Type 0} (c : SinkClass S) (fresh : QueueItem) (d : AsyncDispatcher S) where
  pub Reach-next :
      {s : System S}
      → d.next_flush_id ≡ 0
      → Reach c (started fresh d) s
      → s.shared.next_flush_id + 1 < 2 ^ 64
  Reach-next none_yet start = omega (arith, none_yet)
  Reach-next none_yet (later r step below) = below

  pub Reach-InMarks :
      {s : System S} → d.queue ≡ [] → d.next_flush_id ≡ 0 → Reach c (started fresh d) s → InMarks s
  Reach-InMarks empty none_yet start = record {
    ascending = λ a b l m. omega arith;
    before_head = λ a l. omega arith;
    requests = λ p id l e. absurd (omega (arith, l));
    asked_next = λ i id e. cc;
  }
  Reach-InMarks empty none_yet (later r step below) =
      Step-InMarks c step (Reach-next none_yet r) (Reach-InQueue c fresh d empty r)
        (Reach-InMarks empty none_yet r)
