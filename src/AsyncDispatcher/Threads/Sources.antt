-- ===== src/AsyncDispatcher/Threads/Sources.antt =====
-- The request behind `completed_flush_id_`, in every state until the dispatcher is told to stop.
use mathlib.Core.List.{Mem, mem-cons_self, mem-cons_of_mem}
use logspine.Prelude.{
  ℕ, suc, ◌≤◌, ◌<◌, ◌≡◌, ◌⊎◌, inl, inr, refl, sym, ap, subst, ◌∙◌, false, some, List, [], ◌∷◌,
  assign, assign_ne, arith,
}
use logspine.Dispatcher.{SinkClass}
use logspine.AsyncDispatcher.{AsyncDispatcher, QueueItem, flush_request}
use logspine.AsyncDispatcher.Worker.{safe_write, safe_flush_sinks}
use logspine.AsyncDispatcher.Threads.Kept.{
  Set-stopping, busy, Turn-busy, Set-busy, Pop-busy, Set-completed,
}
use logspine.AsyncDispatcher.Threads.{System, running}
use logspine.AsyncDispatcher.Threads.Steps.{
  started, Step, Reach, moves, writes, pushes, sheds, flushes, joins, turns, sets, pops, overwrites,
  runs_event, runs_request, finishes, start, later,
}
use logspine.AsyncDispatcher.Threads.Queue.{InQueue, length-Window, Reach-InQueue}
use logspine.AsyncDispatcher.Threads.Order.{InOrder, with_hand, Reach-InOrder}
use logspine.AsyncDispatcher.Threads.Callers.{late, Write-completed}
use logspine.AsyncDispatcher.Threads.Marks.{some_inj}
use logspine.AsyncDispatcher.Threads.Flush.{Flushed, none-some, Write-running, Reach-Flushed}

-- A request with the id has been processed.
abbrev pub Source : ℕ → (ℕ → QueueItem) → List ℕ → ℕ → Type 0
Source tail log done id = (q : ℕ) × (q < tail) × Mem q done × (log q ≡ flush_request id)

abbrev pub NoneOrSource : ℕ → (ℕ → QueueItem) → List ℕ → ℕ → Type 0
NoneOrSource tail log done id = (id ≡ 0) ⊎ Source tail log done id

module _ {tail : ℕ} {log : ℕ → QueueItem} {done : List ℕ} {id : ℕ} where
  Source-push :
      (head : ℕ) (item : QueueItem)
      → tail ≤ head
      → Source tail log done id
      → Source tail (assign log head item) done id
  Source-push head item l (q, out, m, e) =
      (q, out, m, assign_ne log head item q (λ x. omega arith) ∙ e)

  Source-pop : Source tail log done id → Source (suc tail) log done id
  Source-pop (q, out, m, e) = (q, omega arith, m, e)

  Source-done : (p : ℕ) → Source tail log done id → Source tail log (p ∷ done) id
  Source-done p (q, out, m, e) = (q, out, mem-cons_of_mem p m, e)

  or_none :
      {tail' : ℕ} {log' : ℕ → QueueItem} {done' : List ℕ}
      → (Source tail log done id → Source tail' log' done' id)
      → NoneOrSource tail log done id
      → NoneOrSource tail' log' done' id
  or_none f (inl e) = inl e
  or_none f (inr s) = inr (f s)

pub record Sourced {S : Type 0} (s : System S) : Type 0 where
  pub completing_done : (id : ℕ) → busy s.worker ≡ some id → Source s.tail s.log s.done id
  pub completed_done :
      s.shared.stopping ≡ false → NoneOrSource s.tail s.log s.done s.shared.completed_flush_id

module _ {S : Type 0} (c : SinkClass S) where
  pub Step-Sourced :
      {capacity : ℕ} {s t : System S}
      → Step c s t
      → InQueue capacity s
      → InOrder s
      → Flushed s
      → Sourced s
      → Sourced t
  unfolding safe_write safe_flush_sinks
  Step-Sourced (moves i p q at m) j k f h = record {
    completing_done = h.completing_done;
    completed_done = h.completed_done;
  }
  Step-Sourced {s = s} (writes i p q d at w) j k f h = record {
    completing_done = h.completing_done;
    completed_done = λ off.
        subst (NoneOrSource s.tail s.log s.done)
          (sym (Write-completed w (λ e. f.late_stopping i (ap late at ∙ e)) off))
          (h.completed_done (Write-running w off));
  }
  Step-Sourced {s = s} (pushes i p q item at m room) j k f h =
      let l = length-Window s.log s.tail s.shared.queue s.head j.window in
      record {
        completing_done =
            λ id e. Source-push s.head item (omega (arith, l)) (h.completing_done id e);
        completed_done =
            λ off. or_none (Source-push s.head item (omega (arith, l))) (h.completed_done off);
      }
  Step-Sourced (sheds i e first rest at o full) j k f h = record {
    completing_done = λ id x. Source-pop (h.completing_done id x);
    completed_done = λ off. or_none Source-pop (h.completed_done off);
  }
  Step-Sourced (flushes i at) j k f h = record {
    completing_done = h.completing_done;
    completed_done = h.completed_done;
  }
  Step-Sourced (joins i at e) j k f h = record {
    completing_done = h.completing_done;
    completed_done = h.completed_done;
  }
  Step-Sourced (turns w v at m) j k f h = record {
    completing_done = λ id e. absurd (none-some id (sym (Turn-busy m) ∙ e));
    completed_done = h.completed_done;
  }
  Step-Sourced {s = s} (sets w v d at m) j k f h = record {
    completing_done = λ id e. absurd (none-some id (sym (Set-busy m) ∙ e));
    completed_done = λ off. elim (Set-completed m) [
      | inl same ↦
          subst (NoneOrSource s.tail s.log s.done) (sym same)
            (h.completed_done (sym (Set-stopping m) ∙ off))
      | inr own ↦ inr (h.completing_done d.completed_flush_id (ap busy at ∙ own))
    ];
  }
  Step-Sourced (pops w v first rest at m full) j k f h = record {
    completing_done = λ id e. absurd (none-some id (sym (Pop-busy m) ∙ e));
    completed_done = λ off. or_none Source-pop (h.completed_done off);
  }
  Step-Sourced (overwrites p at on) j k f h = record {
    completing_done = λ id e. cc;
    completed_done = h.completed_done;
  }
  Step-Sourced (runs_event p batch e at l) j k f h = record {
    completing_done = λ id e. cc;
    completed_done = λ off. or_none (Source-done p) (h.completed_done off);
  }
  Step-Sourced {s = s} (runs_request p batch id at l) j k f h =
      let o = with_hand s (running (p ∷ batch)) (running (p ∷ batch)) at refl k in
      record {
        completing_done = λ x e.
            subst (Source s.tail s.log (p ∷ s.done)) (some_inj id x e)
              (p, o.hand.1, mem-cons_self {a = p} {l = s.done}, l);
        completed_done = λ off. or_none (Source-done p) (h.completed_done off);
      }
  Step-Sourced (finishes at) j k f h = record {
    completing_done = λ id e. cc;
    completed_done = h.completed_done;
  }

module _ {S : Type 0} (c : SinkClass S) (fresh : QueueItem) (d : AsyncDispatcher S) where
  pub Reach-Sourced :
      {s : System S}
      → d.queue ≡ []
      → d.next_flush_id ≡ 0
      → d.completed_flush_id ≡ 0
      → Reach c (started fresh d) s
      → Sourced s
  Reach-Sourced empty none_yet fresh_id start = record {
    completing_done = λ id e. cc;
    completed_done = λ off. inl fresh_id;
  }
  Reach-Sourced empty none_yet fresh_id (later r step below) =
      Step-Sourced c step (Reach-InQueue c fresh d empty r) (Reach-InOrder c fresh d r)
        (Reach-Flushed c fresh d empty none_yet fresh_id r)
        (Reach-Sourced empty none_yet fresh_id r)
