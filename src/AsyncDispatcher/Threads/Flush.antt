-- ===== src/AsyncDispatcher/Threads/Flush.antt =====
-- What `completed_flush_id_` says, in every state until the dispatcher is told to stop.
use logspine.Prelude.{
  ℕ, suc, ◌+◌, ◌^◌, ◌≤◌, ◌<◌, ◌≡◌, ◌≢◌, inl, inr, refl, sym, ap, subst, ◌∙◌, true, false, none,
  some, List, [], ◌∷◌, assign, assign_ne, arith, Bool-cases,
}
use logspine.Dispatcher.{SinkClass}
use logspine.AsyncDispatcher.{AsyncDispatcher, QueueItem}
use logspine.AsyncDispatcher.Worker.{safe_write, safe_flush_sinks}
use logspine.AsyncDispatcher.Threads.Kept.{
  Write-Kept, Set-Kept, Write-stopping, Set-stopping, busy, Turn-busy, Set-busy, Pop-busy,
  Set-completed,
}
use logspine.AsyncDispatcher.Threads.{
  System, Fate, Pc, in_hand, processed, shed, overwritten, idle, took, running,
}
use logspine.AsyncDispatcher.Threads.Steps.{
  started, Write, Step, Reach, moves, writes, pushes, sheds, flushes, joins, turns, sets, pops,
  overwrites, runs_event, runs_request, finishes, start, later,
}
use logspine.AsyncDispatcher.Threads.Queue.{InQueue, length-Window, Reach-InQueue}
use logspine.AsyncDispatcher.Threads.Hand.{Held-settled}
use logspine.AsyncDispatcher.Threads.Ordered.{Ordered}
use logspine.AsyncDispatcher.Threads.Order.{InOrder, with_hand, Reach-InOrder}
use logspine.AsyncDispatcher.Threads.Callers.{
  late, Move-late, Write-late, Write-completed, Push-late, both,
}
use logspine.AsyncDispatcher.Threads.Marks.{
  InMarks, assign_cases, some_inj, bump-suc, Reach-next, Reach-InMarks,
}

-- The items before a position have left the queue, and the worker does not hold them.
abbrev pub Settled : ℕ → (ℕ → Fate) → ℕ → Type 0
Settled tail fate n = (p : ℕ) → p < n → (p < tail) × (fate p ≢ in_hand)

module _ (tail : ℕ) (fate : ℕ → Fate) (n : ℕ) where
  Settled-pop : (f : Fate) → Settled tail fate n → Settled (suc tail) (assign fate tail f) n
  Settled-pop f h p l = (
    omega (arith, (h p l).0),
    λ e. (h p l).1 (sym (assign_ne fate tail f p (λ x. omega (arith, x, (h p l).0))) ∙ e),
  )

  Settled-through :
      (q : ℕ) (f : Fate) → f ≢ in_hand → Settled tail fate n → Settled tail (assign fate q f) n
  Settled-through q f ne h p l =
      ((h p l).0, assign_cases (λ g. g ≢ in_hand) fate q f p ne (h p l).1)

-- The id is one that a flush has got, and what it waits for is settled.
abbrev pub Waited : ℕ → ℕ → (ℕ → Fate) → (ℕ → ℕ) → ℕ → Type 0
Waited next tail fate mark id = (id ≤ next) × Settled tail fate (mark id)

pub record Flushed {S : Type 0} (s : System S) : Type 0 where
  pub late_stopping : (i : ℕ) → late (s.pc i) ≡ true → s.shared.stopping ≡ true
  pub completing_waited :
      (id : ℕ) → busy s.worker ≡ some id → Waited s.shared.next_flush_id s.tail s.fate s.mark id
  pub completed_waited :
      s.shared.stopping ≡ false
      → Waited s.shared.next_flush_id s.tail s.fate s.mark s.shared.completed_flush_id

-- Another flush gets its id.
Waited-flush :
    (next tail : ℕ) (fate : ℕ → Fate) (mark : ℕ → ℕ) (id n head : ℕ)
    → n ≡ suc next
    → Waited next tail fate mark id
    → Waited n tail fate (assign mark n head) id
Waited-flush next tail fate mark id n head e h = (
  omega (arith, e, h.0),
  subst (Settled tail fate) (sym (assign_ne mark n head id (λ x. omega (arith, x, e, h.0)))) h.1,
)

-- The worker has processed a request, which is behind what its flush waits for.
Waited-process :
    (next tail : ℕ) (fate : ℕ → Fate) (mark : ℕ → ℕ) (done : List ℕ) (p : ℕ) (batch : List ℕ)
    (id : ℕ)
    → Ordered tail fate done (p ∷ batch)
    → (id ≤ next) × (mark id ≤ p)
    → Waited next tail (assign fate p processed) mark id
Waited-process next tail fate mark done p batch id o h = (
  h.0,
  Settled-through tail fate (mark id) p processed (λ x. cc)
      (λ q l. (
        omega (arith, h.1, o.hand.1),
        Held-settled tail fate 0 (p ∷ batch) o.hand q (omega arith) (omega (arith, h.1)),
      )),
)

pub Write-running :
    {S : Type 0} {d d' : AsyncDispatcher S} {p q : Pc}
    → Write d p d' q
    → d'.stopping ≡ false
    → d.stopping ≡ false
Write-running {d = d} w off = elim (Bool-cases d.stopping) [
  | inl on ↦ absurd (both (Write-stopping w on) off)
  | inr still ↦ still
]

pub none-some : (id : ℕ) → none ≢ some id
none-some id e = cc

module _ {S : Type 0} (c : SinkClass S) where
  pub Step-Flushed :
      {capacity : ℕ} {s t : System S}
      → Step c s t
      → s.shared.next_flush_id + 1 < 2 ^ 64
      → InQueue capacity s
      → InOrder s
      → InMarks s
      → Flushed s
      → Flushed t
  unfolding safe_write safe_flush_sinks
  Step-Flushed {s = s} (moves i p q at m) b j k r h = record {
    late_stopping = λ n.
        assign_cases (λ p. late p ≡ true → s.shared.stopping ≡ true) s.pc i q n (Move-late m)
          (h.late_stopping n);
    completing_waited = h.completing_waited;
    completed_waited = h.completed_waited;
  }
  Step-Flushed {s = s} (writes i p q d at w) b j k r h = record {
    late_stopping = λ n.
        assign_cases (λ p. late p ≡ true → d.stopping ≡ true) s.pc i q n
          (Write-late w (λ e. h.late_stopping i (ap late at ∙ e)))
          (λ e. Write-stopping w (h.late_stopping n e));
    completing_waited = λ id e.
        subst (λ n. Waited n s.tail s.fate s.mark id) (sym (Write-Kept w).next_flush_id)
          (h.completing_waited id e);
    completed_waited = λ off.
        subst (λ n. Waited n s.tail s.fate s.mark d.completed_flush_id)
          (sym (Write-Kept w).next_flush_id)
          (subst (Waited s.shared.next_flush_id s.tail s.fate s.mark)
            (sym (Write-completed w (λ e. h.late_stopping i (ap late at ∙ e)) off))
            (h.completed_waited (Write-running w off)));
  }
  Step-Flushed {s = s} (pushes i p q item at m room) b j k r h = record {
    late_stopping = λ n.
        assign_cases (λ p. late p ≡ true → s.shared.stopping ≡ true) s.pc i q n
          (λ e. absurd (Push-late m e)) (h.late_stopping n);
    completing_waited = h.completing_waited;
    completed_waited = h.completed_waited;
  }
  Step-Flushed {s = s} (sheds i e first rest at o full) b j k r h = record {
    late_stopping = λ n.
        assign_cases (λ p. late p ≡ true → s.shared.stopping ≡ true) s.pc i (took first e) n
          (λ x. cc) (h.late_stopping n);
    completing_waited = λ id x. (
      (h.completing_waited id x).0,
      Settled-pop s.tail s.fate _ shed (h.completing_waited id x).1,
    );
    completed_waited = λ off.
        ((h.completed_waited off).0, Settled-pop s.tail s.fate _ shed (h.completed_waited off).1);
  }
  Step-Flushed {s = s} (flushes i at) b j k r h = record {
    late_stopping = λ n.
        assign_cases (λ p. late p ≡ true → s.shared.stopping ≡ true) s.pc i _ n (λ e. cc)
          (h.late_stopping n);
    completing_waited = λ id e.
        Waited-flush _ s.tail s.fate s.mark id _ s.head (bump-suc s.shared.next_flush_id b)
          (h.completing_waited id e);
    completed_waited = λ off.
        Waited-flush _ s.tail s.fate s.mark _ _ s.head (bump-suc s.shared.next_flush_id b)
          (h.completed_waited off);
  }
  Step-Flushed {s = s} (joins i at e) b j k r h = record {
    late_stopping = λ n.
        assign_cases (λ p. late p ≡ true → s.shared.stopping ≡ true) s.pc i idle n (λ e. cc)
          (h.late_stopping n);
    completing_waited = h.completing_waited;
    completed_waited = h.completed_waited;
  }
  Step-Flushed (turns w v at m) b j k r h = record {
    late_stopping = h.late_stopping;
    completing_waited = λ id e. absurd (none-some id (sym (Turn-busy m) ∙ e));
    completed_waited = h.completed_waited;
  }
  Step-Flushed {s = s} (sets w v d at m) b j k r h = record {
    late_stopping = λ n e. Set-stopping m ∙ h.late_stopping n e;
    completing_waited = λ id e. absurd (none-some id (sym (Set-busy m) ∙ e));
    completed_waited = λ off.
        subst (λ n. Waited n s.tail s.fate s.mark d.completed_flush_id)
          (sym (Set-Kept m).next_flush_id)
          (elim (Set-completed m) [
            | inl same ↦
                subst (Waited s.shared.next_flush_id s.tail s.fate s.mark) (sym same)
                  (h.completed_waited (sym (Set-stopping m) ∙ off))
            | inr own ↦ h.completing_waited d.completed_flush_id (ap busy at ∙ own)
          ]);
  }
  Step-Flushed {s = s} (pops w v first rest at m full) b j k r h = record {
    late_stopping = h.late_stopping;
    completing_waited = λ id e. absurd (none-some id (sym (Pop-busy m) ∙ e));
    completed_waited = λ off. (
      (h.completed_waited off).0,
      Settled-pop s.tail s.fate _ in_hand (h.completed_waited off).1,
    );
  }
  Step-Flushed {s = s} (overwrites p at on) b j k r h = record {
    late_stopping = h.late_stopping;
    completing_waited = λ id e. cc;
    completed_waited = λ off. (
      (h.completed_waited off).0,
      Settled-through s.tail s.fate _ p overwritten (λ x. cc) (h.completed_waited off).1,
    );
  }
  Step-Flushed {s = s} (runs_event p batch e at l) b j k r h = record {
    late_stopping = h.late_stopping;
    completing_waited = λ id e. cc;
    completed_waited = λ off. (
      (h.completed_waited off).0,
      Settled-through s.tail s.fate _ p processed (λ x. cc) (h.completed_waited off).1,
    );
  }
  Step-Flushed {s = s} (runs_request p batch id at l) b j k r h =
      let o = with_hand s (running (p ∷ batch)) (running (p ∷ batch)) at refl k in
      let l' = length-Window s.log s.tail s.shared.queue s.head j.window in
      record {
        late_stopping = h.late_stopping;
        completing_waited = λ x e.
            subst (Waited s.shared.next_flush_id s.tail (assign s.fate p processed) s.mark)
              (some_inj id x e)
              (Waited-process s.shared.next_flush_id s.tail s.fate s.mark s.done p batch id o
                (r.requests p id (omega (arith, o.hand.1, l')) l));
        completed_waited = λ off. (
          (h.completed_waited off).0,
          Settled-through s.tail s.fate _ p processed (λ x. cc) (h.completed_waited off).1,
        );
      }
  Step-Flushed (finishes at) b j k r h = record {
    late_stopping = h.late_stopping;
    completing_waited = λ id e. cc;
    completed_waited = h.completed_waited;
  }

module _ {S : Type 0} (c : SinkClass S) (fresh : QueueItem) (d : AsyncDispatcher S) where
  pub Reach-Flushed :
      {s : System S}
      → d.queue ≡ []
      → d.next_flush_id ≡ 0
      → d.completed_flush_id ≡ 0
      → Reach c (started fresh d) s
      → Flushed s
  Reach-Flushed empty none_yet fresh_id start = record {
    late_stopping = λ i e. cc;
    completing_waited = λ id e. cc;
    completed_waited = λ off. (omega (arith, fresh_id), λ p l. absurd (omega (arith, l)));
  }
  Reach-Flushed empty none_yet fresh_id (later r step below) =
      Step-Flushed c step (Reach-next c fresh d none_yet r) (Reach-InQueue c fresh d empty r)
        (Reach-InOrder c fresh d r) (Reach-InMarks c fresh d empty none_yet r)
        (Reach-Flushed empty none_yet fresh_id r)
