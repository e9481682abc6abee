-- ===== src/AsyncDispatcher/Threads/Order.antt =====
-- The order in which the worker processes what callers queue, in every interleaving.
use native.Mathlib.Decide.{ℕ_discrete}
use mathlib.Core.List.{Mem, mem-cons_self, mem-cons_of_mem}
use logspine.Prelude.{
  ℕ, suc, ◌≤◌, ◌<◌, ◌≡◌, ◌≢◌, ◌⊎◌, inl, inr, refl, sym, ap, subst, ◌∙◌, true, List, [], ◌∷◌, assign,
  arith,
}
use logspine.Dispatcher.{SinkClass}
use logspine.AsyncDispatcher.{drop_oldest, AsyncDispatcher, QueueItem}
use logspine.AsyncDispatcher.Worker.{safe_write, safe_flush_sinks}
use logspine.AsyncDispatcher.Threads.Ordered.{
  Ordered, Ordered-shed, Ordered-take, Ordered-process, Ordered-overwrite,
}
use logspine.AsyncDispatcher.Threads.Kept.{
  Write-Kept, Set-Kept, Turn-held, Set-held, Pop-held, Write-stopping, Set-stopping,
}
use logspine.AsyncDispatcher.Threads.{
  System, Fate, WorkerPc, deciding, running, completing, finishing, ended, finish_item, held,
  in_hand, processed, overwritten, shed,
}
use logspine.AsyncDispatcher.Threads.Steps.{
  started, Step, Reach, moves, writes, pushes, sheds, flushes, joins, turns, sets, pops, overwrites,
  runs_event, runs_request, finishes, start, later,
}
use logspine.AsyncDispatcher.Threads.Hand.{Held}

pub record InOrder {S : Type 0} (s : System S) : Type 0 where
  pub ordered : Ordered s.tail s.fate s.done (held s.worker)
  pub processed_done : (p : ℕ) → s.fate p ≡ processed → Mem p s.done
  pub overwritten_stopping : (p : ℕ) → s.fate p ≡ overwritten → s.shared.stopping ≡ true
  pub shed_oldest : (p : ℕ) → s.fate p ≡ shed → s.shared.options.overflow ≡ drop_oldest

module _ (fate : ℕ → Fate) (q : ℕ) (f g : Fate) (p : ℕ) where
  told_assigned : f ≢ g → assign fate q f p ≡ g → fate p ≡ g
  told_assigned ne h = ground (arith, ne)

  told_self : assign fate q f p ≡ g → (p ≡ q) ⊎ (fate p ≡ g)
  told_self h = ground arith

Mem-head : {p q : ℕ} (done : List ℕ) → p ≡ q → Mem p (q ∷ done)
Mem-head {q = q} done e = subst (λ r. Mem r (q ∷ done)) (sym e) (mem-cons_self {a = q} {l = done})

module _ {S : Type 0} where
  pub with_hand :
      (s : System S) (w v : WorkerPc)
      → s.worker ≡ w
      → held v ≡ held w
      → InOrder s
      → Ordered s.tail s.fate s.done (held v)
  with_hand s w v at same h =
      subst (Ordered s.tail s.fate s.done) (sym (same ∙ ap held (sym at))) h.ordered

  finish_item-InOrder :
      (p : ℕ) (batch : List ℕ) (d : AsyncDispatcher S) (v : WorkerPc) (s : System S)
      → s.worker ≡ running (p ∷ batch)
      → held v ≡ batch
      → d.stopping ≡ s.shared.stopping
      → d.options ≡ s.shared.options
      → InOrder s
      → InOrder (finish_item p d v s)
  finish_item-InOrder p batch d v s at same on opt h = record {
    ordered = subst (Ordered s.tail (assign s.fate p processed) (p ∷ s.done)) (sym same) (
        Ordered-process p batch (λ e. cc)
          (with_hand s (running (p ∷ batch)) (running (p ∷ batch)) at refl h));
    processed_done = λ r e. elim (told_self s.fate p processed processed r e) [
      | inl same ↦ Mem-head s.done same
      | inr before ↦ mem-cons_of_mem p (h.processed_done r before)
    ];
    overwritten_stopping = λ r e.
        on ∙ h.overwritten_stopping r (told_assigned s.fate p processed overwritten r (λ x. cc) e);
    shed_oldest = λ r e.
        ap (λ o. o.overflow) opt
        ∙ h.shed_oldest r (told_assigned s.fate p processed shed r (λ x. cc) e);
  }

  Step-InOrder : (c : SinkClass S) {s t : System S} → Step c s t → InOrder s → InOrder t
  unfolding safe_write safe_flush_sinks
  Step-InOrder c (moves i p q at m) h = record {
    ordered = h.ordered;
    processed_done = h.processed_done;
    overwritten_stopping = h.overwritten_stopping;
    shed_oldest = h.shed_oldest;
  }
  Step-InOrder c (writes i p q d at w) h = record {
    ordered = h.ordered;
    processed_done = h.processed_done;
    overwritten_stopping = λ r e. Write-stopping w (h.overwritten_stopping r e);
    shed_oldest = λ r e. ap (λ o. o.overflow) (Write-Kept w).options ∙ h.shed_oldest r e;
  }
  Step-InOrder c (pushes i p q item at m room) h = record {
    ordered = h.ordered;
    processed_done = h.processed_done;
    overwritten_stopping = h.overwritten_stopping;
    shed_oldest = h.shed_oldest;
  }
  Step-InOrder c {s = s} (sheds i e first rest at o full) h = record {
    ordered = Ordered-shed shed (held s.worker) (λ x. cc) h.ordered;
    processed_done =
        λ r x. h.processed_done r (told_assigned s.fate s.tail shed processed r (λ x. cc) x);
    overwritten_stopping = λ r x.
        h.overwritten_stopping r (told_assigned s.fate s.tail shed overwritten r (λ x. cc) x);
    shed_oldest = λ r x. o;
  }
  Step-InOrder c (flushes i at) h = record {
    ordered = h.ordered;
    processed_done = h.processed_done;
    overwritten_stopping = h.overwritten_stopping;
    shed_oldest = h.shed_oldest;
  }
  Step-InOrder c (joins i at e) h = record {
    ordered = h.ordered;
    processed_done = h.processed_done;
    overwritten_stopping = h.overwritten_stopping;
    shed_oldest = h.shed_oldest;
  }
  Step-InOrder c {s = s} (turns w v at m) h = record {
    ordered = with_hand s w v at (Turn-held m) h;
    processed_done = h.processed_done;
    overwritten_stopping = h.overwritten_stopping;
    shed_oldest = h.shed_oldest;
  }
  Step-InOrder c {s = s} (sets w v d at m) h = record {
    ordered = with_hand s w v at (Set-held m) h;
    processed_done = h.processed_done;
    overwritten_stopping = λ r e. Set-stopping m ∙ h.overwritten_stopping r e;
    shed_oldest = λ r e. ap (λ o. o.overflow) (Set-Kept m).options ∙ h.shed_oldest r e;
  }
  Step-InOrder c {s = s} (pops w v first rest at m full) h = record {
    ordered =
        subst (Ordered (suc s.tail) (assign s.fate s.tail in_hand) s.done) (sym (Pop-held m))
          (Ordered-take (held w) (with_hand s w w at refl h));
    processed_done =
        λ r x. h.processed_done r (told_assigned s.fate s.tail in_hand processed r (λ x. cc) x);
    overwritten_stopping = λ r x.
        h.overwritten_stopping r (told_assigned s.fate s.tail in_hand overwritten r (λ x. cc) x);
    shed_oldest = λ r x. h.shed_oldest r (told_assigned s.fate s.tail in_hand shed r (λ x. cc) x);
  }
  Step-InOrder c {s = s} (overwrites p at on) h = record {
    ordered =
        Ordered-overwrite p [] (λ e. cc)
          (with_hand s (deciding (p ∷ [])) (deciding (p ∷ [])) at refl h);
    processed_done =
        λ r x. h.processed_done r (told_assigned s.fate p overwritten processed r (λ x. cc) x);
    overwritten_stopping = λ r x. on;
    shed_oldest = λ r x. h.shed_oldest r (told_assigned s.fate p overwritten shed r (λ x. cc) x);
  }
  Step-InOrder c {s = s} (runs_event p batch e at l) h =
      let k =
        finish_item-InOrder p batch (safe_write c e s.shared) (running batch) s at refl refl refl
          h in
      record {
        ordered = k.ordered;
        processed_done = k.processed_done;
        overwritten_stopping = k.overwritten_stopping;
        shed_oldest = k.shed_oldest;
      }
  Step-InOrder c {s = s} (runs_request p batch id at l) h =
      let k =
        finish_item-InOrder p batch (safe_flush_sinks c s.shared) (completing id batch) s at refl
          refl refl h in
      record {
        ordered = k.ordered;
        processed_done = k.processed_done;
        overwritten_stopping = k.overwritten_stopping;
        shed_oldest = k.shed_oldest;
      }
  Step-InOrder c {s = s} (finishes at) h = record {
    ordered = with_hand s finishing ended at refl h;
    processed_done = h.processed_done;
    overwritten_stopping = h.overwritten_stopping;
    shed_oldest = h.shed_oldest;
  }

module _ {S : Type 0} (c : SinkClass S) (fresh : QueueItem) (d : AsyncDispatcher S) where
  pub Reach-InOrder : {s : System S} → Reach c (started fresh d) s → InOrder s
  Reach-InOrder start = record {
    ordered = record { hand = λ p from to e. omega arith; order = tt };
    processed_done = λ p e. cc;
    overwritten_stopping = λ p e. cc;
    shed_oldest = λ p e. cc;
  }
  Reach-InOrder (later r step below) = Step-InOrder c step (Reach-InOrder r)

pub Held-Mem :
    (tail : ℕ) (fate : ℕ → Fate) (low : ℕ) (qs : List ℕ)
    → Held tail fate low qs
    → (p : ℕ) → low ≤ p
    → p < tail
    → fate p ≡ in_hand
    → Mem p qs
Held-Mem tail fate low [] h p from to e = absurd (h p from to e)
Held-Mem tail fate low (q ∷ qs) h p from to e = elim (ℕ_discrete p q) [
  | yes same ↦ Mem-head qs same
  | no ne ↦
      mem-cons_of_mem q (Held-Mem tail fate (suc q) qs h.4 p (ground (arith, h.3 p from, ne)) to e)
]
