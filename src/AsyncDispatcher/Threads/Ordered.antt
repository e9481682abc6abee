-- ===== src/AsyncDispatcher/Threads/Ordered.antt =====
-- How the items in hand stand to those that the worker has processed.
use logspine.Prelude.{
  ℕ, suc, ◌≤◌, ◌<◌, ◌≡◌, ◌≢◌, refl, sym, subst, List, [], ◌∷◌, ◌++◌, assign, arith,
}
use logspine.AsyncDispatcher.Threads.{Fate, in_hand, processed, overwritten}
use logspine.AsyncDispatcher.Threads.Hand.{
  Held, front, Held-front, Held-shed, Held-take, Held-through,
}

-- The last first: each is before those in front of it, and all are before `bound`.
abbrev pub Descending : List ℕ → ℕ → Type 0
Descending [] bound = Unit
Descending (p ∷ done) bound = (p < bound) × Descending done p

pub Descending-widen : (done : List ℕ) (m n : ℕ) → m ≤ n → Descending done m → Descending done n
Descending-widen [] m n l h = h
Descending-widen (p ∷ done) m n l h = (omega (arith, h.0), h.1)

-- What the worker holds is before the queue, and behind what it has processed.
pub record Ordered (tail : ℕ) (fate : ℕ → Fate) (done qs : List ℕ) : Type 0 where
  pub hand : Held tail fate 0 qs
  pub order : Descending done (front tail qs)

front-take : (tail : ℕ) (qs : List ℕ) → front (suc tail) (qs ++ (tail ∷ [])) ≡ front tail qs
front-take tail [] = refl
front-take tail (q ∷ qs) = refl

front-shed : (tail : ℕ) (qs : List ℕ) → front tail qs ≤ front (suc tail) qs
front-shed tail [] = omega arith
front-shed tail (q ∷ qs) = omega arith

-- The first item in hand is before what is left in hand and before the queue.
first-front :
    (tail : ℕ) (fate : ℕ → Fate) (q : ℕ) (qs : List ℕ)
    → Held tail fate 0 (q ∷ qs)
    → q < front tail qs
first-front tail fate q qs h = omega (arith, Held-front tail fate (suc q) qs h.1 h.4)

module _ {tail : ℕ} {fate : ℕ → Fate} {done : List ℕ} where
  pub Ordered-shed :
      (f : Fate) (qs : List ℕ)
      → f ≢ in_hand
      → Ordered tail fate done qs
      → Ordered (suc tail) (assign fate tail f) done qs
  Ordered-shed f qs ne h = record {
    hand = Held-shed tail fate f 0 qs ne h.hand;
    order =
        Descending-widen done (front tail qs) (front (suc tail) qs) (front-shed tail qs) h.order;
  }

  pub Ordered-take :
      (qs : List ℕ)
      → Ordered tail fate done qs
      → Ordered (suc tail) (assign fate tail in_hand) done (qs ++ (tail ∷ []))
  Ordered-take qs h = record {
    hand = Held-take tail fate 0 qs (omega arith) h.hand;
    order = subst (Descending done) (sym (front-take tail qs)) h.order;
  }

  pub Ordered-process :
      (q : ℕ) (qs : List ℕ)
      → processed ≢ in_hand
      → Ordered tail fate done (q ∷ qs)
      → Ordered tail (assign fate q processed) (q ∷ done) qs
  Ordered-process q qs ne h = record {
    hand = Held-through tail fate q processed 0 qs ne h.hand;
    order = (first-front tail fate q qs h.hand, h.order);
  }

  pub Ordered-overwrite :
      (q : ℕ) (qs : List ℕ)
      → overwritten ≢ in_hand
      → Ordered tail fate done (q ∷ qs)
      → Ordered tail (assign fate q overwritten) done qs
  Ordered-overwrite q qs ne h = record {
    hand = Held-through tail fate q overwritten 0 qs ne h.hand;
    order =
        Descending-widen done q (front tail qs) (omega (arith, first-front tail fate q qs h.hand))
          h.order;
  }
