-- ===== src/AsyncDispatcher/Threads/Hand.antt =====
-- What the worker holds, in every state: the items that have left the queue for it and that it is
-- not through with, in the order of their pushes.
use logspine.Prelude.{
  ℕ, suc, ◌≤◌, ◌<◌, ◌≡◌, ◌≢◌, refl, sym, ◌∙◌, List, [], ◌∷◌, ◌++◌, assign, assign_self, assign_ne,
  arith,
}
use logspine.AsyncDispatcher.Threads.{Fate, in_hand}

-- The positions from `low` up to `tail` that are in hand, in ascending order.
abbrev pub Held : ℕ → (ℕ → Fate) → ℕ → List ℕ → Type 0
Held tail fate low [] = (p : ℕ) → low ≤ p → p < tail → fate p ≢ in_hand
Held tail fate low (q ∷ qs) =
    (low ≤ q)
    × (q < tail)
    × (fate q ≡ in_hand)
    × ((p : ℕ) → low ≤ p → p < q → fate p ≢ in_hand)
    × Held tail fate (suc q) qs

-- The first position that is not through: the first in hand, or else the first in the queue.
abbrev pub front : ℕ → List ℕ → ℕ
front tail [] = tail
front tail (q ∷ qs) = q

module _ (fate : ℕ → Fate) (q : ℕ) (f : Fate) (p : ℕ) where
  settled_assigned : f ≢ in_hand → (p ≢ q → fate p ≢ in_hand) → assign fate q f p ≢ in_hand
  settled_assigned ne h e = ground (arith, ne, h)

  settled_kept : p ≢ q → fate p ≢ in_hand → assign fate q f p ≢ in_hand
  settled_kept ne h e = h (sym (assign_ne fate q f p ne) ∙ e)

  held_kept : p ≢ q → fate p ≡ in_hand → assign fate q f p ≡ in_hand
  held_kept ne h = assign_ne fate q f p ne ∙ h

module _ (tail : ℕ) (fate : ℕ → Fate) where
  pub front-Held : (low : ℕ) (qs : List ℕ) → Held tail fate low qs → front tail qs ≤ tail
  front-Held low [] h = omega arith
  front-Held low (q ∷ qs) h = omega (arith, h.1)

  pub Held-front :
      (low : ℕ) (qs : List ℕ) → low ≤ tail → Held tail fate low qs → low ≤ front tail qs
  Held-front low [] l h = l
  Held-front low (q ∷ qs) l h = h.0

  -- Nothing before the first position that is not through is in hand.
  pub Held-settled :
      (low : ℕ) (qs : List ℕ)
      → Held tail fate low qs
      → (p : ℕ) → low ≤ p
      → p < front tail qs
      → fate p ≢ in_hand
  Held-settled low [] h = h
  Held-settled low (q ∷ qs) h = h.3

  Held-extend :
      (low low' : ℕ) (qs : List ℕ)
      → low' ≤ low
      → ((p : ℕ) → low' ≤ p → p < low → fate p ≢ in_hand)
      → Held tail fate low qs
      → Held tail fate low' qs
  Held-extend low low' [] l through h = λ p from to e. ground (arith, through p, h p)
  Held-extend low low' (q ∷ qs) l through h =
      (omega (arith, h.0), h.1, h.2, (λ p from to e. ground (arith, through p, h.3 p)), h.4)

  Held-below :
      (q : ℕ) (f : Fate) (low : ℕ) (qs : List ℕ)
      → q < low
      → Held tail fate low qs
      → Held tail (assign fate q f) low qs
  Held-below q f low [] b h = λ p from to. settled_kept fate q f p (λ e. omega arith) (h p from to)
  Held-below q f low (r ∷ qs) b h = (
    h.0,
    h.1,
    held_kept fate q f r (λ e. omega (arith, h.0)) h.2,
    (λ p from to. settled_kept fate q f p (λ e. omega arith) (h.3 p from to)),
    Held-below q f (suc r) qs (omega (arith, h.0)) h.4,
  )

  -- A caller takes the first item from the queue.
  pub Held-shed :
      (f : Fate) (low : ℕ) (qs : List ℕ)
      → f ≢ in_hand
      → Held tail fate low qs
      → Held (suc tail) (assign fate tail f) low qs
  Held-shed f low [] ne h =
      λ p from to. settled_assigned fate tail f p ne (λ e. h p from (omega arith))
  Held-shed f low (q ∷ qs) ne h = (
    h.0,
    omega (arith, h.1),
    held_kept fate tail f q (λ e. omega (arith, h.1)) h.2,
    (λ p from to. settled_kept fate tail f p (λ e. omega (arith, h.1)) (h.3 p from to)),
    Held-shed f (suc q) qs ne h.4,
  )

  -- The worker takes it.
  pub Held-take :
      (low : ℕ) (qs : List ℕ)
      → low ≤ tail
      → Held tail fate low qs
      → Held (suc tail) (assign fate tail in_hand) low (qs ++ (tail ∷ []))
  Held-take low [] l h = (
    l,
    omega arith,
    assign_self fate tail in_hand tail refl,
    (λ p from to. settled_kept fate tail in_hand p (λ e. omega arith) (h p from to)),
    (λ p from to e. omega arith),
  )
  Held-take low (q ∷ qs) l h = (
    h.0,
    omega (arith, h.1),
    held_kept fate tail in_hand q (λ e. omega (arith, h.1)) h.2,
    (λ p from to. settled_kept fate tail in_hand p (λ e. omega (arith, h.1)) (h.3 p from to)),
    Held-take (suc q) qs h.1 h.4,
  )

module _ (tail : ℕ) (fate : ℕ → Fate) where
  -- It is through with the first item in hand.
  pub Held-through :
      (q : ℕ) (f : Fate) (low : ℕ) (qs : List ℕ)
      → f ≢ in_hand
      → Held tail fate low (q ∷ qs)
      → Held tail (assign fate q f) low qs
  Held-through q f low qs ne h =
      Held-extend tail (assign fate q f) (suc q) low qs (omega (arith, h.0))
        (λ p from to. settled_assigned fate q f p ne (λ e. h.3 p from (omega (arith, e))))
        (Held-below tail fate q f (suc q) qs (omega arith) h.4)
