-- ===== src/MpscQueue/OneSlot.antt =====
-- A queue of a single slot, which the constructor accepts: a published slot and one that waits for
-- the next producer have the same sequence number there.
use logspine.Prelude.{◌≡◌, refl, Bool, true, some, none, List, [], ◌∷◌, arith}
use logspine.MpscQueue.{MpscQueue, new_queue, enqueue, dequeue, dif}
use logspine.MpscQueue.Holds.{has_success, pushed, enqueue_won, dif_zero}

module _ {T : Type 0} where
  one_slot : MpscQueue T
  one_slot = record {
    buffer_mask = 0;
    buffer = λ i. record { sequence = i; value = none };
    head = 0;
    tail = 0;
  }

  -- A pop goes round as long as it is let.
  dequeue_spins :
      (outcomes : List Bool) (x y : T) → dequeue outcomes (pushed y (pushed x one_slot)) ≡ none
  unfolding dequeue dif pushed one_slot
  dequeue_spins [] x y = refl
  dequeue_spins (b ∷ outcomes) x y = dequeue_spins outcomes x y

  -- On a new queue of capacity 1, which the constructor accepts, two pushes one after the other both
  -- say that the queue took their item, however often the compare-and-swap fails before it succeeds,
  -- though there is room for one; and a pop that follows never ends: it goes round through all its
  -- attempts, however many it has.
  pub one_slot_overwrites :
      (first second attempts : List Bool) (x y : T)
      → has_success first ≡ true
      → has_success second ≡ true
      → (q : MpscQueue T) × (q1 : MpscQueue T) × (q2 : MpscQueue T) × (new_queue 1 ≡ some q)
        × (enqueue first x q ≡ some (true, q1))
        × (enqueue second y q1 ≡ some (true, q2))
        × (dequeue attempts q2 ≡ none)
  unfolding new_queue pushed one_slot
  one_slot_overwrites first second attempts x y s t = (
    one_slot,
    pushed x one_slot,
    pushed y (pushed x one_slot),
    refl,
    enqueue_won first x one_slot s (dif_zero 0 0 (omega arith) (omega arith) refl),
    enqueue_won second y (pushed x one_slot) t (dif_zero 1 1 (omega arith) (omega arith) refl),
    dequeue_spins attempts x y,
  )
