-- ===== src/MpscQueue/Tests.antt =====
-- Runs of the queue.
use logspine.Prelude.{
  ℕ, ◌+◌, ◌*◌, ◌^◌, ◌≤◌, ◌<◌, ◌≡◌, ◌⊎◌, refl, ltb, if◌then◌else◌, true, false, none, some, List, [],
  ◌∷◌, ◌++◌, arith, length,
}
use logspine.MpscQueue.{MpscQueue, round_up_to_power_of_2, new_queue, enqueue, dequeue}
use logspine.MpscQueue.Capacity.{round_up_to_power_of_2_lem}
use logspine.MpscQueue.Holds.{Holds, has_success, pushed, pushed-Holds}
use logspine.MpscQueue.OneSlot.{one_slot_overwrites}
use logspine.MpscQueue.Refine.{
  new_queue-Holds, enqueue_refines, dequeue_refines, head?, tail, not_empty,
}

hundred : round_up_to_power_of_2 100 ≡ 128
unfolding round_up_to_power_of_2
hundred = refl

round_up_to_power_of_2_lem_example :
    ((100 ≤ 2 ^ 63)
      × ((k : ℕ) × (round_up_to_power_of_2 100 ≡ 2 ^ k)
          × (1 ≤ k)
          × (k ≤ 63)
          × (100 ≤ 2 ^ k)
          × ((k ≡ 1) ⊎ (2 ^ k < 2 * 100))))
    ⊎ ((2 ^ 63 < 100) × (round_up_to_power_of_2 100 ≡ 0))
round_up_to_power_of_2_lem_example = round_up_to_power_of_2_lem 100 (omega arith)

abbrev empty : (q : MpscQueue ℕ) × (new_queue (2 ^ 1) ≡ some q) × Holds (2 ^ 1) q [] × (q.head ≡ 0)
empty = new_queue-Holds ℕ 1 (omega arith)

retried : has_success (false ∷ true ∷ []) ≡ true
unfolding has_success
retried = refl

small : empty.0.head + 2 < 2 ^ 63
small = omega (arith, empty.3)

abbrev nothing : List ℕ
nothing = []

enqueue_refines_example :
    (q' : MpscQueue ℕ) × (enqueue (false ∷ true ∷ []) 7 empty.0 ≡ some (ltb (length nothing) 2, q'))
    × Holds 2 q' (if ltb (length nothing) 2 then nothing ++ (7 ∷ []) else nothing)
enqueue_refines_example =
    enqueue_refines 2 empty.0 (false ∷ true ∷ []) 7 nothing retried (omega arith) empty.2 small

-- The queue with one item.
abbrev one_item : List ℕ
one_item = 7 ∷ []

filled-Holds : Holds 2 (pushed 7 empty.0) one_item
filled-Holds = pushed-Holds 2 empty.0 7 nothing empty.2 (omega arith) small

filled_small : (pushed 7 empty.0).head + 2 < 2 ^ 63
unfolding pushed
filled_small = omega (arith, empty.3)

dequeue_refines_example :
    (q' : MpscQueue ℕ) × (dequeue (false ∷ true ∷ []) (pushed 7 empty.0)
      ≡ some (head? one_item, not_empty one_item, q'))
    × Holds 2 q' (tail one_item)
dequeue_refines_example =
    dequeue_refines 2 (pushed 7 empty.0) (false ∷ true ∷ []) one_item retried filled-Holds
      filled_small

one_slot_overwrites_example :
    (q : MpscQueue ℕ) × (q1 : MpscQueue ℕ) × (q2 : MpscQueue ℕ) × (new_queue 1 ≡ some q)
    × (enqueue (false ∷ true ∷ []) 7 q ≡ some (true, q1))
    × (enqueue (false ∷ true ∷ []) 8 q1 ≡ some (true, q2))
    × (dequeue (true ∷ true ∷ []) q2 ≡ none)
one_slot_overwrites_example =
    one_slot_overwrites (false ∷ true ∷ []) (false ∷ true ∷ []) (true ∷ true ∷ []) 7 8 retried
      retried
