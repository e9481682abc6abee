-- ===== src/MpscQueue/Concurrent/Tests.antt =====
-- Runs with interleaved calls.
use logspine.Prelude.{ℕ, ◌+◌, ◌≤◌, ◌≡◌, refl, Option, none, some, List, [], arith}
use logspine.Prelude.Bits.{bit_and-mask}
use logspine.MpscQueue.{MpscQueue, Dif, dif}
use logspine.MpscQueue.Holds.{Holds, dif_zero}
use logspine.MpscQueue.Concurrent.{
  pushing, push_seen, push_won, popping, pop_seen, System, with_pc, claim, store_item, publish,
  win_pop, take_item, push_start, push_look, push_win, push_lose, push_store, push_publish,
  pop_start, pop_look, pop_win, pop_take, started, Reach, start, later,
}
use logspine.MpscQueue.Concurrent.Safety.{held_position, one_holder, within_capacity}
use logspine.MpscQueue.Concurrent.Quiet.{items, quiet_Holds}
use logspine.MpscQueue.Concurrent.Order.{takes_pushed, taken_was_pushed}

-- A new queue of two slots.
abbrev two_slots : MpscQueue ℕ
two_slots = record {
  buffer_mask = 1;
  buffer = λ i. record { sequence = i; value = none };
  head = 0;
  tail = 0;
}

abbrev nothing : List ℕ
nothing = []

two_slots-Holds : Holds 2 two_slots nothing
two_slots-Holds = record {
  indexed = λ p. bit_and-mask 1 p;
  mask = refl;
  counted = refl;
  room = omega arith;
  filled = λ i x e. absurd (cc);
  free = λ i lo lt. omega arith;
}

same_0 : dif 0 0 ≡ Dif.zero
same_0 = dif_zero 0 0 (omega arith) (omega arith) refl

same_1 : dif 1 1 ≡ Dif.zero
same_1 = dif_zero 1 1 (omega arith) (omega arith) refl

-- Two threads push, and a third pops while the second still holds its slot.
abbrev a0 : System ℕ
a0 = started two_slots

abbrev a1 : System ℕ
a1 = with_pc 0 (pushing 0 7) a0

abbrev a2 : System ℕ
a2 = with_pc 1 (pushing 0 8) a1

abbrev a3 : System ℕ
a3 = with_pc 1 (push_seen 0 0 8) a2

abbrev a4 : System ℕ
a4 = with_pc 0 (push_seen 0 0 7) a3

abbrev a5 : System ℕ
a5 = claim 0 0 7 0 a4

abbrev a6 : System ℕ
a6 = with_pc 1 (pushing 1 8) a5

abbrev a7 : System ℕ
a7 = with_pc 1 (push_seen 1 1 8) a6

abbrev a8 : System ℕ
a8 = claim 1 1 8 1 a7

abbrev a9 : System ℕ
a9 = store_item 0 0 7 0 a8

abbrev a10 : System ℕ
a10 = publish 0 0 0 a9

abbrev a11 : System ℕ
a11 = with_pc 2 (popping 0) a10

abbrev a12 : System ℕ
a12 = with_pc 2 (pop_seen 0 1) a11

abbrev a13 : System ℕ
a13 = win_pop 2 0 0 a12

abbrev a14 : System ℕ
a14 = take_item 2 0 0 a13

to_a1 : Reach 2 a0 a1
to_a1 = later start (push_start 0 7 refl) (omega arith)

to_a2 : Reach 2 a0 a2
to_a2 = later to_a1 (push_start 1 8 refl) (omega arith)

to_a3 : Reach 2 a0 a3
to_a3 = later to_a2 (push_look 1 0 8 refl) (omega arith)

to_a4 : Reach 2 a0 a4
to_a4 = later to_a3 (push_look 0 0 7 refl) (omega arith)

to_a5 : Reach 2 a0 a5
to_a5 = later to_a4 (push_win 0 0 0 7 refl same_0 refl) (omega arith)

to_a6 : Reach 2 a0 a6
to_a6 = later to_a5 (push_lose 1 0 0 8 refl same_0) (omega arith)

to_a7 : Reach 2 a0 a7
to_a7 = later to_a6 (push_look 1 1 8 refl) (omega arith)

to_a8 : Reach 2 a0 a8
to_a8 = later to_a7 (push_win 1 1 1 8 refl same_1 refl) (omega arith)

to_a9 : Reach 2 a0 a9
to_a9 = later to_a8 (push_store 0 0 7 refl) (omega arith)

to_a10 : Reach 2 a0 a10
to_a10 = later to_a9 (push_publish 0 0 refl) (omega arith)

to_a11 : Reach 2 a0 a11
to_a11 = later to_a10 (pop_start 2 refl) (omega arith)

to_a12 : Reach 2 a0 a12
to_a12 = later to_a11 (pop_look 2 0 refl) (omega arith)

to_a13 : Reach 2 a0 a13
to_a13 = later to_a12 (pop_win 2 0 1 refl same_1 refl) (omega arith)

to_a14 : Reach 2 a0 a14
to_a14 = later to_a13 (pop_take 2 0 refl) (omega arith)

won_a6 : Reach 2 a5 a6
won_a6 = later start (push_lose 1 0 0 8 refl same_0) (omega arith)

won_a7 : Reach 2 a5 a7
won_a7 = later won_a6 (push_look 1 1 8 refl) (omega arith)

won_a8 : Reach 2 a5 a8
won_a8 = later won_a7 (push_win 1 1 1 8 refl same_1 refl) (omega arith)

won_a9 : Reach 2 a5 a9
won_a9 = later won_a8 (push_store 0 0 7 refl) (omega arith)

won_a10 : Reach 2 a5 a10
won_a10 = later won_a9 (push_publish 0 0 refl) (omega arith)

won_a11 : Reach 2 a5 a11
won_a11 = later won_a10 (pop_start 2 refl) (omega arith)

won_a12 : Reach 2 a5 a12
won_a12 = later won_a11 (pop_look 2 0 refl) (omega arith)

won_a13 : Reach 2 a5 a13
won_a13 = later won_a12 (pop_win 2 0 1 refl same_1 refl) (omega arith)

won_a14 : Reach 2 a5 a14
won_a14 = later won_a13 (pop_take 2 0 refl) (omega arith)

abbrev first_item : Option ℕ
first_item = some 7

abbrev second_thread : ℕ
second_thread = 1

takes_pushed_example : first_item ≡ first_item
takes_pushed_example =
    takes_pushed 2 two_slots (omega arith) two_slots-Holds refl (omega arith) a5 to_a5 0 0 7 refl
      a14 won_a14 2 first_item refl

taken_was_pushed_example :
    (x : ℕ) × (first_item ≡ some x)
    × ((j : ℕ) × (u : System ℕ) × (Reach 2 a0 u) × (Reach 2 u a14) × (u.pc j ≡ push_won 0 x))
taken_was_pushed_example =
    taken_was_pushed 2 two_slots (omega arith) two_slots-Holds refl (omega arith) a14 to_a14 2 0
      first_item refl

within_capacity_example : (0 ≤ 2) × (2 ≤ 0 + 2)
within_capacity_example =
    within_capacity 2 two_slots (omega arith) two_slots-Holds refl (omega arith) a12 to_a12

one_holder_example : second_thread ≡ second_thread
one_holder_example =
    one_holder 2 two_slots (omega arith) two_slots-Holds refl (omega arith) a14 to_a14 second_thread
      second_thread 1 1 refl refl refl

-- One push, to its end.
abbrev b1 : System ℕ
b1 = with_pc 0 (pushing 0 7) a0

abbrev b2 : System ℕ
b2 = with_pc 0 (push_seen 0 0 7) b1

abbrev b3 : System ℕ
b3 = claim 0 0 7 0 b2

abbrev b4 : System ℕ
b4 = store_item 0 0 7 0 b3

abbrev b5 : System ℕ
b5 = publish 0 0 0 b4

to_b1 : Reach 2 a0 b1
to_b1 = later start (push_start 0 7 refl) (omega arith)

to_b2 : Reach 2 a0 b2
to_b2 = later to_b1 (push_look 0 0 7 refl) (omega arith)

to_b3 : Reach 2 a0 b3
to_b3 = later to_b2 (push_win 0 0 0 7 refl same_0 refl) (omega arith)

to_b4 : Reach 2 a0 b4
to_b4 = later to_b3 (push_store 0 0 7 refl) (omega arith)

to_b5 : Reach 2 a0 b5
to_b5 = later to_b4 (push_publish 0 0 refl) (omega arith)

one_quiet : (i : ℕ) → held_position (b5.pc i) ≡ none
one_quiet i = ground arith

quiet_Holds_example : Holds 2 b5.queue (items b5.log 0 1)
quiet_Holds_example =
    quiet_Holds 2 two_slots (omega arith) two_slots-Holds refl (omega arith) b5 to_b5 one_quiet
