-- ===== src/MpscQueue.antt =====
-- include/logspine/detail/mpsc_queue.hpp: the ring of slots with sequence numbers, for calls that no
-- other thread interrupts.
pub mod Capacity
pub mod Ring
pub mod Holds
pub mod Refine
pub mod OneSlot
pub mod Concurrent
mod Tests
use Prim.Native.Nat.{bit_or, bit_and}
use logspine.Prelude.{
  ℕ, ◌+◌, ◌-◌, ◌/◌, ◌%◌, ◌^◌, leb, ltb, ◌==◌, ◌||◌, not, if◌then◌else◌, Bool, true, false, Option,
  none, some, List, [], ◌∷◌,
}

-- `std::size_t` and `std::uint64_t` have 64 bits.
abbrev pub word : ℕ
word = 2 ^ 64

-- `n |= n >> k`
abbrev pub smear : ℕ → ℕ → ℕ
smear k n = bit_or n (n / 2 ^ k)

unfoldable pub round_up_to_power_of_2 : ℕ → ℕ
round_up_to_power_of_2 n =
    if leb n 1
    then 2
    else (smear 32 (smear 16 (smear 8 (smear 4 (smear 2 (smear 1 (n - 1)))))) + 1) % word

-- `struct slot`. The data is `none` before something is stored there and after it was moved out.
pub record Slot (T : Type 0) : Type 0 where
  pub sequence : ℕ
  pub value : Option T

pub record MpscQueue (T : Type 0) : Type 0 where
  pub buffer_mask : ℕ
  pub buffer : ℕ → Slot T
  pub head : ℕ
  pub tail : ℕ

abbrev pub store : {T : Type 0} → (ℕ → Slot T) → ℕ → Slot T → ℕ → Slot T
store buffer i s j = if i == j then s else buffer j

-- The constructor; `none` is `std::invalid_argument`.
unfoldable pub new_queue : {T : Type 0} → ℕ → Option (MpscQueue T)
new_queue capacity =
    if capacity == 0 || not (bit_and capacity ((capacity + word - 1) % word) == 0)
    then none
    else some (record {
      buffer_mask = (capacity + word - 1) % word;
      buffer = λ i. record { sequence = i; value = none };
      head = 0;
      tail = 0;
    })

-- The sign of `static_cast<std::intptr_t>(seq) - static_cast<std::intptr_t>(pos)`: a conversion to
-- the signed type keeps the order of the values shifted by 2 ^ 63.
pub data Dif : Type 0 where
  negative zero positive : Dif

abbrev pub shifted : ℕ → ℕ
shifted w = (w + 2 ^ 63) % word

unfoldable pub dif : ℕ → ℕ → Dif
dif seq pos =
    if shifted seq == shifted pos
    then zero
    else if ltb (shifted seq) (shifted pos)
    then negative
    else positive

-- A position one further, and the index of its slot.
abbrev pub next : ℕ → ℕ
next pos = (pos + 1) % word

abbrev pub index : {T : Type 0} → MpscQueue T → ℕ → ℕ
index q pos = bit_and pos q.buffer_mask

module _ {T : Type 0} where
  -- The loops have one outcome of `compare_exchange_weak` for each round: it may fail although
  -- nobody interfered. `none` means that the outcomes have run out.
  unfoldable pub enqueue : List Bool → T → MpscQueue T → Option (Bool × MpscQueue T)
  unfolding dif
  enqueue [] x q = none
  enqueue (swapped ∷ outcomes) x q =
      let pos = q.head in
      let cell = index q pos in
      let again = enqueue outcomes x q in
      let won = some (
        true,
        record q {
          head = next pos;
          buffer = store q.buffer cell (record { sequence = next pos; value = some x });
        },
      ) in
      elim (dif (q.buffer cell).sequence pos) [
        | zero ↦ if swapped then won else again
        | negative ↦ some (false, q)
        | positive ↦ again
      ]

  unfoldable pub dequeue : List Bool → MpscQueue T → Option (Option T × Bool × MpscQueue T)
  unfolding dif
  dequeue [] q = none
  dequeue (swapped ∷ outcomes) q =
      let pos = q.tail in
      let cell = index q pos in
      let again = dequeue outcomes q in
      let taken = (q.buffer cell).value in
      let won = some (
        taken,
        true,
        record q {
          tail = next pos;
          buffer =
              store q.buffer cell
                (record { sequence = (pos + q.buffer_mask + 1) % word; value = none });
        },
      ) in
      elim (dif (q.buffer cell).sequence (next pos)) [
        | zero ↦ if swapped then won else again
        | negative ↦ some (none, false, q)
        | positive ↦ again
      ]
