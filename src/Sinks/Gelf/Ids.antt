-- ===== src/Sinks/Gelf/Ids.antt =====
-- The ids of messages in src/sinks/gelf_udp_sink.cpp, which tell the chunks of one message from those
-- of another.
use Prim.Native.Nat.{bit_xor}
use logspine.Prelude.Bits.{bit_xor_back}
use logspine.Prelude.{
  ℕ, ◌+◌, ◌*◌, ◌%◌, ◌^◌, ◌<◌, ◌≡◌, ◌≢◌, sym, ap, ◌∙◌, List, [], ◌∷◌, length, arith,
}

-- The reading of the clock, and the counter, as it is before and after the call.
unfoldable pub generate_gelf_message_id : ℕ → ℕ → ℕ × ℕ
generate_gelf_message_id now counter =
    (bit_xor now ((counter * 2 ^ 32) % 2 ^ 64), (counter + 1) % 2 ^ 64)

-- The counter behind calls at these readings.
unfoldable pub after_calls : List ℕ → ℕ → ℕ
unfolding generate_gelf_message_id
after_calls [] counter = counter
after_calls (now ∷ calls) counter = after_calls calls (generate_gelf_message_id now counter).1

after_calls-length :
    (calls : List ℕ) (counter : ℕ)
    → counter < 2 ^ 64
    → after_calls calls counter ≡ (counter + length calls) % 2 ^ 64
unfolding after_calls
after_calls-length [] counter h = omega arith
after_calls-length (now ∷ calls) counter h =
    omega (arith, after_calls-length calls ((counter + 1) % 2 ^ 64) (omega arith))

bit_xor-injective : (a b c : ℕ) → bit_xor a b ≡ bit_xor a c → b ≡ c
bit_xor-injective a b c e = sym (bit_xor_back a b) ∙ ap (bit_xor a) e ∙ bit_xor_back a c

shifted_differs :
    (counter n : ℕ)
    → 0 < n
    → n < 2 ^ 32
    → (counter * 2 ^ 32) % 2 ^ 64 ≢ (((counter + n) % 2 ^ 64) * 2 ^ 32) % 2 ^ 64
shifted_differs counter n positive few e = omega arith

-- Two messages that read the same time get different ids, if less than 2 ^ 32 - 1 messages, whatever
-- times they read, get theirs in between.
pub generate_gelf_message_id_differs :
    (now counter : ℕ) (between : List ℕ)
    → counter < 2 ^ 64
    → length between + 1 < 2 ^ 32
    → (generate_gelf_message_id now counter).0
      ≢ (generate_gelf_message_id now
          (after_calls between (generate_gelf_message_id now counter).1)).0
unfolding generate_gelf_message_id
generate_gelf_message_id_differs now counter between h few e =
    shifted_differs counter (length between + 1) (omega arith) few (
      bit_xor-injective now ((counter * 2 ^ 32) % 2 ^ 64)
        ((after_calls between ((counter + 1) % 2 ^ 64) * 2 ^ 32) % 2 ^ 64) e
      ∙ ap (λ c. (c * 2 ^ 32) % 2 ^ 64)
          (after_calls-length between ((counter + 1) % 2 ^ 64) (omega arith) ∙ (omega arith)))
