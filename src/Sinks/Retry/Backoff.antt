-- ===== src/Sinks/Retry/Backoff.antt =====
-- The pauses between the deliveries of one message.
use native.Mathlib.Decide.{dec_le}
use native.Mathlib.Nat.{pow-succ'}
use logspine.Prelude.{
  ℕ, zero, suc, ◌*◌, ◌≤◌, ◌<◌, ◌≡◌, inl, inr, ◌^◌, min, some, arith, get_elem?, ◌∙◌, Option-cases,
  if◌then◌else◌, ap,
}
use logspine.Prelude.Bits.{pow_pos}
use logspine.Dispatcher.{bump}
use logspine.Sinks.Retry.{
  Transport, RetryOptions, NetworkSink, attempt, deliver_message, record_failure, record_reconnect,
}

capped_product : (c p : ℕ) → 0 < p → min (min c 1000 * p) 1000 ≡ min (c * p) 1000
capped_product c p pos = elim (dec_le c 1000) [
  | yes low ↦ ap (λ k. min (k * p) 1000) (min_left c low)
  | no high ↦ ap (λ k. min (k * p) 1000) (min_right c high) ∙ omega (arith, grown c high)
]
  where
    min_left : (k : ℕ) → k ≤ 1000 → min k 1000 ≡ k
    min_left k h = omega arith

    min_right : (k : ℕ) → ¬ (k ≤ 1000) → min k 1000 ≡ 1000
    min_right k h = omega arith

    grown : (k : ℕ) → ¬ (k ≤ 1000) → 1000 * p ≤ k * p
    grown k h = grind arith

backoff_step : (b k : ℕ) → min (min (b * 2) 1000 * 2 ^ k) 1000 ≡ min (b * 2 ^ suc k) 1000
backoff_step b k =
    rw (pow-succ' 2 k)
      (capped_product (b * 2) (2 ^ k) (pow_pos k) ∙ ap (λ j. min j 1000) (omega arith))

module _ {C M : Type 0} (t : Transport C M) (message : M) where
  attempt_pauses :
      (n b : ℕ) (s : NetworkSink C) (k pause : ℕ)
      → get_elem? (attempt t n b message s).2 k ≡ some pause
      → b ≤ 1000
      → pause ≡ min (b * 2 ^ k) 1000
  unfolding attempt
  attempt_pauses zero b s k pause e h = ground arith
  attempt_pauses (suc n) b s zero pause e h = ground arith
  attempt_pauses (suc n) b s (suc k) pause e h =
      let c = (t.deliver message s.client).0 in
      elim (Option-cases ((t.deliver message s.client).1)) [
        | inl sent ↦ ground arith
        | inr (w, failed) ↦ elim (Option-cases ((t.prepare c).1)) [
          | inr (why, refused) ↦ ground arith
          | inl prepared ↦ ground (
            arith,
            backoff_step b k,
            attempt_pauses n (min (b * 2) 1000)
                (record (record_reconnect (record_failure w (record s { client = c }))) {
                  client = (t.prepare c).0;
                })
                k pause,
          )
        ]
      ]

  -- The pause before the retry of number `k`, counted from 0, is `10 * 2 ^ k` milliseconds, and a
  -- second at most.
  pub deliver_message_pauses :
      (options : RetryOptions) (s : NetworkSink C) (k pause : ℕ)
      → get_elem? (deliver_message t options message s).2 k ≡ some pause
      → pause ≡ min (10 * 2 ^ k) 1000
  unfolding deliver_message
  deliver_message_pauses options s k pause e =
      attempt_pauses (if options.reconnect_on_failure then options.max_write_retries else 0) 10
        (record s {
          statistics = record (s.statistics) { write_attempts = bump s.statistics.write_attempts };
        })
        k pause e (omega arith)
