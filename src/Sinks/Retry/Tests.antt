-- ===== src/Sinks/Retry/Tests.antt =====
-- Runs of the delivery loop on a connection that fails a number of times.
use logspine.Prelude.{
  ℕ, zero, suc, ◌+◌, ◌*◌, ◌^◌, ◌≤◌, ◌≡◌, ◌≢◌, ◌⊎◌, refl, min, true, false, Option, none, some, [],
  ◌∷◌, Bytes, codes, arith, length, get_elem?,
}
use logspine.Sinks.Retry.{Transport, RetryOptions, NetworkSink, returned, attempt, deliver_message}
use logspine.Sinks.Retry.Accounting.{failures, allowed, deliver_message_accounts}
use logspine.Sinks.Retry.Backoff.{deliver_message_pauses}

-- The state counts the deliveries that are still going to fail.
abbrev deliver : Bytes → ℕ → ℕ × Option Bytes
deliver message zero = (zero, none)
deliver message (suc n) = (n, some (codes "refused"))

abbrev flaky : Transport ℕ Bytes
flaky = record { deliver = deliver; prepare = λ n. (n, none) }

abbrev options : RetryOptions
options = record { reconnect_on_failure = true; max_write_retries = 3 }

abbrev sink : NetworkSink ℕ
sink = record {
  client = 2;
  statistics = record { write_attempts = 0; write_failures = 0; reconnect_attempts = 0 };
  last_error_message = [];
}

pauses : (deliver_message flaky options (codes "m") sink).2 ≡ 10 ∷ 20 ∷ []
unfolding deliver_message attempt
pauses = refl

deliver_message_accounts_example :
    ((deliver_message flaky options (codes "m") sink).0.statistics.write_attempts
      ≡ sink.statistics.write_attempts + 1)
    × ((deliver_message flaky options (codes "m") sink).0.statistics.write_failures
        ≡ sink.statistics.write_failures
          + (failures flaky (codes "m") (allowed flaky (codes "m") options) sink.client).0)
    × ((deliver_message flaky options (codes "m") sink).0.statistics.reconnect_attempts
        ≡ sink.statistics.reconnect_attempts
          + length (deliver_message flaky options (codes "m") sink).2)
    × ((failures flaky (codes "m") (allowed flaky (codes "m") options) sink.client).0
        ≤ allowed flaky (codes "m") options + 1)
    × ((((failures flaky (codes "m") (allowed flaky (codes "m") options) sink.client).1 ≡ true)
          × ((deliver_message flaky options (codes "m") sink).1 ≡ returned)
          × ((deliver_message flaky options (codes "m") sink).0.last_error_message ≡ [])
          × (length (deliver_message flaky options (codes "m") sink).2
              ≡ (failures flaky (codes "m") (allowed flaky (codes "m") options) sink.client).0))
        ⊎ (((failures flaky (codes "m") (allowed flaky (codes "m") options) sink.client).1 ≡ false)
            × ((deliver_message flaky options (codes "m") sink).1 ≢ returned)))
deliver_message_accounts_example =
    deliver_message_accounts flaky (codes "m") options sink (omega arith) (omega arith)
      (omega arith)

second_pause : get_elem? (deliver_message flaky options (codes "m") sink).2 1 ≡ some 20
unfolding deliver_message attempt
second_pause = refl

deliver_message_pauses_example : 20 ≡ min (10 * 2 ^ 1) 1000
deliver_message_pauses_example =
    deliver_message_pauses flaky (codes "m") options sink 1 20 second_pause
