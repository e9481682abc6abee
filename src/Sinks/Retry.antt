-- ===== src/Sinks/Retry.antt =====
-- The delivery loop that `tcp_json_lines_sink::write`, `otlp_http_sink::write` and
-- `gelf_udp_sink::write` of src/sinks share, with their statistics.
pub mod Accounting
pub mod Backoff
pub mod Keeps
mod Tests
use logspine.Prelude.{
  ℕ, zero, suc, ◌+◌, ◌*◌, ◌%◌, ◌^◌, min, if◌then◌else◌, Bool, Option, none, some, List, [], ◌∷◌,
  Bytes, codes,
}
use logspine.Event.{LogEvent}
use logspine.Dispatcher.{bump, Filter, Formatter, should_log}

-- `network_sink_statistics`
pub record NetworkSinkStatistics : Type 0 where
  pub write_attempts : ℕ
  pub write_failures : ℕ
  pub reconnect_attempts : ℕ

-- What the body of the loop does with the client: it tries to deliver a message, and prepares the
-- next attempt (TCP closes the connection; UDP resolves the destination anew, outside the `try`).
-- The option is the text of the exception that was thrown.
pub record Transport (C M : Type 0) : Type 0 where
  pub deliver : M → C → C × Option Bytes
  pub prepare : C → C × Option Bytes

pub record RetryOptions : Type 0 where
  pub reconnect_on_failure : Bool
  pub max_write_retries : ℕ

pub record NetworkSink (C : Type 0) : Type 0 where
  pub client : C
  pub statistics : NetworkSinkStatistics
  pub last_error_message : Bytes

-- How a call of `write` ends, and the pauses in milliseconds that it made.
pub data Ended : Type 0 where
  returned : Ended
  threw : Bytes → Ended

-- `++statistics_.write_failures; record_error_message(…)`
abbrev pub record_failure : {C : Type 0} → Bytes → NetworkSink C → NetworkSink C
record_failure message s = record s {
  statistics = record (s.statistics) { write_failures = bump s.statistics.write_failures };
  last_error_message = message;
}

-- `--retries_remaining; ++statistics_.reconnect_attempts`
abbrev pub record_reconnect : {C : Type 0} → NetworkSink C → NetworkSink C
record_reconnect s = record s {
  statistics = record (s.statistics) { reconnect_attempts = bump s.statistics.reconnect_attempts };
}

module _ {C M : Type 0} (t : Transport C M) where
  -- The loop. Its calls stand in cases, so that none is made before its turn.
  unfoldable pub attempt : ℕ → ℕ → M → NetworkSink C → NetworkSink C × Ended × List ℕ
  attempt zero backoff_ms message s =
      let (client, error) = t.deliver message s.client in
      elim error [
        | none ↦ (record s { client = client; last_error_message = [] }, returned, [])
        | some what ↦ (record_failure what (record s { client = client }), threw what, [])
      ]
  attempt (suc retries_remaining) backoff_ms message s =
      let (client, error) = t.deliver message s.client in
      elim error [
        | none ↦ (record s { client = client; last_error_message = [] }, returned, [])
        | some what ↦
            let failed = record_reconnect (record_failure what (record s { client = client })) in
            let (prepared, refused) = t.prepare failed.client in
            elim refused [
              | some why ↦ (record failed { client = prepared }, threw why, backoff_ms ∷ [])
              | none ↦
                  let (s', ended, pauses) =
                    attempt retries_remaining (min (backoff_ms * 2) 1000) message
                      (record failed { client = prepared }) in
                  (s', ended, backoff_ms ∷ pauses)
            ]
      ]

  -- A call of `write` behind the filter, with the message that the sink sends.
  unfoldable pub deliver_message : RetryOptions → M → NetworkSink C → NetworkSink C × Ended × List ℕ
  unfolding attempt
  deliver_message options message s =
      attempt (if options.reconnect_on_failure then options.max_write_retries else 0) 10 message
        (record s {
          statistics = record (s.statistics) { write_attempts = bump s.statistics.write_attempts };
        })

  -- `write`: the payload is the formatter's, where there is one, and `wrap` makes the message of it
  -- (the payload itself, the HTTP request, or the datagrams).
  unfoldable pub write :
      RetryOptions
      → Option Filter
      → Option Formatter
      → Formatter
      → (Bytes → M)
      → LogEvent
      → NetworkSink C
      → NetworkSink C × Ended × List ℕ
  unfolding deliver_message
  write options filter formatter make_payload wrap event s =
      let payload : Bytes = elim formatter [
        | some format ↦ format event
        | none ↦ make_payload event
      ] in
      if should_log filter event
      then deliver_message options (wrap payload) s
      else (s, returned, [])
