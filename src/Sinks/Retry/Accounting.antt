-- ===== src/Sinks/Retry/Accounting.antt =====
-- How often the loop tries, how long it waits, and what it counts.
use logspine.Prelude.{
  Bool-cases, ℕ, zero, suc, ◌+◌, ◌*◌, ◌≤◌, ◌<◌, ◌≡◌, ◌≢◌, ◌⊎◌, inl, inr, ◌^◌, min, if◌then◌else◌,
  Bool, true, false, none, some, List, [], arith, length, ◌∙◌, Option-cases,
}
use logspine.Dispatcher.{bump}
use logspine.Sinks.Retry.{
  Transport, RetryOptions, NetworkSink, Ended, returned, attempt, deliver_message, record_failure,
  record_reconnect,
}

module _ {C M : Type 0} (t : Transport C M) (message : M) where
  -- The first attempts on a client up to one that succeeds, at most `n` after the first: the number
  -- that failed, and whether one succeeded.
  unfoldable pub failures : ℕ → C → ℕ × Bool
  failures zero c = elim ((t.deliver message c).1) [ none ↦ (0, true) | some e ↦ (1, false) ]
  failures (suc n) c = elim ((t.deliver message c).1) [
    | none ↦ (0, true)
    | some e ↦ elim ((t.prepare (t.deliver message c).0).1) [
      | some e' ↦ (1, false)
      | none ↦ let r = failures n (t.prepare (t.deliver message c).0).0 in (suc r.0, r.1)
    ]
  ]

  -- What a call of the loop did, against the attempts that the client would allow.
  pub record Accounts (n : ℕ) (s : NetworkSink C) (out : NetworkSink C × Ended × List ℕ)
      : Type 0 where
    pub counted :
        out.0.statistics.write_failures ≡ s.statistics.write_failures + (failures n s.client).0
    pub reconnects :
        out.0.statistics.reconnect_attempts ≡ s.statistics.reconnect_attempts + length out.2
    pub attempts : out.0.statistics.write_attempts ≡ s.statistics.write_attempts
    pub success :
        (failures n s.client).1 ≡ true
        → (out.1 ≡ returned)
          × (out.0.last_error_message ≡ [])
          × (length out.2 ≡ (failures n s.client).0)
    pub failure : (failures n s.client).1 ≡ false → out.1 ≢ returned
    pub few : (length out.2 ≤ n) × ((failures n s.client).0 ≤ n + 1)

  attempt-Accounts :
      (n b : ℕ) (s : NetworkSink C)
      → s.statistics.write_failures + n + 1 < 2 ^ 64
      → s.statistics.reconnect_attempts + n < 2 ^ 64
      → Accounts n s (attempt t n b message s)
  unfolding attempt failures
  attempt-Accounts zero b s h k = ground arith
  attempt-Accounts (suc n) b s h k =
      let c = (t.deliver message s.client).0 in
      elim (Option-cases ((t.deliver message s.client).1)) [
        | inl e ↦ ground arith
        | inr (w, e) ↦ elim (Option-cases ((t.prepare c).1)) [
          | inr (w', e') ↦ ground arith
          | inl e' ↦ ground (
            arith,
            attempt-Accounts n (min (b * 2) 1000)
                (record (record_reconnect (record_failure w (record s { client = c }))) {
                  client = (t.prepare c).0;
                }),
          )
        ]
      ]

  -- The retries that the options allow.
  abbrev pub allowed : RetryOptions → ℕ
  allowed options = if options.reconnect_on_failure then options.max_write_retries else 0

  -- A call of `write` counts one attempt to write; it counts a failure for every delivery that
  -- failed, of which there is at most one more than the retries allowed, and a reconnect for every
  -- pause. It returns with the last error cleared exactly if a delivery succeeded, having paused once
  -- for each failure, and throws otherwise. No counter may be at its end.
  pub deliver_message_accounts :
      (options : RetryOptions) (s : NetworkSink C)
      → s.statistics.write_attempts + 1 < 2 ^ 64
      → s.statistics.write_failures + allowed options + 1 < 2 ^ 64
      → s.statistics.reconnect_attempts + allowed options < 2 ^ 64
      → ((deliver_message t options message s).0.statistics.write_attempts
          ≡ s.statistics.write_attempts + 1)
        × ((deliver_message t options message s).0.statistics.write_failures
            ≡ s.statistics.write_failures + (failures (allowed options) s.client).0)
        × ((deliver_message t options message s).0.statistics.reconnect_attempts
            ≡ s.statistics.reconnect_attempts + length (deliver_message t options message s).2)
        × ((failures (allowed options) s.client).0 ≤ allowed options + 1)
        × ((((failures (allowed options) s.client).1 ≡ true)
              × ((deliver_message t options message s).1 ≡ returned)
              × ((deliver_message t options message s).0.last_error_message ≡ [])
              × (length (deliver_message t options message s).2
                  ≡ (failures (allowed options) s.client).0))
            ⊎ (((failures (allowed options) s.client).1 ≡ false)
                × ((deliver_message t options message s).1 ≢ returned)))
  unfolding deliver_message
  deliver_message_accounts options s h1 h2 h3 = (
    a.attempts ∙ omega arith,
    a.counted,
    a.reconnects,
    a.few.1,
    elim (Bool-cases ((failures (allowed options) s.client).1)) [
      | inl e ↦ inl (e, (a.success e).0, (a.success e).1, (a.success e).2)
      | inr e ↦ inr (e, a.failure e)
    ],
  )
    where
      begun : NetworkSink C
      begun = record s {
        statistics = record (s.statistics) { write_attempts = bump s.statistics.write_attempts };
      }

      a : Accounts (allowed options) begun (attempt t (allowed options) 10 message begun)
      a = attempt-Accounts (allowed options) 10 begun h2 h3
