-- ===== src/Sinks/Retry/Keeps.antt =====
-- What the delivery loop keeps of the client, and what it leaves when it returns.
use logspine.Prelude.{
  List, if◌then◌else◌, ℕ, zero, suc, ◌*◌, ◌≡◌, ◌⊎◌, inl, inr, min, none, Bytes, arith, Option-cases,
}
use logspine.Dispatcher.{bump}
use logspine.Sinks.Retry.{
  Transport, RetryOptions, NetworkSink, Ended, returned, threw, attempt, deliver_message,
  record_failure, record_reconnect,
}

module _ {C M : Type 0} (t : Transport C M) (message : M) (I P : C → Type 0)
    (keeps : (c : C) → I c → I (t.deliver message c).0)
    (prepared : (c : C) → I c → I (t.prepare c).0)
    (done : (c : C) → I c → (t.deliver message c).1 ≡ none → P (t.deliver message c).0) where
  -- `I` holds of the client; if the call returned, `P` too.
  abbrev pub Kept : NetworkSink C × Ended × List ℕ → Type 0
  Kept out =
      (I out.0.client) × (((out.1 ≡ returned) × P out.0.client) ⊎ ((w : Bytes) × (out.1 ≡ threw w)))

  attempt-Kept : (n b : ℕ) (s : NetworkSink C) → I s.client → Kept (attempt t n b message s)
  unfolding attempt
  attempt-Kept zero b s h = elim (Option-cases ((t.deliver message s.client).1)) [
    | inl e ↦ ground (arith, e, keeps s.client h, done s.client h)
    | inr (w, e) ↦ ground (arith, e, keeps s.client h)
  ]
  attempt-Kept (suc n) b s h =
      let c = (t.deliver message s.client).0 in
      let k : I c = keeps s.client h in
      elim (Option-cases ((t.deliver message s.client).1)) [
        | inl e ↦ ground (arith, e, k, done s.client h)
        | inr (w, e) ↦ elim (Option-cases ((t.prepare c).1)) [
          | inr (w', e') ↦ ground (arith, e, e', prepared c k)
          | inl e' ↦
              let again : NetworkSink C =
                record (record_reconnect (record_failure w (record s { client = c }))) {
                  client = (t.prepare c).0;
                } in
              ground (arith, e, e', attempt-Kept n (min (b * 2) 1000) again (prepared c k))
        ]
      ]

  pub deliver_message-Kept :
      (options : RetryOptions) (s : NetworkSink C)
      → I s.client
      → Kept (deliver_message t options message s)
  unfolding deliver_message
  deliver_message-Kept options s h =
      attempt-Kept (if options.reconnect_on_failure then options.max_write_retries else 0) 10
        (record s {
          statistics = record (s.statistics) { write_attempts = bump s.statistics.write_attempts };
        })
        h
