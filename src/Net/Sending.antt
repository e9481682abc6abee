-- ===== src/Net/Sending.antt =====
-- What the clients of src/net/socket.cpp have sent when a call ends, and that it ends.
use native.Mathlib.Decide.{ℕ_discrete, dec_lt}
use logspine.Prelude.{
  ℕ, zero, suc, ◌+◌, ◌-◌, ◌<◌, ◌≤◌, ◌≡◌, ◌⊎◌, inl, inr, refl, sym, ap, ◌∙◌, true, false, Option,
  none, some, ◌++◌, append_assoc, append-nil, Bytes, codes, length, length-drop, take, drop,
  take-add, take_all, arith,
}
use logspine.Net.{Os, sent, interrupted, failed, Sent-cases, close_socket}
use logspine.Net.Tcp.{TcpSocket, tcp_close, send_loop, send_all}

-- `::send` accepts a prefix of its bytes. Only finitely many calls are interrupted. `received` are
-- the bytes that the system accepted for a socket, also after it is closed.
pub record StreamLaws {S : Type 0} (os : Os S) (received : S → ℕ → Bytes) (interruptions : S → ℕ)
    : Type 0 where
  pub send_sent :
      (h n : ℕ) (b : Bytes) (s : S)
      → (os.send (some h) b s).1 ≡ sent n
      → (n ≤ length b)
        × (received (os.send (some h) b s).0 h ≡ received s h ++ take n b)
        × (interruptions (os.send (some h) b s).0 ≤ interruptions s)
  pub send_interrupted :
      (h : ℕ) (b : Bytes) (s : S)
      → (os.send (some h) b s).1 ≡ interrupted
      → (received (os.send (some h) b s).0 h ≡ received s h)
        × (interruptions (os.send (some h) b s).0 < interruptions s)
  pub send_failed :
      (h : ℕ) (b : Bytes) (s : S)
      → (os.send (some h) b s).1 ≡ failed
      → received (os.send (some h) b s).0 h ≡ received s h
  pub close_keeps : (h : ℕ) (s : S) → received (os.close h s) h ≡ received s h

-- How a call of `send_all` on socket `h` ended: everything is sent, or it failed after a part, and
-- the client is closed.
abbrev pub AllSent :
    {S : Type 0}
    → (S → ℕ → Bytes)
    → ℕ
    → Bytes
    → Bytes
    → TcpSocket
    → (TcpSocket × S) × Option Bytes
    → Type 0
AllSent received h before payload c r =
    ((r.1 ≡ none) × (r.0.0 ≡ c) × (received r.0.1 h ≡ before ++ payload))
    ⊎ ((r.1 ≡ some (codes "tcp send failed"))
        × (r.0.0.connected ≡ false)
        × ((n : ℕ) × (n < length payload) × (received r.0.1 h ≡ before ++ take n payload)))

module _ {S : Type 0} (os : Os S) (received : S → ℕ → Bytes) (interruptions : S → ℕ)
    (laws : StreamLaws os received interruptions) (payload : Bytes) (h : ℕ) (before : Bytes) where
  abbrev connected_at : TcpSocket
  connected_at = record { socket_handle = some h; connected = true }

  -- A round that gives up.
  gave_up :
      (offset : ℕ) (s : S)
      → offset < length payload
      → received s h ≡ before ++ take offset payload
      → AllSent received h before payload connected_at
          (tcp_close os (connected_at, s), some (codes "tcp send failed"))
  unfolding tcp_close close_socket
  gave_up offset s lt e = inr (refl, refl, (offset, lt, laws.close_keeps h s ∙ e))

  send_loop_lem :
      (fuel offset : ℕ) (s : S)
      → offset ≤ length payload
      → length payload - offset + interruptions s < fuel
      → received s h ≡ before ++ take offset payload
      → (r : (TcpSocket × S) × Option Bytes) × (send_loop os fuel payload offset (connected_at, s)
          ≡ some r)
        × AllSent received h before payload connected_at r
  unfolding send_loop
  send_loop_lem zero offset s lo enough e = absurd (omega arith)
  send_loop_lem (suc fuel) offset s lo enough e =
      let part = drop offset payload in
      let answer = os.send (some h) part s in
      let room = length-drop offset payload in
      elim (dec_lt offset (length payload)) [
        | no ge ↦ (
          ((connected_at, s), none),
          ground (arith, ge),
          inl (refl, refl, e ∙ ap (λ b. before ++ b) (take_all offset payload (omega arith))),
        )
        | yes lt ↦ elim (Sent-cases (answer.1)) [
          | inl (n, f) ↦
              let ok = laws.send_sent h n part s f in
              let more : received answer.0 h ≡ before ++ take (offset + n) payload =
                ok.1
                ∙ ap (λ b. b ++ take n part) e
                ∙ append_assoc before (take offset payload) (take n part)
                ∙ ap (λ b. before ++ b) (sym (take-add offset n payload)) in
              elim (ℕ_discrete n 0) [
                | yes z ↦ (
                  (tcp_close os (connected_at, answer.0), some (codes "tcp send failed")),
                  ground (arith, f, lt, z),
                  gave_up offset answer.0 lt
                      (more ∙ ap (λ m. before ++ take m payload) (omega (arith, z))),
                )
                | no nz ↦
                    let (r, returns, all) =
                      send_loop_lem fuel (offset + n) answer.0 (omega (arith, ok, room))
                        (omega (arith, ok, room)) more in
                    (r, ground (arith, f, lt, nz, returns), all)
              ]
          | inr (inl f) ↦
              let ok = laws.send_interrupted h part s f in
              let (r, returns, all) =
                send_loop_lem fuel offset answer.0 lo (omega (arith, ok)) (ok.0 ∙ e) in
              (r, ground (arith, f, lt, returns), all)
          | inr (inr f) ↦ (
            (tcp_close os (connected_at, answer.0), some (codes "tcp send failed")),
            ground (arith, f, lt),
            gave_up offset answer.0 lt (laws.send_failed h part s f ∙ e),
          )
        ]
      ]

  -- `send_all` of a connected client returns, over system calls that keep StreamLaws, if it has
  -- more rounds than the payload has bytes and the system has interruptions left together. Without
  -- an exception the system has accepted the payload, all of it and once; with one, a proper
  -- prefix of it, and the client is closed.
  pub send_all_returns :
      (fuel : ℕ) (s : S)
      → length payload + interruptions s < fuel
      → received s h ≡ before
      → (r : (TcpSocket × S) × Option Bytes) × (send_all os fuel payload (connected_at, s) ≡ some r)
        × AllSent received h before payload connected_at r
  unfolding send_all
  send_all_returns fuel s enough e =
      send_loop_lem fuel 0 s (omega arith) (omega arith) (e ∙ sym (append-nil before))
