-- ===== src/Net/SendingUdp.antt =====
-- What `udp_client::send` of src/net/socket.cpp has sent when it ends, and that it ends.
use logspine.Prelude.{
  ℕ, zero, suc, ◌<◌, ◌≡◌, ◌⊎◌, inl, inr, refl, ◌∙◌, true, false, Option, none, some, List, [], ◌∷◌,
  ◌++◌, Bytes, codes, subst, Option-cases, arith,
}
use logspine.Net.{Os, sent, interrupted, failed, Sent-cases, close_socket}
use logspine.Net.Udp.{UdpSocket, configured, udp_close, udp_loop, udp_send}

-- `::sendto` sends a datagram whole. Only finitely many calls are interrupted. `datagrams` are those
-- that the system accepted, each with its destination.
pub record DatagramLaws {S : Type 0} (os : Os S) (datagrams : S → List (Bytes × Bytes))
    (interruptions : S → ℕ) : Type 0 where
  pub sendto_sent :
      (h : Option ℕ) (n : ℕ) (b a : Bytes) (s : S)
      → (os.sendto h b a s).1 ≡ sent n
      → datagrams (os.sendto h b a s).0 ≡ datagrams s ++ ((a, b) ∷ [])
  pub sendto_interrupted :
      (h : Option ℕ) (b a : Bytes) (s : S)
      → (os.sendto h b a s).1 ≡ interrupted
      → (datagrams (os.sendto h b a s).0 ≡ datagrams s)
        × (interruptions (os.sendto h b a s).0 < interruptions s)
  pub sendto_failed :
      (h : Option ℕ) (b a : Bytes) (s : S)
      → (os.sendto h b a s).1 ≡ failed
      → datagrams (os.sendto h b a s).0 ≡ datagrams s
  pub close_keeps : (h : ℕ) (s : S) → datagrams (os.close h s) ≡ datagrams s

-- How a call of `send` ended: the datagram is sent once, or it failed and the client is closed.
abbrev pub Sent1 :
    {S : Type 0}
    → (S → List (Bytes × Bytes))
    → Bytes
    → UdpSocket
    → List (Bytes × Bytes)
    → (UdpSocket × S) × Option Bytes
    → Type 0
Sent1 datagrams payload c before r =
    ((r.1 ≡ none) × (r.0.0 ≡ c) × (datagrams r.0.1 ≡ before ++ ((c.destination, payload) ∷ [])))
    ⊎ ((r.1 ≡ some (codes "udp send failed"))
        × (configured r.0.0 ≡ false)
        × (datagrams r.0.1 ≡ before))

module _ {S : Type 0} (os : Os S) (datagrams : S → List (Bytes × Bytes)) (interruptions : S → ℕ)
    (laws : DatagramLaws os datagrams interruptions) (payload : Bytes) (c : UdpSocket) where
  udp_close-datagrams :
      (s : S)
      → configured c ≡ true
      → (configured (udp_close os (c, s)).0 ≡ false)
        × (datagrams (udp_close os (c, s)).1 ≡ datagrams s)
  unfolding udp_close close_socket configured
  udp_close-datagrams s up = elim (Option-cases (c.socket_handle)) [
    | inl e ↦ ground (arith, e)
    | inr (h, e) ↦ ground (arith, e, laws.close_keeps h s)
  ]

  udp_loop_lem :
      (fuel : ℕ) (s : S)
      → configured c ≡ true
      → interruptions s < fuel
      → (r : (UdpSocket × S) × Option Bytes) × (udp_loop os fuel payload (c, s) ≡ some r)
        × Sent1 datagrams payload c (datagrams s) r
  unfolding udp_loop
  udp_loop_lem zero s up enough = absurd (omega arith)
  udp_loop_lem (suc fuel) s up enough =
      let answer = os.sendto c.socket_handle payload c.destination s in
      elim (Sent-cases (answer.1)) [
        | inl (n, f) ↦ (
          ((c, answer.0), none),
          ground (arith, f),
          inl (refl, refl, laws.sendto_sent c.socket_handle n payload c.destination s f),
        )
        | inr (inl f) ↦
            let ok = laws.sendto_interrupted c.socket_handle payload c.destination s f in
            let (r, returns, all) = udp_loop_lem fuel answer.0 up (omega (arith, ok)) in
            (r, ground (arith, f, returns), subst (λ d. Sent1 datagrams payload c d r) ok.0 all)
        | inr (inr f) ↦
            let closed = udp_close-datagrams answer.0 up in
            (
              (udp_close os (c, answer.0), some (codes "udp send failed")),
              ground (arith, f),
              inr (
                refl,
                closed.0,
                closed.1 ∙ laws.sendto_failed c.socket_handle payload c.destination s f,
              ),
            )
      ]

  -- `send` of a configured client returns, if it has more rounds than the system has interruptions
  -- left. Without an exception the system has accepted one more datagram, the payload for the
  -- client's destination; with one, it has accepted none, and the client is closed.
  pub udp_send_returns :
      (fuel : ℕ) (s : S)
      → configured c ≡ true
      → interruptions s < fuel
      → (r : (UdpSocket × S) × Option Bytes) × (udp_send os fuel payload (c, s) ≡ some r)
        × Sent1 datagrams payload c (datagrams s) r
  unfolding udp_send
  udp_send_returns fuel s up enough =
      let (r, returns, all) = udp_loop_lem fuel s up enough in (r, ground (arith, up, returns), all)
