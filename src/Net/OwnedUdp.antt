-- ===== src/Net/OwnedUdp.antt =====
-- Every operation of `udp_client` of src/net/socket.cpp leaves open exactly the socket that the client
-- keeps, and the sockets that others have open.
use logspine.Prelude.{
  ℕ, zero, suc, ◌≡◌, ◌≢◌, inl, inr, refl, sym, ◌∙◌, true, false, Option, some, List, [], ◌∷◌, Bytes,
  subst, All, arith, Option-cases,
}
use logspine.Decimal.{decimal}
use logspine.Net.{
  AddrInfo, Os, sock_dgram, value, first_opened, configure_udp_socket, Outcome-cases, Sent-cases,
}
use logspine.Net.Owned.{OpenLaws, configure_udp_socket-sockets}
use logspine.Net.Udp.{UdpSocket, configured, udp_close, udp_configure, udp_loop, udp_send}
use logspine.Net.OwnedTcp.{Owns, close_socket-sockets}

-- `getaddrinfo` returns no address of length zero.
abbrev pub NamedAddresses : {S : Type 0} → Os S → Type 0
NamedAddresses {S} os =
    (host service : Bytes) (s : S) (l : List AddrInfo)
    → (os.getaddrinfo host service sock_dgram s).1 ≡ some l
    → All (λ a. a.addr ≢ []) l

configured_lem :
    (handle : Option ℕ) (to : Bytes)
    → to ≢ []
    → configured (record { socket_handle = handle; destination = to }) ≡ true
unfolding configured
configured_lem handle [] named = absurd (named refl)
configured_lem handle (b ∷ to) named = ground arith

module _ {S : Type 0} (os : Os S) where
  first_opened-addr :
      (l : List AddrInfo) (s : S) (pair : ℕ × Bytes)
      → All (λ a. a.addr ≢ []) l
      → (first_opened os l s).1 ≡ some pair
      → pair.1 ≢ []
  unfolding first_opened
  first_opened-addr [] s pair h e = absurd (cc)
  first_opened-addr (a ∷ rest) s pair h e =
      elim (Option-cases ((os.socket a.family a.socktype a.protocol s).1)) [
        | inl f ↦
            first_opened-addr rest (os.socket a.family a.socktype a.protocol s).0 pair h.1
              (ground (arith, f))
        | inr (n, f) ↦
            let same : pair.1 ≡ a.addr = ground (arith, f) in
            λ none_there. h.0 (sym same ∙ none_there)
      ]

  configure_udp_socket-addr :
      NamedAddresses os
      → (host : Bytes) (port : ℕ) (s : S) (pair : ℕ × Bytes)
      → (configure_udp_socket os host port s).1 ≡ value pair
      → pair.1 ≢ []
  unfolding configure_udp_socket
  configure_udp_socket-addr named host port s pair e =
      let found = os.getaddrinfo host (decimal port) sock_dgram s in
      elim (Option-cases found.1) [
        | inl f ↦ absurd (ground (arith, f))
        | inr (l, f) ↦
            first_opened-addr l found.0 pair (named host (decimal port) s l f) (opened l f)
      ]
    where
      opened :
          (l : List AddrInfo)
          → (os.getaddrinfo host (decimal port) sock_dgram s).1 ≡ some l
          → (first_opened os l (os.getaddrinfo host (decimal port) sock_dgram s).0).1 ≡ some pair
      opened l f =
          elim (Option-cases
            ((first_opened os l (os.getaddrinfo host (decimal port) sock_dgram s).0).1)) [
              | inl g ↦ absurd (ground (arith, f, g, e))
              | inr (p, g) ↦ ground (arith, f, g, e)
            ]

module _ {S : Type 0} (os : Os S) (sockets : S → List ℕ) (laws : OpenLaws os sockets)
    (others : List ℕ) where
  abbrev pub UdpOwns : UdpSocket × S → Type 0
  UdpOwns at = Owns others (configured at.0) at.0.socket_handle (sockets at.1)

  udp_close-Owns :
      (at : UdpSocket × S)
      → UdpOwns at
      → (configured (udp_close os at).0 ≡ false) × (sockets (udp_close os at).1 ≡ others)
  unfolding udp_close configured
  udp_close-Owns (c, s) (inl (e, o, k)) =
      ground (arith, close_socket-sockets os sockets laws others c.socket_handle s o)
  udp_close-Owns (c, s) (inr (e, o)) = ground arith

  -- `configure` closes what was open, and leaves the client with its new socket or with none, if the
  -- system has no empty addresses.
  pub udp_configure-Owns :
      (host : Bytes) (port : ℕ) (at : UdpSocket × S)
      → NamedAddresses os
      → UdpOwns at
      → UdpOwns (udp_configure os host port at).0
  unfolding udp_configure
  udp_configure-Owns host port at named h =
      let closed = udp_close os at in
      let free = udp_close-Owns at h in
      let opened = configure_udp_socket-sockets os sockets laws host port closed.1 in
      elim (Outcome-cases ((configure_udp_socket os host port closed.1).1)) [
        | inl (pair, e) ↦
            let whole = configure_udp_socket-addr os named host port closed.1 pair e in
            ground (arith, free, e, opened, configured_lem (some pair.0) pair.1 whole)
        | inr (w, e) ↦ ground (arith, free, e, opened)
      ]

  udp_loop-Owns :
      (fuel : ℕ) (payload : Bytes) (c : UdpSocket) (s : S)
      → UdpOwns (c, s)
      → (r : (UdpSocket × S) × Option Bytes) → udp_loop os fuel payload (c, s) ≡ some r
      → UdpOwns r.0
  unfolding udp_loop
  udp_loop-Owns zero payload c s h r e = absurd (cc)
  udp_loop-Owns (suc fuel) payload c s h r e =
      let answer = os.sendto c.socket_handle payload c.destination s in
      let owned : UdpOwns (c, answer.0) =
        subst (Owns others (configured c) c.socket_handle)
          (sym (laws.sendto_keeps c.socket_handle payload c.destination s)) h in
      let gave_up = udp_close-Owns (c, answer.0) owned in
      elim (Sent-cases (answer.1)) [
        | inl (n, f) ↦ ground (arith, f, owned)
        | inr (inl f) ↦ ground (arith, f, udp_loop-Owns fuel payload c answer.0 owned r)
        | inr (inr f) ↦ ground (arith, f, gave_up)
      ]

  pub udp_send-Owns :
      (fuel : ℕ) (payload : Bytes) (at : UdpSocket × S)
      → UdpOwns at
      → (r : (UdpSocket × S) × Option Bytes) → udp_send os fuel payload at ≡ some r
      → UdpOwns r.0
  unfolding udp_send
  udp_send-Owns fuel payload (c, s) h r e = ground (arith, udp_loop-Owns fuel payload c s h r)
