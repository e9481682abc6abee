-- ===== src/Net/Owned.antt =====
-- Which sockets a client of src/net/socket.cpp has open.
use logspine.Prelude.{
  ℕ, ◌≡◌, inl, inr, refl, ◌∙◌, Option, none, some, List, [], ◌∷◌, Bytes, arith, Option-cases,
  Bool-cases,
}
use logspine.Decimal.{decimal}
use mathlib.Core.Option
use logspine.Net.{
  AddrInfo, Os, SockType, sock_stream, sock_dgram, Outcome, value, throws, close_socket,
  set_socket_timeout, first_connected, connect_tcp_socket, first_opened, configure_udp_socket,
}

-- What the system keeps of its sockets: `::socket` adds the one that it returns, `::close` removes the
-- last one, and the other calls leave them.
pub record OpenLaws {S : Type 0} (os : Os S) (sockets : S → List ℕ) : Type 0 where
  pub socket_none :
      (f t p : ℕ) (s : S) → (os.socket f t p s).1 ≡ none → sockets (os.socket f t p s).0 ≡ sockets s
  pub socket_some :
      (f t p : ℕ) (s : S) (h : ℕ)
      → (os.socket f t p s).1 ≡ some h
      → sockets (os.socket f t p s).0 ≡ h ∷ sockets s
  pub close_last :
      (h : ℕ) (rest : List ℕ) (s : S) → sockets s ≡ h ∷ rest → sockets (os.close h s) ≡ rest
  pub getaddrinfo_keeps :
      (host service : Bytes) (t : SockType) (s : S)
      → sockets (os.getaddrinfo host service t s).0 ≡ sockets s
  pub freeaddrinfo_keeps : (l : List AddrInfo) (s : S) → sockets (os.freeaddrinfo l s) ≡ sockets s
  pub setsockopt_keeps :
      (h seconds micros : ℕ) (s : S) → sockets (os.setsockopt h seconds micros s) ≡ sockets s
  pub connect_keeps : (h : ℕ) (a : Bytes) (s : S) → sockets (os.connect h a s).0 ≡ sockets s
  pub send_keeps : (h : Option ℕ) (b : Bytes) (s : S) → sockets (os.send h b s).0 ≡ sockets s
  pub sendto_keeps :
      (h : Option ℕ) (b a : Bytes) (s : S) → sockets (os.sendto h b a s).0 ≡ sockets s

-- The sockets after an attempt to open one.
abbrev pub opened_onto : Option ℕ → List ℕ → List ℕ
opened_onto none rest = rest
opened_onto (some h) rest = h ∷ rest

abbrev pub outcome_handle : Outcome ℕ → Option ℕ
outcome_handle (value h) = some h
outcome_handle (throws what) = none

abbrev pub pair_handle : Outcome (ℕ × Bytes) → Option ℕ
pair_handle (value pair) = some pair.0
pair_handle (throws what) = none

module _ {S : Type 0} (os : Os S) (sockets : S → List ℕ) (laws : OpenLaws os sockets) where
  first_connected-sockets :
      (l : List AddrInfo) (s : S)
      → sockets (first_connected os l s).0 ≡ opened_onto (first_connected os l s).1 (sockets s)
  unfolding first_connected close_socket set_socket_timeout
  first_connected-sockets [] s = refl
  first_connected-sockets (a ∷ rest) s =
      let s1 = (os.socket a.family a.socktype a.protocol s).0 in
      elim (Option-cases ((os.socket a.family a.socktype a.protocol s).1)) [
        | inl e ↦ ground (
          arith,
          laws.socket_none a.family a.socktype a.protocol s e,
          first_connected-sockets rest s1,
        )
        | inr (h, e) ↦
            let s2 = (os.connect h a.addr (os.setsockopt h 5 0 s1)).0 in
            let here : sockets s2 ≡ h ∷ sockets s =
              laws.connect_keeps h a.addr (os.setsockopt h 5 0 s1)
              ∙ laws.setsockopt_keeps h 5 0 s1
              ∙ laws.socket_some a.family a.socktype a.protocol s h e in
            elim (Bool-cases ((os.connect h a.addr (os.setsockopt h 5 0 s1)).1)) [
              | inl c ↦ ground (arith, here, e, c)
              | inr c ↦ ground (
                arith,
                e,
                c,
                laws.close_last h (sockets s) s2 here,
                first_connected-sockets rest (os.close h s2),
              )
            ]
      ]

  -- `connect_tcp_socket` leaves the socket that it returns open, and no other.
  pub connect_tcp_socket-sockets :
      (host : Bytes) (port : ℕ) (s : S)
      → sockets (connect_tcp_socket os host port s).0
        ≡ opened_onto (outcome_handle (connect_tcp_socket os host port s).1) (sockets s)
  unfolding connect_tcp_socket
  connect_tcp_socket-sockets host port s =
      let found = os.getaddrinfo host (decimal port) sock_stream s in
      let kept = laws.getaddrinfo_keeps host (decimal port) sock_stream s in
      elim (Option-cases found.1) [
        | inl e ↦ ground (arith, e, kept)
        | inr (l, e) ↦
            let freed = laws.freeaddrinfo_keeps l (first_connected os l found.0).0 in
            let loop = first_connected-sockets l found.0 in
            elim (Option-cases ((first_connected os l found.0).1)) [
              | inl c ↦ ground (arith, e, c, kept, freed, loop)
              | inr (h, c) ↦ ground (arith, e, c, kept, freed, loop)
            ]
      ]

  first_opened-sockets :
      (l : List AddrInfo) (s : S)
      → sockets (first_opened os l s).0
        ≡ opened_onto (Option.map (λ pair. pair.0) (first_opened os l s).1) (sockets s)
  unfolding first_opened set_socket_timeout
  first_opened-sockets [] s = refl
  first_opened-sockets (a ∷ rest) s =
      let s1 = (os.socket a.family a.socktype a.protocol s).0 in
      elim (Option-cases ((os.socket a.family a.socktype a.protocol s).1)) [
        | inl e ↦ ground (
          arith,
          laws.socket_none a.family a.socktype a.protocol s e,
          first_opened-sockets rest s1,
        )
        | inr (h, e) ↦ ground (
          arith,
          e,
          laws.setsockopt_keeps h 5 0 s1,
          laws.socket_some a.family a.socktype a.protocol s h e,
        )
      ]

  -- `configure_udp_socket` leaves the socket that it returns open, and no other.
  pub configure_udp_socket-sockets :
      (host : Bytes) (port : ℕ) (s : S)
      → sockets (configure_udp_socket os host port s).0
        ≡ opened_onto (pair_handle (configure_udp_socket os host port s).1) (sockets s)
  unfolding configure_udp_socket
  configure_udp_socket-sockets host port s =
      let found = os.getaddrinfo host (decimal port) sock_dgram s in
      let kept = laws.getaddrinfo_keeps host (decimal port) sock_dgram s in
      elim (Option-cases found.1) [
        | inl e ↦ ground (arith, e, kept)
        | inr (l, e) ↦
            let freed = laws.freeaddrinfo_keeps l (first_opened os l found.0).0 in
            let loop = first_opened-sockets l found.0 in
            elim (Option-cases ((first_opened os l found.0).1)) [
              | inl c ↦ ground (arith, e, c, kept, freed, loop)
              | inr (pair, c) ↦ ground (arith, e, c, kept, freed, loop)
            ]
      ]
