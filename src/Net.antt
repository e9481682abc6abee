-- ===== src/Net.antt =====
-- src/net/socket.cpp for POSIX: what it asks of the operating system, and the two ways in which it
-- opens a socket.
pub mod Tcp
pub mod Owned
pub mod OwnedTcp
pub mod OwnedUdp
pub mod Sending
pub mod SendingUdp
pub mod Udp
mod Disabled
pub mod SmallOs
mod Tests
use logspine.Prelude.{
  ℕ, ◌*◌, ◌/◌, ◌%◌, ◌≡◌, ◌⊎◌, inl, inr, refl, if◌then◌else◌, Bool, true, false, Option, none, some,
  List, [], ◌∷◌, Bytes, codes,
}
use logspine.Decimal.{decimal}

-- An entry of the list that `getaddrinfo` returns. `addr` has `ai_addrlen` bytes.
pub record AddrInfo : Type 0 where
  pub family : ℕ
  pub socktype : ℕ
  pub protocol : ℕ
  pub addr : Bytes

pub data SockType : Type 0 where
  sock_stream sock_dgram : SockType

-- The result of `::send` and `::sendto`: a count, or a negative number with `errno == EINTR` or with
-- another error.
pub data Sent : Type 0 where
  sent : ℕ → Sent
  interrupted : Sent
  failed : Sent

-- The calls, on a state `S` of the system. A socket is `none` where it is `invalid_socket`, and
-- `getaddrinfo` has no list when it fails.
pub record Os (S : Type 0) : Type 0 where
  pub getaddrinfo : Bytes → Bytes → SockType → S → S × Option (List AddrInfo)
  pub freeaddrinfo : List AddrInfo → S → S
  pub socket : ℕ → ℕ → ℕ → S → S × Option ℕ
  -- `SO_SNDTIMEO` with seconds and microseconds
  pub setsockopt : ℕ → ℕ → ℕ → S → S
  pub connect : ℕ → Bytes → S → S × Bool
  pub send : Option ℕ → Bytes → S → S × Sent
  pub sendto : Option ℕ → Bytes → Bytes → S → S × Sent
  pub close : ℕ → S → S

-- A value, or the text of an exception.
pub data Outcome (A : Type 0) : Type 0 where
  value : A → Outcome A
  throws : Bytes → Outcome A

pub Outcome-cases :
    {A : Type 0} (o : Outcome A) → ((a : A) × (o ≡ value a)) ⊎ ((w : Bytes) × (o ≡ throws w))
Outcome-cases (value a) = inl (a, refl)
Outcome-cases (throws w) = inr (w, refl)

pub Sent-cases : (o : Sent) → ((n : ℕ) × (o ≡ sent n)) ⊎ ((o ≡ interrupted) ⊎ (o ≡ failed))
Sent-cases (sent n) = inl (n, refl)
Sent-cases interrupted = inr (inl refl)
Sent-cases failed = inr (inr refl)

module _ {S : Type 0} (os : Os S) where
  unfoldable pub close_socket : Option ℕ → S → S
  close_socket none s = s
  close_socket (some h) s = os.close h s

  unfoldable pub set_socket_timeout : ℕ → ℕ → S → S
  set_socket_timeout h timeout_ms s =
      os.setsockopt h (timeout_ms / 1000) (timeout_ms % 1000 * 1000) s

  -- The loop of `connect_tcp_socket`.
  unfoldable pub first_connected : List AddrInfo → S → S × Option ℕ
  unfolding close_socket set_socket_timeout
  first_connected [] s = (s, none)
  first_connected (a ∷ rest) s =
      let (s1, opened) = os.socket a.family a.socktype a.protocol s in
      elim opened [
        | none ↦ first_connected rest s1
        | some h ↦
            let (s2, connected) = os.connect h a.addr (set_socket_timeout h 5000 s1) in
            elim connected [
              | true ↦ (s2, some h)
              | false ↦ first_connected rest (close_socket (some h) s2)
            ]
      ]

  unfoldable pub connect_tcp_socket : Bytes → ℕ → S → S × Outcome ℕ
  unfolding first_connected decimal
  connect_tcp_socket host port s =
      let (s1, found) = os.getaddrinfo host (decimal port) sock_stream s in
      elim found [
        | none ↦ (s1, throws (codes "getaddrinfo failed"))
        | some result ↦
            let (s2, handle) = first_connected result s1 in
            elim handle [
              | none ↦ (os.freeaddrinfo result s2, throws (codes "tcp connect failed"))
              | some h ↦ (os.freeaddrinfo result s2, value h)
            ]
      ]

  -- The loop of `configure_udp_socket`.
  unfoldable pub first_opened : List AddrInfo → S → S × Option (ℕ × Bytes)
  unfolding set_socket_timeout
  first_opened [] s = (s, none)
  first_opened (a ∷ rest) s =
      let (s1, opened) = os.socket a.family a.socktype a.protocol s in
      elim opened [
        | none ↦ first_opened rest s1
        | some h ↦ (set_socket_timeout h 5000 s1, some (h, a.addr))
      ]

  unfoldable pub configure_udp_socket : Bytes → ℕ → S → S × Outcome (ℕ × Bytes)
  unfolding first_opened decimal
  configure_udp_socket host port s =
      let (s1, found) = os.getaddrinfo host (decimal port) sock_dgram s in
      elim found [
        | none ↦ (s1, throws (codes "getaddrinfo failed"))
        | some result ↦
            let (s2, opened) = first_opened result s1 in
            elim opened [
              | none ↦ (os.freeaddrinfo result s2, throws (codes "udp socket creation failed"))
              | some pair ↦ (os.freeaddrinfo result s2, value pair)
            ]
      ]
