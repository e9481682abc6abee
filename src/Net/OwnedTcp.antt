-- ===== src/Net/OwnedTcp.antt =====
-- Every operation of `tcp_client` of src/net/socket.cpp leaves open exactly the socket that the client
-- keeps, and the sockets that others have open.
use logspine.Prelude.{
  ℕ, zero, suc, ◌+◌, ◌≡◌, ◌≢◌, ◌⊎◌, inl, inr, sym, Bool, true, false, Option, none, some, List,
  Bytes, drop, subst, arith,
}
use logspine.Net.{Os, close_socket, connect_tcp_socket, Outcome-cases, Sent-cases}
use logspine.Net.Owned.{OpenLaws, opened_onto, connect_tcp_socket-sockets}
use logspine.Net.Tcp.{TcpSocket, tcp_close, tcp_connect, send_loop, send_all}

-- The open sockets are those of others, and the client's own one while it is active.
abbrev pub Owns : List ℕ → Bool → Option ℕ → List ℕ → Type 0
Owns others active handle open_ones =
    ((active ≡ true) × (open_ones ≡ opened_onto handle others) × (handle ≢ none))
    ⊎ ((active ≡ false) × (open_ones ≡ others))

module _ {S : Type 0} (os : Os S) (sockets : S → List ℕ) (laws : OpenLaws os sockets)
    (others : List ℕ) where
  abbrev pub TcpOwns : TcpSocket × S → Type 0
  TcpOwns at = Owns others at.0.connected at.0.socket_handle (sockets at.1)

  pub close_socket-sockets :
      (handle : Option ℕ) (s : S)
      → sockets s ≡ opened_onto handle others
      → sockets (close_socket os handle s) ≡ others
  unfolding close_socket
  close_socket-sockets none s e = e
  close_socket-sockets (some h) s e = laws.close_last h others s e

  pub tcp_close-Owns :
      (at : TcpSocket × S)
      → TcpOwns at
      → ((tcp_close os at).0.connected ≡ false) × (sockets (tcp_close os at).1 ≡ others)
  unfolding tcp_close
  tcp_close-Owns (c, s) (inl (e, o, k)) = ground (arith, close_socket-sockets c.socket_handle s o)
  tcp_close-Owns (c, s) (inr (e, o)) = ground arith

  -- `connect` closes what was open, and leaves the client with its new socket or with none.
  pub tcp_connect-Owns :
      (host : Bytes) (port : ℕ) (at : TcpSocket × S)
      → TcpOwns at
      → TcpOwns (tcp_connect os host port at).0
  unfolding tcp_connect
  tcp_connect-Owns host port at h =
      let closed = tcp_close os at in
      let free = tcp_close-Owns at h in
      let opened = connect_tcp_socket-sockets os sockets laws host port closed.1 in
      elim (Outcome-cases ((connect_tcp_socket os host port closed.1).1)) [
        | inl (n, e) ↦ ground (arith, free, e, opened)
        | inr (w, e) ↦ ground (arith, free, e, opened)
      ]

  send_loop-Owns :
      (fuel : ℕ) (payload : Bytes) (offset : ℕ) (c : TcpSocket) (s : S)
      → c.connected ≡ true
      → TcpOwns (c, s)
      → (r : (TcpSocket × S) × Option Bytes) → send_loop os fuel payload offset (c, s) ≡ some r
      → TcpOwns r.0
  unfolding send_loop
  send_loop-Owns zero payload offset c s up h r e = absurd (cc)
  send_loop-Owns (suc fuel) payload offset c s up h r e =
      let answer = os.send c.socket_handle (drop offset payload) s in
      let owned : TcpOwns (c, answer.0) =
        subst (Owns others c.connected c.socket_handle)
          (sym (laws.send_keeps c.socket_handle (drop offset payload) s)) h in
      let gave_up = tcp_close-Owns (c, answer.0) owned in
      elim (Sent-cases (answer.1)) [
        | inl (n, f) ↦
            ground
              (arith, f, gave_up, send_loop-Owns fuel payload (offset + n) c answer.0 up owned r)
        | inr (inl f) ↦ ground (arith, f, send_loop-Owns fuel payload offset c answer.0 up owned r)
        | inr (inr f) ↦ ground (arith, f, gave_up)
      ]

  pub send_all-Owns :
      (fuel : ℕ) (payload : Bytes) (at : TcpSocket × S)
      → TcpOwns at
      → (r : (TcpSocket × S) × Option Bytes) → send_all os fuel payload at ≡ some r
      → TcpOwns r.0
  unfolding send_all
  send_all-Owns fuel payload (c, s) (inl (up, h, k)) r e =
      ground (arith, send_loop-Owns fuel payload 0 c s up (inl (up, h, k)) r)
  send_all-Owns fuel payload (c, s) (inr (down, o)) r e = ground arith
