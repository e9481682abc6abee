-- ===== src/Net/Tcp.antt =====
-- `tcp_client` of src/net/socket.cpp. A client stands with the system's state.
use logspine.Prelude.{
  ℕ, zero, suc, ◌+◌, ltb, ◌==◌, if◌then◌else◌, Bool, true, false, Option, none, some, Bytes, codes,
  length, drop,
}
use logspine.Net.{Os, sent, interrupted, failed, value, throws, close_socket, connect_tcp_socket}

pub record TcpSocket : Type 0 where
  pub socket_handle : Option ℕ
  pub connected : Bool

-- The default constructor.
abbrev pub new_tcp : TcpSocket
new_tcp = record { socket_handle = none; connected = false }

module _ {S : Type 0} (os : Os S) where
  unfoldable pub tcp_close : TcpSocket × S → TcpSocket × S
  unfolding close_socket
  tcp_close (c, s) =
      if c.connected
      then (record { socket_handle = none; connected = false }, close_socket os c.socket_handle s)
      else (c, s)

  unfoldable pub tcp_connect : Bytes → ℕ → TcpSocket × S → (TcpSocket × S) × Option Bytes
  unfolding tcp_close connect_tcp_socket
  tcp_connect host port before =
      let (c, s) = tcp_close before in
      let (s1, result) = connect_tcp_socket os host port s in
      elim result [
        | value h ↦ ((record { socket_handle = some h; connected = true }, s1), none)
        | throws what ↦ ((c, s1), some what)
      ]

  -- The loop of `send_all`; `none` means that the fuel has run out.
  unfoldable pub send_loop : ℕ → Bytes → ℕ → TcpSocket × S → Option ((TcpSocket × S) × Option Bytes)
  unfolding tcp_close
  send_loop zero payload offset before = none
  send_loop (suc fuel) payload offset (c, s) =
      let (s1, answer) = os.send c.socket_handle (drop offset payload) s in
      let gave_up = some (tcp_close (c, s1), some (codes "tcp send failed")) in
      let again : ℕ → Option ((TcpSocket × S) × Option Bytes) =
        λ n. send_loop fuel payload n (c, s1) in
      if ltb offset (length payload)
      then elim answer [
        | interrupted ↦ again offset
        | failed ↦ gave_up
        | sent n ↦ if n == 0 then gave_up else again (offset + n)
      ]
      else some ((c, s), none)

  unfoldable pub send_all : ℕ → Bytes → TcpSocket × S → Option ((TcpSocket × S) × Option Bytes)
  unfolding send_loop
  send_all fuel payload (c, s) =
      if c.connected
      then send_loop fuel payload 0 (c, s)
      else some ((c, s), some (codes "tcp socket is not connected"))
