-- ===== src/Net/Udp.antt =====
-- `udp_client` of src/net/socket.cpp. A client stands with the system's state.
use logspine.Prelude.{
  ℕ, zero, suc, ◌==◌, not, if◌then◌else◌, Bool, Option, none, some, [], Bytes, codes, length,
}
use logspine.Net.{Os, sent, interrupted, failed, value, throws, close_socket, configure_udp_socket}

pub record UdpSocket : Type 0 where
  pub socket_handle : Option ℕ
  pub destination : Bytes

abbrev pub new_udp : UdpSocket
new_udp = record { socket_handle = none; destination = [] }

unfoldable pub configured : UdpSocket → Bool
configured c = not (length c.destination == 0)

module _ {S : Type 0} (os : Os S) where
  unfoldable pub udp_close : UdpSocket × S → UdpSocket × S
  unfolding close_socket configured
  udp_close (c, s) =
      if configured c
      then (record { socket_handle = none; destination = [] }, close_socket os c.socket_handle s)
      else (c, s)

  unfoldable pub udp_configure : Bytes → ℕ → UdpSocket × S → (UdpSocket × S) × Option Bytes
  unfolding udp_close configure_udp_socket
  udp_configure host port before =
      let (c, s) = udp_close before in
      let (s1, result) = configure_udp_socket os host port s in
      elim result [
        | value pair ↦ ((record { socket_handle = some pair.0; destination = pair.1 }, s1), none)
        | throws what ↦ ((c, s1), some what)
      ]

  -- The loop of `send`; `none` means that the fuel has run out.
  unfoldable pub udp_loop : ℕ → Bytes → UdpSocket × S → Option ((UdpSocket × S) × Option Bytes)
  unfolding udp_close
  udp_loop zero payload before = none
  udp_loop (suc fuel) payload (c, s) =
      let (s1, answer) = os.sendto c.socket_handle payload c.destination s in
      let again = udp_loop fuel payload (c, s1) in
      elim answer [
        | interrupted ↦ again
        | failed ↦ some (udp_close (c, s1), some (codes "udp send failed"))
        | sent n ↦ some ((c, s1), none)
      ]

  unfoldable pub udp_send : ℕ → Bytes → UdpSocket × S → Option ((UdpSocket × S) × Option Bytes)
  unfolding udp_loop configured
  udp_send fuel payload (c, s) =
      if configured c
      then udp_loop fuel payload (c, s)
      else some ((c, s), some (codes "udp socket is not configured"))
