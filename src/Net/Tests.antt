-- ===== src/Net/Tests.antt =====
-- Runs of the clients on a small system.
use logspine.Prelude.{◌≡◌, refl, true, false, Option, none, some, [], Bytes, codes, arith}
use logspine.Net.Tcp.{TcpSocket, new_tcp, tcp_close, tcp_connect, send_loop, send_all}
use logspine.Net.Udp.{UdpSocket, new_udp, configured}
use logspine.Net.{first_connected, connect_tcp_socket, close_socket, set_socket_timeout}
use logspine.Net.Sending.{AllSent, send_all_returns}
use logspine.Net.SmallOs.{Sys, small_os, small_StreamLaws, booted, got_of, signals_of}

-- A payload in two parts, after two interruptions.
abbrev connected_3 : TcpSocket
connected_3 = record { socket_handle = some 3; connected = true }

connects_to_3 : (tcp_connect small_os (codes "localhost") 514 (new_tcp, booted)).0.0 ≡ connected_3
unfolding tcp_connect tcp_close connect_tcp_socket first_connected set_socket_timeout close_socket
connects_to_3 = refl

abbrev got_after : Option ((TcpSocket × Sys) × Option Bytes) → Option Bytes
got_after none = none
got_after (some r) = some (r.0.1.got 3)

sends_in_parts :
    ◌≡◌ {A = Option Bytes}
      (got_after (send_all small_os 9 (codes "abc") (connected_3, booted)))
      (some (codes "abc"))
unfolding send_all send_loop
sends_in_parts = refl

send_all_returns_example :
    (r : (TcpSocket × Sys) × Option Bytes) × (send_all small_os 6
        (codes "abc")
        (connected_3, booted)
      ≡ some r)
    × AllSent got_of 3 [] (codes "abc") connected_3 r
send_all_returns_example =
    send_all_returns small_os got_of signals_of small_StreamLaws (codes "abc") 3 [] 6 booted
      (omega arith) refl

abbrev named : UdpSocket
named = record { socket_handle = some 3; destination = codes "127.0.0.1" }

is_configured : configured named ≡ true
unfolding configured
is_configured = refl

not_configured : configured new_udp ≡ false
unfolding configured
not_configured = refl
