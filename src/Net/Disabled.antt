-- ===== src/Net/Disabled.antt =====
-- The clients of src/net/socket.cpp in a build without a network.
use logspine.Prelude.{
  ℕ, zero, suc, ◌*◌, ◌≡◌, refl, min, true, false, Option, none, some, Bytes, codes, arith,
  if◌then◌else◌,
}
use logspine.Event.{LogEvent}
use logspine.Dispatcher.{bump, Filter, should_log}
use logspine.Json.{Platform, to_json_lines_record}
use logspine.Sinks.Retry.{
  RetryOptions, NetworkSink, threw, attempt, deliver_message, record_failure, record_reconnect,
}
use logspine.Sinks.Retry
use logspine.Sinks.Tcp.{
  TcpClient, Peer, ensure_connected, send_connected, tcp_transport, connect_at_once, tcp_write,
}
use logspine.Sinks.Gelf.Write.{UdpClient, GelfOptions, gelf_udp_sink}

abbrev is_disabled : Option Bytes
is_disabled = some (codes "network support is disabled")

module _ {C : Type 0} where
  abbrev disabled_tcp : TcpClient C
  disabled_tcp = record {
    connect = λ host port c. (c, is_disabled);
    send_all = λ payload c. (c, is_disabled);
    connected = λ c. false;
    close = λ c. c;
  }

  abbrev disabled_udp : UdpClient C
  disabled_udp = record {
    configure = λ host port c. (c, is_disabled);
    send = λ payload c. (c, is_disabled);
  }

  attempt_throws :
      (peer : Peer) (payload : Bytes) (n b : ℕ) (s : NetworkSink C)
      → ((attempt (tcp_transport disabled_tcp peer) n b payload s).1
          ≡ threw (codes "network support is disabled"))
        × ((attempt (tcp_transport disabled_tcp peer) n b payload s).0.last_error_message
            ≡ codes "network support is disabled")
  unfolding attempt send_connected ensure_connected
  attempt_throws peer payload zero b s = (refl, refl)
  attempt_throws peer payload (suc n) b s =
      attempt_throws peer payload n (min (b * 2) 1000)
        (record_reconnect (record_failure (codes "network support is disabled") s))

  -- `write` of a TCP sink throws for every event that passes the filter, after all retries, and
  -- keeps the reason.
  tcp_write_throws :
      (peer : Peer) (p : Platform) (options : RetryOptions) (filter : Option Filter)
      (event : LogEvent) (s : NetworkSink C)
      → should_log filter event ≡ true
      → let out = tcp_write disabled_tcp peer p options filter none event s in
        (out.1 ≡ threw (codes "network support is disabled"))
        × (out.0.last_error_message ≡ codes "network support is disabled")
  unfolding Retry.write deliver_message
  tcp_write_throws peer p options filter event s passes = ground (
    arith,
    passes,
    attempt_throws peer (to_json_lines_record p event)
        (if options.reconnect_on_failure then options.max_write_retries else 0) 10
        (record s {
          statistics = record (s.statistics) { write_attempts = bump s.statistics.write_attempts };
        }),
  )

  -- A GELF sink, and a TCP sink that connects at once, cannot be made.
  gelf_udp_sink_throws :
      (options : GelfOptions) (c : C) → gelf_udp_sink disabled_udp options c ≡ none
  unfolding gelf_udp_sink
  gelf_udp_sink_throws options c = ground arith

  connect_at_once_throws :
      (peer : Peer) (c : C) → peer.lazy_connect ≡ false → connect_at_once disabled_tcp peer c ≡ none
  unfolding connect_at_once
  connect_at_once_throws peer c eager = ground arith
