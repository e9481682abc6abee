-- ===== src/Sinks/Tcp.antt =====
-- src/sinks/tcp_json_lines_sink.cpp. The TCP client of src/net is a parameter.
pub mod Sockets
mod Tests
use logspine.Prelude.{ℕ, ◌==◌, if◌then◌else◌, Bool, Option, none, some, List, Bytes}
use logspine.Event.{LogEvent}
use logspine.Dispatcher.{Filter, Formatter}
use logspine.Json.{Platform, to_json_lines_record}
use logspine.Sinks.Retry.{Transport, RetryOptions, NetworkSink, Ended}
use logspine.Sinks.Retry

-- `net::tcp_client` on its state `C`; the option is the text of an exception.
pub record TcpClient (C : Type 0) : Type 0 where
  pub connect : Bytes → ℕ → C → C × Option Bytes
  pub send_all : Bytes → C → C × Option Bytes
  pub connected : C → Bool
  pub close : C → C

-- The part of the options that names the peer.
pub record Peer : Type 0 where
  pub host : Bytes
  pub port : ℕ
  pub lazy_connect : Bool

module _ {C : Type 0} (tcp : TcpClient C) (peer : Peer) where
  unfoldable pub ensure_connected : C → C × Option Bytes
  ensure_connected client =
      if tcp.connected client then (client, none) else tcp.connect peer.host peer.port client

  -- The `try` of the loop, and what follows a failure.
  unfoldable pub send_connected : Bytes → C → C × Option Bytes
  unfolding ensure_connected
  send_connected payload client =
      let (after, refused) = ensure_connected client in
      elim refused [ some what ↦ (after, some what) | none ↦ tcp.send_all payload after ]

  abbrev pub tcp_transport : Transport C Bytes
  tcp_transport = record { deliver = send_connected; prepare = λ client. (tcp.close client, none) }

  -- The constructor: the port is tested, and a sink that is not lazy connects at once. `none` is an
  -- exception.
  unfoldable pub connect_at_once : C → Option C
  connect_at_once client =
      let (after, refused) = tcp.connect peer.host peer.port client in
      if peer.port == 0
      then none
      else if peer.lazy_connect
      then some client
      else elim refused [ some what ↦ none | none ↦ some after ]

  -- `write`
  abbrev pub tcp_write :
      Platform
      → RetryOptions
      → Option Filter
      → Option Formatter
      → LogEvent
      → NetworkSink C
      → NetworkSink C × Ended × List ℕ
  tcp_write p options filter formatter =
      Retry.write tcp_transport options filter formatter (to_json_lines_record p)
        (λ payload. payload)
