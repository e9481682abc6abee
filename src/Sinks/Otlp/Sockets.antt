-- ===== src/Sinks/Otlp/Sockets.antt =====
-- The OTLP sink (src/sinks/otlp_http_sink.cpp) over the TCP client (src/net/socket.cpp).
use logspine.Prelude.{ℕ, ◌≡◌, ◌⊎◌, true, Option, none, List, Bytes, arith}
use logspine.Event.{LogEvent}
use logspine.Dispatcher.{Filter, should_log}
use logspine.Json.{Platform}
use logspine.Net.{Os}
use logspine.Net.Tcp.{TcpSocket}
use logspine.Net.Owned.{OpenLaws}
use logspine.Net.OwnedTcp.{TcpOwns}
use logspine.Net.Sending.{StreamLaws}
use logspine.Sinks.Retry.{NetworkSink, Ended, returned, threw}
use logspine.Sinks.Retry
use logspine.Sinks.Tcp.Sockets.{tcp_client, Delivered, deliver_message_sockets}
use logspine.Sinks.Otlp.{
  OtlpOptions, otlp_peer, otlp_retry, otlp_request, otlp_write, make_otlp_json, make_http_post,
}

module _ {S : Type 0} (os : Os S) (sockets : S → List ℕ) (received : S → ℕ → Bytes)
    (interruptions : S → ℕ) (open_laws : OpenLaws os sockets)
    (stream_laws : StreamLaws os received interruptions) (others : List ℕ) where
  -- `write` of the OTLP sink, without a formatter, for an event that passes the filter, over
  -- system calls that keep OpenLaws and StreamLaws, from a client that has no socket but its own
  -- open: so it is afterwards. Either the call returned, and the HTTP request with the event's
  -- OTLP payload is the last that the system has accepted on the open socket of the client, all of
  -- it, or it threw.
  pub otlp_write_delivers :
      (options : OtlpOptions) (p : Platform) (filter : Option Filter) (event : LogEvent)
      (sink : NetworkSink (TcpSocket × S))
      → should_log filter event ≡ true
      → TcpOwns os sockets open_laws others sink.client
      → let out = otlp_write (tcp_client os interruptions) options p filter none event sink in
        let request =
          make_http_post options.host options.path (make_otlp_json p event options.service_name) in
        (TcpOwns os sockets open_laws others out.0.client)
        × (((out.1 ≡ returned)
              × Delivered os sockets received interruptions open_laws stream_laws others request
                  out.0.client)
            ⊎ ((w : Bytes) × (out.1 ≡ threw w)))
  unfolding Retry.write
  otlp_write_delivers options p filter event sink passes own = ground (
    arith,
    passes,
    deliver_message_sockets os sockets received interruptions open_laws stream_laws others
        (otlp_peer options) (otlp_request options (make_otlp_json p event options.service_name))
        (otlp_retry options) sink own,
  )
