-- ===== src/Sinks/Tcp/Tests.antt =====
-- The TCP sink on a small system.
use logspine.Prelude.{ℕ, ◌≡◌, ◌⊎◌, inr, refl, true, none, List, [], Bytes, codes}
use logspine.Dispatcher.{should_log}
use logspine.Json.{to_json_lines_record}
use logspine.Json.Tests.{platform, event}
use logspine.Net.Tcp.{TcpSocket, new_tcp}
use logspine.Net.OwnedTcp.{TcpOwns}
use logspine.Net.SmallOs.{
  Sys, small_os, small_OpenLaws, small_StreamLaws, booted, handles_of, got_of, signals_of,
}
use logspine.Sinks.Retry.{RetryOptions, NetworkSink, Ended, returned, threw}
use logspine.Sinks.Tcp.{Peer, tcp_write}
use logspine.Sinks.Tcp.Sockets.{tcp_client, Delivered, tcp_write_delivers}

abbrev peer : Peer
peer = record { host = codes "localhost"; port = 514; lazy_connect = true }

abbrev once_more : RetryOptions
once_more = record { reconnect_on_failure = true; max_write_retries = 1 }

abbrev sink : NetworkSink (TcpSocket × Sys)
sink = record {
  client = (new_tcp, booted);
  statistics = record { write_attempts = 0; write_failures = 0; reconnect_attempts = 0 };
  last_error_message = [];
}

abbrev written : NetworkSink (TcpSocket × Sys) × Ended × List ℕ
written = tcp_write (tcp_client small_os signals_of) peer platform once_more none none event sink

unfiltered : should_log none event ≡ true
unfiltered = refl

tcp_write_delivers_example :
    (TcpOwns small_os handles_of small_OpenLaws [] written.0.client)
    × (((written.1 ≡ returned)
          × Delivered small_os handles_of got_of signals_of small_OpenLaws small_StreamLaws []
              (to_json_lines_record platform event)
              written.0.client)
        ⊎ ((w : Bytes) × (written.1 ≡ threw w)))
tcp_write_delivers_example =
    tcp_write_delivers small_os handles_of got_of signals_of small_OpenLaws small_StreamLaws [] peer
      platform once_more none event sink unfiltered (inr (refl, refl))
