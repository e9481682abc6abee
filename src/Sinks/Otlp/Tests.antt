-- ===== src/Sinks/Otlp/Tests.antt =====
-- A request, and the OTLP sink on a small system.
use logspine.Prelude.{ℕ, ◌≡◌, ◌⊎◌, inr, refl, true, none, some, List, [], Bytes, codes, arith}
use logspine.Json.Tests.{platform, event}
use logspine.Net.Tcp.{TcpSocket, new_tcp}
use logspine.Net.OwnedTcp.{TcpOwns}
use logspine.Net.SmallOs.{
  Sys, small_os, small_OpenLaws, small_StreamLaws, booted, handles_of, got_of, signals_of,
}
use logspine.Sinks.Retry.{NetworkSink, Ended, returned, threw}
use logspine.Sinks.Tcp.Sockets.{tcp_client, Delivered}
use logspine.Sinks.Otlp.{OtlpOptions, otlp_write, make_otlp_json, make_http_post}
use logspine.Json.Syntax.{read_json}
use logspine.Sinks.Otlp.Payload.{otlp_json, read_json-make_otlp_json}
use logspine.Sinks.Otlp.Sockets.{otlp_write_delivers}
use logspine.Sinks.Otlp.Request.{read_request, read_request-make_http_post}

abbrev options : OtlpOptions
options = record {
  host = codes "127.0.0.1";
  port = 4318;
  path = codes "/v1/logs";
  service_name = codes "unknown_service";
  lazy_connect = true;
  reconnect_on_failure = true;
  max_write_retries = 1;
}

abbrev sink : NetworkSink (TcpSocket × Sys)
sink = record {
  client = (new_tcp, booted);
  statistics = record { write_attempts = 0; write_failures = 0; reconnect_attempts = 0 };
  last_error_message = [];
}

abbrev written : NetworkSink (TcpSocket × Sys) × Ended × List ℕ
written = otlp_write (tcp_client small_os signals_of) options platform none none event sink

otlp_write_delivers_example :
    (TcpOwns small_os handles_of small_OpenLaws [] written.0.client)
    × (((written.1 ≡ returned)
          × Delivered small_os handles_of got_of signals_of small_OpenLaws small_StreamLaws []
              (make_http_post options.host options.path
                (make_otlp_json platform event options.service_name))
              written.0.client)
        ⊎ ((w : Bytes) × (written.1 ≡ threw w)))
otlp_write_delivers_example =
    otlp_write_delivers small_os handles_of got_of signals_of small_OpenLaws small_StreamLaws []
      options platform none event sink refl (inr (refl, refl))

read_request-make_http_post_example :
    read_request (make_http_post options.host options.path (codes "{}"))
    ≡ some (codes "POST /v1/logs HTTP/1.1", codes "{}")
read_request-make_http_post_example =
    read_request-make_http_post options.host options.path (codes "{}") (omega arith) (omega arith)

read_json-make_otlp_json_example :
    read_json (make_otlp_json platform event (codes "shop"))
    ≡ some (otlp_json platform event (codes "shop"), [])
read_json-make_otlp_json_example = read_json-make_otlp_json platform event (codes "shop")
