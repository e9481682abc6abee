-- ===== src/Sinks/Otlp.antt =====
-- src/sinks/otlp_http_sink.cpp: the OTLP payload and the HTTP request.
pub mod Sockets
pub mod Request
pub mod Payload
mod Tests
use logspine.Prelude.{
  ℕ, ◌*◌, if◌then◌else◌, Bool, true, false, Option, none, some, List, [], ◌∷◌, ◌++◌, Bytes, codes,
  length,
}
use logspine.Decimal.{decimal}
use logspine.Level
use logspine.Level.{underlying}
use logspine.Event.{Field, LogEvent}
use logspine.Dispatcher.{Filter, Formatter}
use logspine.Json.{Platform, append_json_escaped, value_to_json}
use logspine.Sinks.Retry.{RetryOptions, NetworkSink, Ended}
use logspine.Sinks.Retry
use logspine.Sinks.Tcp.{TcpClient, Peer, tcp_transport, connect_at_once}

-- The lambda `add_string`, behind the first member.
unfoldable pub add_string : Bytes → Bytes → Bytes → Bytes
add_string key val output =
    append_json_escaped val (output ++ codes ",\"" ++ key ++ codes "\":\"") ++ codes "\""

abbrev pub add_optional : Bytes → Option Bytes → Bytes → Bytes
add_optional key none output = output
add_optional key (some val) output = add_string key val output

module _ (p : Platform) where
  -- The loop over the fields, with its flag `first_attr`.
  append_attributes : Bool → List Field → Bytes → Bytes
  append_attributes first [] output = output
  append_attributes first (entry ∷ fields) output =
      let o1 = if first then output else output ++ codes "," in
      let o2 = append_json_escaped entry.key (o1 ++ codes "{\"key\":\"") in
      let o3 =
        append_json_escaped (value_to_json p entry.value)
          (o2 ++ codes "\",\"value\":{\"stringValue\":\"") in
      append_attributes false fields (o3 ++ codes "\"}}")

  attributes_member : List Field → Bytes → Bytes
  unfolding append_attributes
  attributes_member [] output = output
  attributes_member (entry ∷ fields) output =
      append_attributes true (entry ∷ fields) (output ++ codes ",\"attributes\":[") ++ codes "]"

  unfoldable pub make_otlp_json : LogEvent → Bytes → Bytes
  unfolding attributes_member add_string
  make_otlp_json event service_name =
      let o1 = append_json_escaped service_name (
        codes
          "{\"resourceLogs\":[{\"resource\":{\"attributes\":[{\"key\":\"service.name\",\"value\":{\"stringValue\":\"") in
      let o2 = o1 ++ codes "\"}}]},\"scopeLogs\":[{\"scope\":{},\"logRecords\":[{" in
      let o3 = o2 ++ codes "\"timeUnixNano\":\"" ++ decimal event.timestamp ++ codes "\"" in
      let o4 = add_string (codes "severityText") (Level.to_string event.severity) o3 in
      let o5 = o4 ++ codes ",\"severityNumber\":" ++ decimal (underlying event.severity * 4) in
      let o6 =
        add_optional (codes "spanId") event.span_id
          (add_optional (codes "traceId") event.trace_id o5) in
      let o7 =
        append_json_escaped event.message (o6 ++ codes ",\"body\":{\"stringValue\":\"")
        ++ codes "\"}" in
      attributes_member event.fields o7 ++ codes "}]}]}]}"

abbrev crlf : Bytes
crlf = 0x0D ∷ 0x0A ∷ []

unfoldable pub make_http_post : Bytes → Bytes → Bytes → Bytes
make_http_post host path body =
    codes "POST "
    ++ path
    ++ codes " HTTP/1.1"
    ++ crlf
    ++ (codes "Host: " ++ host ++ crlf)
    ++ (codes "Content-Type: application/json" ++ crlf)
    ++ (codes "Content-Length: " ++ decimal (length body) ++ crlf)
    ++ (codes "Connection: keep-alive" ++ crlf)
    ++ crlf
    ++ body

-- `otlp_http_sink_options`
pub record OtlpOptions : Type 0 where
  pub host : Bytes
  pub port : ℕ
  pub path : Bytes
  pub service_name : Bytes
  pub lazy_connect : Bool
  pub reconnect_on_failure : Bool
  pub max_write_retries : ℕ

-- The parts that the TCP sink has too.
abbrev pub otlp_peer : OtlpOptions → Peer
otlp_peer options = record {
  host = options.host;
  port = options.port;
  lazy_connect = options.lazy_connect;
}

abbrev pub otlp_retry : OtlpOptions → RetryOptions
otlp_retry options = record {
  reconnect_on_failure = options.reconnect_on_failure;
  max_write_retries = options.max_write_retries;
}

-- The request for a payload.
abbrev pub otlp_request : OtlpOptions → Bytes → Bytes
otlp_request options payload = make_http_post options.host options.path payload

module _ {C : Type 0} (tcp : TcpClient C) (options : OtlpOptions) where
  -- The constructor; `none` is an exception.
  abbrev pub otlp_http_sink : C → Option C
  otlp_http_sink = connect_at_once tcp (otlp_peer options)

  -- `write`; the client is used as by the TCP sink.
  abbrev pub otlp_write :
      Platform
      → Option Filter
      → Option Formatter
      → LogEvent
      → NetworkSink C
      → NetworkSink C × Ended × List ℕ
  otlp_write p filter formatter =
      Retry.write (tcp_transport tcp (otlp_peer options)) (otlp_retry options) filter formatter
        (λ event. make_otlp_json p event options.service_name) (otlp_request options)

-- `write_failures`, `connected`, `statistics` and `last_error_message`
module _ {C : Type 0} (s : NetworkSink C) where
  abbrev pub write_failures : ℕ
  write_failures = s.statistics.write_failures

  abbrev pub is_connected : TcpClient C → Bool
  is_connected tcp = tcp.connected s.client
