-- ===== src/Sinks/Gelf/Write.antt =====
-- `gelf_udp_sink::write` as a whole. The UDP client of src/net and the compression of zlib are
-- parameters.
use mathlib.Core.Option
use logspine.Prelude.{ℕ, ◌==◌, if◌then◌else◌, Bool, Option, none, some, List, [], ◌∷◌, Bytes}
use logspine.Event.{LogEvent}
use logspine.Dispatcher.{Filter, Formatter, should_log}
use logspine.Json.{Platform}
use logspine.Sinks.Gelf.{make_gelf_payload, split_payload}
use logspine.Sinks.Retry.{Transport, RetryOptions, NetworkSink, Ended, returned, deliver_message}

-- `net::udp_client` on its state `C`; the option is the text of an exception.
pub record UdpClient (C : Type 0) : Type 0 where
  pub configure : Bytes → ℕ → C → C × Option Bytes
  pub send : Bytes → C → C × Option Bytes

pub record GelfOptions : Type 0 where
  pub host : Bytes
  pub port : ℕ
  pub source_host : Bytes
  pub retry : RetryOptions
  pub compress : Bool
  pub max_chunk_size : ℕ

-- The payload as it is sent; `zlib` gives no text where it fails.
unfoldable pub gelf_payload :
    Platform
    → (ℕ → Bytes)
    → (Bytes → Option Bytes)
    → GelfOptions
    → Option Formatter
    → LogEvent
    → Bytes
gelf_payload p show_seconds zlib options formatter event =
    let payload : Bytes = elim formatter [
      | some format ↦ format event
      | none ↦ make_gelf_payload p show_seconds event options.source_host
    ] in
    let compressed : Bytes = elim (zlib payload) [ some shorter ↦ shorter | none ↦ payload ] in
    if options.compress then compressed else payload

module _ {C : Type 0} (udp : UdpClient C) where
  -- The loop over the chunks, which an exception ends.
  unfoldable pub send_chunks : List Bytes → C → C × Option Bytes
  send_chunks [] client = (client, none)
  send_chunks (chunk ∷ chunks) client =
      let (after, error) = udp.send chunk client in
      let rest = send_chunks chunks after in
      elim error [ some what ↦ (after, some what) | none ↦ rest ]

  abbrev pub gelf_transport : GelfOptions → Transport C (List Bytes)
  gelf_transport options = record {
    deliver = send_chunks;
    prepare = udp.configure options.host options.port;
  }

  -- The constructor; `none` is an exception.
  unfoldable pub gelf_udp_sink : GelfOptions → C → Option C
  gelf_udp_sink options client =
      let (after, refused) = udp.configure options.host options.port client in
      if options.port == 0 then none else elim refused [ some what ↦ none | none ↦ some after ]

  -- `write`; `none` is the division by zero.
  unfoldable pub gelf_write :
      Platform
      → (ℕ → Bytes)
      → (Bytes → Option Bytes)
      → GelfOptions
      → Option Filter
      → Option Formatter
      → ℕ
      → LogEvent
      → NetworkSink C
      → Option (NetworkSink C × Ended × List ℕ)
  unfolding gelf_payload deliver_message
  gelf_write p show_seconds zlib options filter formatter message_id event s =
      if should_log filter event
      then Option.map (λ chunks. deliver_message (gelf_transport options) options.retry chunks s)
          (split_payload options.max_chunk_size message_id
            (gelf_payload p show_seconds zlib options formatter event))
      else some (s, returned, [])
