-- ===== src/Sinks/Gelf/Tests.antt =====
-- Runs of the splitting into datagrams.
use logspine.Net.Udp.{UdpSocket, new_udp, configured}
use logspine.Net.OwnedUdp.{UdpOwns}
use logspine.Net.SmallOs.{
  Sys, small_os, small_OpenLaws, small_DatagramLaws, small_NamedAddresses, booted, handles_of,
  grams_of, signals_of,
}
use logspine.Sinks.Retry.{NetworkSink, Ended, returned, threw}
use logspine.Sinks.Gelf.Write.{GelfOptions, gelf_payload, gelf_write}
use logspine.Sinks.Gelf.Sockets.{udp_client, AllSent, gelf_write_delivers}
use logspine.Prelude.{
  Option, true, false, ◌⊎◌, inr, ap, ◌∙◌, map, ℕ, ◌*◌, ◌-◌, ◌≤◌, ◌<◌, ◌≡◌, ◌≢◌, ◌∷◌, ◌↔◌, none,
  some, List, [], refl, Bytes, codes, arith, All, length, take,
}
use logspine.Sinks.Gelf.{split_payload, make_gelf_payload}
use logspine.Json.Tests.{platform, platform-PrintsNumbers, event}
use logspine.Json.Syntax.{read_json}
use logspine.Sinks.Gelf.Payload.{gelf_json, read_json-make_gelf_payload}
use logspine.Sinks.Gelf.Ids.{
  generate_gelf_message_id, after_calls, generate_gelf_message_id_differs,
}
use logspine.Sinks.Gelf.Chunks.{
  joined_bodies, headers, split_payload_joins, split_payload_fails_iff,
}

abbrev twenty : Bytes
twenty = codes "abcdefghijklmnopqrst"

split_payload_joins_example :
    (cs : List Bytes) × (split_payload 15 77 twenty ≡ some cs)
    × (joined_bodies cs ≡ take (128 * (15 - 12)) twenty)
    × (length cs ≤ 128)
    × All (λ c. length c ≤ 15) cs
    × (map (take 12) cs ≡ headers 77 (length cs) (length cs) 0)
split_payload_joins_example =
    split_payload_joins 15 77 twenty (omega arith) (omega arith) (omega arith)

split_payload_fails_iff_example :
    (split_payload 12 77 twenty ≡ none) ↔ ((◌≡◌ {A = ℕ} 12 12) × (12 < length twenty))
split_payload_fails_iff_example = split_payload_fails_iff 12 77 twenty (omega arith)

read_json-make_gelf_payload_example :
    read_json (make_gelf_payload platform (λ t. codes "1.5") event (codes "web"))
    ≡ some (gelf_json platform (λ t. codes "1.5") event (codes "web"), [])
read_json-make_gelf_payload_example =
    read_json-make_gelf_payload platform (λ t. codes "1.5") platform-PrintsNumbers event
      (codes "web") (λ e. cc, (refl, (refl, (refl, tt))))

-- The sink on a small system, with a payload that compresses to twenty bytes.
abbrev options : GelfOptions
options = record {
  host = codes "localhost";
  port = 12201;
  source_host = codes "web";
  retry = record { reconnect_on_failure = true; max_write_retries = 1 };
  compress = true;
  max_chunk_size = 15;
}

abbrev to_twenty : Bytes → Option Bytes
to_twenty payload = some twenty

abbrev show : ℕ → Bytes
show t = codes "1.5"

abbrev sink : NetworkSink (UdpSocket × Sys)
sink = record {
  client = (new_udp, booted);
  statistics = record { write_attempts = 0; write_failures = 0; reconnect_attempts = 0 };
  last_error_message = [];
}

abbrev chunks : List Bytes
chunks = (split_payload_joins 15 77 twenty (omega arith) (omega arith) (omega arith)).0

compressed : gelf_payload platform show to_twenty options none event ≡ twenty
unfolding gelf_payload
compressed = refl

in_chunks :
    split_payload 15 77 (gelf_payload platform show to_twenty options none event) ≡ some chunks
in_chunks =
    ap (split_payload 15 77) compressed
    ∙ (split_payload_joins 15 77 twenty (omega arith) (omega arith) (omega arith)).1

not_configured : configured new_udp ≡ false
unfolding configured
not_configured = refl

gelf_write_delivers_example :
    (out : NetworkSink (UdpSocket × Sys) × Ended × List ℕ) × (gelf_write
        (udp_client small_os signals_of)
        platform
        show
        to_twenty
        options
        none
        none
        77
        event
        sink
      ≡ some out)
    × (UdpOwns small_os handles_of small_OpenLaws [] out.0.client)
    × (((out.1 ≡ returned)
          × AllSent small_os handles_of grams_of signals_of small_OpenLaws small_DatagramLaws
              small_NamedAddresses [] chunks out.0.client)
        ⊎ ((w : Bytes) × (out.1 ≡ threw w)))
gelf_write_delivers_example =
    gelf_write_delivers small_os handles_of grams_of signals_of small_OpenLaws small_DatagramLaws
      small_NamedAddresses [] platform show to_twenty options none 77 event sink chunks refl
      (inr (not_configured, refl)) in_chunks

generate_gelf_message_id_differs_example :
    (generate_gelf_message_id 12345 7).0
    ≢ (generate_gelf_message_id 12345
        (after_calls (12345 ∷ 12346 ∷ []) (generate_gelf_message_id 12345 7).1)).0
generate_gelf_message_id_differs_example =
    generate_gelf_message_id_differs 12345 7 (12345 ∷ 12346 ∷ []) (omega arith) (omega arith)
