-- ===== src/Sinks/Gelf.antt =====
-- src/sinks/network_payloads.cpp and the chunks of src/sinks/gelf_udp_sink.cpp.
pub mod Chunks
pub mod Write
pub mod Sockets
pub mod Payload
pub mod Ids
mod Tests
use logspine.Prelude.{
  ℕ, zero, suc, ◌+◌, ◌-◌, ◌*◌, ◌/◌, ◌%◌, ◌^◌, ltb, ◌==◌, if◌then◌else◌, Bool, Option, none, some,
  List, [], ◌∷◌, ◌++◌, Bytes, codes, length, take, drop, min,
}
use logspine.Decimal.{decimal}
use logspine.Level.{to_gelf_level}
use logspine.Event.{Field, LogEvent}
use logspine.Json.{Platform, append_json_escaped, value_to_json, push_back, to_json_lines_record}

-- The text of `std::to_string` of the timestamp in seconds; a `system_clock` time is finite.
module _ (p : Platform) (show_seconds : ℕ → Bytes) where
  -- The loop over the fields.
  append_gelf_fields : List Field → Bytes → Bytes
  append_gelf_fields [] output = output
  append_gelf_fields (entry ∷ fields) output = append_gelf_fields fields (
      (append_json_escaped entry.key (output ++ codes ",\"_") ++ codes "\":")
      ++ value_to_json p entry.value)

  unfoldable pub make_gelf_payload : LogEvent → Bytes → Bytes
  unfolding append_gelf_fields
  make_gelf_payload event source_host =
      let o1 = append_json_escaped source_host (codes "{\"version\":\"1.1\",\"host\":\"") in
      let o2 = append_json_escaped event.message (o1 ++ codes "\",\"short_message\":\"") in
      let o3 = (o2 ++ codes "\",\"timestamp\":") ++ show_seconds event.timestamp in
      let o4 = (o3 ++ codes ",\"level\":") ++ decimal (to_gelf_level event.severity) in
      let o5 = append_json_escaped event.logger_name (o4 ++ codes ",\"_logger\":\"") in
      push_back b'}' (append_gelf_fields event.fields (push_back b'"' o5))

-- `static_cast<char>((message_id >> (b * 8)) & 0xFF)` for `b` from 0 to 7.
abbrev pub id_bytes : ℕ → ℕ → Bytes
id_bytes zero message_id = []
id_bytes (suc n) message_id = (message_id % 256) ∷ id_bytes n (message_id / 256)

-- The body of the loop over `i`. A count of at most 128 and an index below it fit a char.
unfoldable pub make_chunk : ℕ → ℕ → ℕ → ℕ → Bytes → Bytes
make_chunk message_id max_payload_per_chunk chunks_to_send i payload =
    let offset = i * max_payload_per_chunk in
    let size = min max_payload_per_chunk (length payload - offset) in
    0x1E ∷ 0x0F ∷ (id_bytes 8 message_id ++ (i ∷ chunks_to_send ∷ take size (drop offset payload)))

-- The loop, with the rounds left and the index.
make_chunks : ℕ → ℕ → ℕ → ℕ → ℕ → Bytes → List Bytes
unfolding make_chunk
make_chunks zero i message_id max_payload_per_chunk chunks_to_send payload = []
make_chunks (suc rounds) i message_id max_payload_per_chunk chunks_to_send payload =
    make_chunk message_id max_payload_per_chunk chunks_to_send i payload
    ∷ make_chunks rounds (i + 1) message_id max_payload_per_chunk chunks_to_send payload

abbrev pub total_chunks : ℕ → ℕ → ℕ
total_chunks size max_payload_per_chunk =
    ((size + max_payload_per_chunk + 2 ^ 64 - 1) % 2 ^ 64) / max_payload_per_chunk

-- The datagrams of a payload. `none` is the division by zero at a chunk size of 12; the subtraction
-- of the header's 12 bytes wraps round below that.
unfoldable pub split_payload : ℕ → ℕ → Bytes → Option (List Bytes)
unfolding make_chunks
split_payload max_chunk_size message_id payload =
    if ltb max_chunk_size (length payload)
    then (let max_payload_per_chunk = (max_chunk_size + 2 ^ 64 - 12) % 2 ^ 64 in
        let chunks_to_send = min (total_chunks (length payload) max_payload_per_chunk) 128 in
        if max_payload_per_chunk == 0
        then none
        else some
            (make_chunks chunks_to_send 0 message_id max_payload_per_chunk chunks_to_send payload))
    else some (payload ∷ [])
