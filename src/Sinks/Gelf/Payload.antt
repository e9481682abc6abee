-- ===== src/Sinks/Gelf/Payload.antt =====
-- `make_gelf_payload` of src/sinks/network_payloads.cpp is a JSON document, which reads back.
use logspine.Prelude.{
  ℕ, ◌≡◌, sym, ◌∙◌, false, some, List, [], ◌∷◌, ◌++◌, append_assoc, append-nil, Bytes, codes,
}
use logspine.Decimal.{decimal}
use logspine.Level.{to_gelf_level}
use logspine.Event.{Field, LogEvent}
use logspine.Json.{Platform, value_to_json, escape_byte}
use logspine.Json.Escape.{append_json_escaped-eq}
use logspine.Json.Syntax.{Json, jnum, jstr, jobj, Members, done, member, read_json}
use logspine.Json.Document.{print, print_members, IsNumber, AllNumbers, read_json-print}
use logspine.Json.Printed.{value_json, append_field_value_json-eq}
use logspine.Json.Reading.{PrintsNumbers, value_json-HasNumbers, decimal-IsNumber}
use logspine.Sinks.Gelf.{append_gelf_fields, make_gelf_payload}

module _ (p : Platform) (show_seconds : ℕ → Bytes) where
  -- The members of the fields: their keys behind an underscore.
  unfoldable pub gelf_fields : List Field → Members
  gelf_fields [] = done
  gelf_fields (f ∷ fs) = member (b'_' ∷ f.key) (value_json p f.value) (gelf_fields fs)

  -- The document of an event.
  unfoldable pub gelf_json : LogEvent → Bytes → Json
  unfolding gelf_fields
  gelf_json event source_host = jobj (
      member (codes "version") (jstr (codes "1.1")) (
        member (codes "host") (jstr source_host) (
          member (codes "short_message") (jstr event.message) (
            member (codes "timestamp") (jnum (show_seconds event.timestamp)) (
              member (codes "level") (jnum (decimal (to_gelf_level event.severity)))
                (member (codes "_logger") (jstr event.logger_name) (gelf_fields event.fields)))))))

  append_gelf_fields-eq :
      (fs : List Field) (output : Bytes)
      → append_gelf_fields p show_seconds fs output ≡ output ++ print_members false (gelf_fields fs)
  unfolding append_gelf_fields gelf_fields print value_to_json
  append_gelf_fields-eq [] output = sym (append-nil output)
  append_gelf_fields-eq (f ∷ fs) output =
      append_gelf_fields-eq fs _
      ∙ simp (append_json_escaped-eq, append_field_value_json-eq, append_assoc)

  make_gelf_payload-eq :
      (e : LogEvent) (source_host : Bytes)
      → make_gelf_payload p show_seconds e source_host ≡ print (gelf_json e source_host)
  unfolding make_gelf_payload gelf_json print escape_byte
  make_gelf_payload-eq e source_host =
      simp (append_json_escaped-eq, append_gelf_fields-eq, append_assoc)

  module _ (numbers : PrintsNumbers p) where
    gelf_fields-AllNumbers : (fs : List Field) → AllNumbers (gelf_fields fs)
    unfolding gelf_fields
    gelf_fields-AllNumbers [] = tt
    gelf_fields-AllNumbers (f ∷ fs) =
        (value_json-HasNumbers p numbers f.value, gelf_fields-AllNumbers fs)

    -- The GELF payload of an event is one JSON document, and it reads back as version, host, message,
    -- time, level and logger and then the fields in order, each key behind an underscore, where the
    -- platform prints numbers.
    pub read_json-make_gelf_payload :
        (e : LogEvent) (source_host : Bytes)
        → IsNumber (show_seconds e.timestamp)
        → read_json (make_gelf_payload p show_seconds e source_host)
          ≡ some (gelf_json e source_host, [])
    unfolding gelf_json
    read_json-make_gelf_payload e source_host seconds = rw (make_gelf_payload-eq e source_host) (
        read_json-print (gelf_json e source_host) (
          tt,
          (
            tt,
            (
              tt,
              (
                seconds,
                (
                  decimal-IsNumber (to_gelf_level e.severity),
                  (tt, gelf_fields-AllNumbers e.fields),
                ),
              ),
            ),
          ),
        ))
