-- ===== src/Sinks/Otlp/Payload.antt =====
-- `make_otlp_json` of src/sinks/otlp_http_sink.cpp is a JSON document, which reads back.
use logspine.Prelude.{
  ℕ, ◌*◌, ◌≡◌, refl, ap, sym, ◌∙◌, Bool, true, false, Option, none, some, List, [], ◌∷◌, ◌++◌,
  append_assoc, append-nil, All, Bytes, codes, arith,
}
use logspine.Decimal.{decimal}
use logspine.Level
use logspine.Level.{underlying}
use logspine.Event.{Field, LogEvent}
use logspine.Json.{Platform, value_to_json, escape_byte}
use logspine.Json.Escape.{escaped, append_json_escaped-eq}
use logspine.Json.Syntax.{
  Json, jnum, jstr, jarr, jobj, Elements, no_more, element, Members, done, member, read_json,
  is_number_byte,
}
use logspine.Json.Document.{
  print, print_members, print_elements, AllNumbers, EachNumbers, read_json-print,
}
use logspine.Json.Reading.{decimal-IsNumber}
use logspine.Sinks.Otlp.{
  add_string, add_optional, append_attributes, attributes_member, make_otlp_json,
}

-- An attribute.
unfoldable pub attribute_json : Bytes → Bytes → Json
attribute_json key text = jobj (
    member (codes "key") (jstr key)
      (member (codes "value") (jobj (member (codes "stringValue") (jstr text) done)) done))

-- The bytes of a number stand for themselves.
escape_byte-number : (c : ℕ) → is_number_byte c ≡ true → escape_byte c ≡ c ∷ []
unfolding escape_byte
escape_byte-number c h = ground arith

escaped-number : (s : Bytes) → All (λ c. is_number_byte c ≡ true) s → escaped s ≡ s
escaped-number [] h = refl
escaped-number (c ∷ s) h = rw (escape_byte-number c h.0, escaped-number s h.1)

-- The text of an optional member.
unfoldable optional_text : Bytes → Option Bytes → Bytes
optional_text key none = []
optional_text key (some text) = codes ",\"" ++ key ++ codes "\":\"" ++ escaped text ++ codes "\""

add_optional-eq :
    (key : Bytes) (text : Option Bytes) (output : Bytes)
    → add_optional key text output ≡ output ++ optional_text key text
unfolding optional_text add_string
add_optional-eq key none output = sym (append-nil output)
add_optional-eq key (some text) output = simp (append_json_escaped-eq, append_assoc)

-- No member where there is no value.
unfoldable pub with_optional : Bytes → Option Bytes → Members → Members
with_optional key none ms = ms
with_optional key (some text) ms = member key (jstr text) ms

print_members-with_optional :
    (key : Bytes) (text : Option Bytes) (ms : Members)
    → escaped key ≡ key
    → print_members false (with_optional key text ms)
      ≡ optional_text key text ++ print_members false ms
unfolding with_optional optional_text print
print_members-with_optional key none ms e = refl
print_members-with_optional key (some text) ms e = rw e (simp append_assoc)

module _ (p : Platform) where
  -- The fields: their keys, and the JSON texts of their values.
  unfoldable pub attributes_json : List Field → Elements
  attributes_json [] = no_more
  attributes_json (f ∷ fs) =
      element (attribute_json f.key (value_to_json p f.value)) (attributes_json fs)

  -- No member where there is no field.
  unfoldable pub with_attributes : List Field → Members
  unfolding attributes_json
  with_attributes [] = done
  with_attributes (f ∷ fs) = member (codes "attributes") (jarr (attributes_json (f ∷ fs))) done

  -- The record of an event.
  unfoldable pub record_json : LogEvent → Members
  unfolding with_attributes with_optional
  record_json e = member (codes "timeUnixNano") (jstr (decimal e.timestamp)) (
      member (codes "severityText") (jstr (Level.to_string e.severity)) (
        member (codes "severityNumber") (jnum (decimal (underlying e.severity * 4))) (
          with_optional (codes "traceId") e.trace_id (
            with_optional (codes "spanId") e.span_id (
              member (codes "body") (jobj (member (codes "stringValue") (jstr e.message) done))
                (with_attributes e.fields))))))

  unfoldable pub otlp_json : LogEvent → Bytes → Json
  unfolding record_json attribute_json
  otlp_json e service_name = jobj (
      member (codes "resourceLogs")
        (jarr (
          element
            (jobj (
              member (codes "resource")
                (jobj (
                  member (codes "attributes")
                    (jarr (element (attribute_json (codes "service.name") service_name) no_more))
                    done))
                (member (codes "scopeLogs")
                  (jarr (
                    element
                      (jobj (
                        member (codes "scope") (jobj done) (
                          member (codes "logRecords")
                            (jarr (element (jobj (record_json e)) no_more)) done)))
                      no_more))
                  done)))
            no_more))
        done)

  append_attributes-eq :
      (first : Bool) (fs : List Field) (output : Bytes)
      → append_attributes p first fs output ≡ output ++ print_elements first (attributes_json fs)
  unfolding append_attributes attributes_json attribute_json print value_to_json
  append_attributes-eq first [] output = sym (append-nil output)
  append_attributes-eq true (f ∷ fs) output =
      append_attributes-eq false fs _ ∙ simp (append_json_escaped-eq, append_assoc)
  append_attributes-eq false (f ∷ fs) output =
      append_attributes-eq false fs _ ∙ simp (append_json_escaped-eq, append_assoc)

  attributes_member-eq :
      (fs : List Field) (output : Bytes)
      → attributes_member p fs output ≡ output ++ print_members false (with_attributes fs)
  unfolding attributes_member with_attributes print escape_byte
  attributes_member-eq [] output = sym (append-nil output)
  attributes_member-eq (f ∷ fs) output =
      ap (λ (t : Bytes). t ++ codes "]")
        (append_attributes-eq true (f ∷ fs) (output ++ codes ",\"attributes\":["))
      ∙ simp append_assoc

  make_otlp_json-eq :
      (e : LogEvent) (service_name : Bytes)
      → make_otlp_json p e service_name ≡ print (otlp_json e service_name)
  unfolding make_otlp_json otlp_json record_json attribute_json print add_string escape_byte
  make_otlp_json-eq e service_name = simp (
    append_json_escaped-eq,
    attributes_member-eq,
    add_optional-eq,
    print_members-with_optional (codes "traceId") e.trace_id _ refl,
    print_members-with_optional (codes "spanId") e.span_id _ refl,
    escaped-number (decimal e.timestamp) (decimal-IsNumber e.timestamp).1,
    append_assoc,
  )

  attributes_json-EachNumbers : (fs : List Field) → EachNumbers (attributes_json fs)
  unfolding attributes_json attribute_json
  attributes_json-EachNumbers [] = tt
  attributes_json-EachNumbers (f ∷ fs) = ((tt, ((tt, tt), tt)), attributes_json-EachNumbers fs)

  with_attributes-AllNumbers : (fs : List Field) → AllNumbers (with_attributes fs)
  unfolding with_attributes
  with_attributes-AllNumbers [] = tt
  with_attributes-AllNumbers (f ∷ fs) = (attributes_json-EachNumbers (f ∷ fs), tt)

  with_optional-AllNumbers :
      (key : Bytes) (text : Option Bytes) (ms : Members)
      → AllNumbers ms
      → AllNumbers (with_optional key text ms)
  unfolding with_optional
  with_optional-AllNumbers key none ms h = h
  with_optional-AllNumbers key (some text) ms h = (tt, h)

  record_json-AllNumbers : (e : LogEvent) → AllNumbers (record_json e)
  unfolding record_json
  record_json-AllNumbers e = (
    tt,
    (
      tt,
      (
        decimal-IsNumber (underlying e.severity * 4),
        with_optional-AllNumbers (codes "traceId") e.trace_id _ (
            with_optional-AllNumbers (codes "spanId") e.span_id _
              ((tt, tt), with_attributes-AllNumbers e.fields)),
      ),
    ),
  )

  -- The OTLP payload of an event is one JSON document, which reads back as a resource with the name of
  -- the service and one record: time, severity, the ids of trace and span where there are any, the
  -- message, and where there are fields, an attribute for each in order, with the JSON text of its
  -- value as a string.
  pub read_json-make_otlp_json :
      (e : LogEvent) (service_name : Bytes)
      → read_json (make_otlp_json p e service_name) ≡ some (otlp_json e service_name, [])
  unfolding otlp_json attribute_json
  read_json-make_otlp_json e service_name = rw (make_otlp_json-eq e service_name) (
      read_json-print (otlp_json e service_name) (
        (
          (
            (((tt, ((tt, tt), tt)), tt), tt),
            (((tt, ((record_json-AllNumbers e, tt), tt)), tt), tt),
          ),
          tt,
        ),
        tt,
      ))
