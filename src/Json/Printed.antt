-- ===== src/Json/Printed.antt =====
-- What src/json.cpp prints, as documents: values, the object of fields, and the whole event.
use logspine.Prelude.{
  ℕ, ◌≡◌, refl, sym, Bool, true, false, Option, none, some, List, [], ◌∷◌, ◌++◌, append_assoc,
  append-nil, Bytes, codes, arith,
}
use logspine.Decimal.{decimal, decimal_ℤ}
use logspine.Level
use logspine.Event.{
  Value, null, boolean, int64, uint64, double, text, is_finite, Field, LogEvent, SourceLocation,
}
use logspine.Json.{
  Platform, double_text, append_field_value_json, append_entries, append_fields_object,
  format_timestamp, append_named_string, append_named_object, append_optional, append_location,
  to_json,
}
use logspine.Json.Escape.{quoted, append_json_string-eq}
use logspine.Json.Syntax.{Json, jnull, jbool, jnum, jstr, jobj, Members, done, member}
use logspine.Json.Document.{print, print_members, comma}

module _ (p : Platform) where
  unfoldable pub double_json : Bool → Option Bytes → Json
  double_json true (some b) = jnum b
  double_json true none = jnull
  double_json false b = jnull

  -- The document of a value.
  unfoldable pub value_json : Value → Json
  unfolding double_json
  value_json null = jnull
  value_json (boolean b) = jbool b
  value_json (int64 n) = jnum (decimal_ℤ n)
  value_json (uint64 n) = jnum (decimal n)
  value_json (double d) = double_json (is_finite d) (p.to_chars d)
  value_json (text s) = jstr s

  -- The members of a list of fields: their keys and values, in order.
  unfoldable pub fields_json : List Field → Members
  fields_json [] = done
  fields_json (f ∷ fs) = member f.key (value_json f.value) (fields_json fs)

  unfoldable pub optional_json : Bytes → Option Bytes → Members → Members
  optional_json key none ms = ms
  optional_json key (some s) ms = member key (jstr s) ms

  unfoldable pub location_json : Option SourceLocation → Members → Members
  location_json none ms = ms
  location_json (some l) ms = member (codes "file") (jstr l.file_name) (
      member (codes "line") (jnum (decimal l.line))
        (member (codes "function") (jstr l.function_name) ms))

  -- The document of an event.
  unfoldable pub event_json : LogEvent → Json
  event_json e = jobj (
      member (codes "@timestamp") (jstr (format_timestamp p e.timestamp)) (
        member (codes "level") (jstr (Level.to_string e.severity)) (
          member (codes "logger") (jstr e.logger_name) (
            member (codes "message") (jstr e.message) (
              member (codes "thread_id") (jstr (p.show_thread_id e.thread_id)) (
                location_json e.location (
                  optional_json (codes "trace_id") e.trace_id (
                    optional_json (codes "span_id") e.span_id (
                      optional_json (codes "correlation_id") e.correlation_id
                        (member (codes "fields") (jobj (fields_json e.fields)) done))))))))))

  double_text-eq : (d : ℕ) → double_text p d ≡ print (value_json (double d))
  unfolding double_text value_json print
  double_text-eq d = ground arith

  pub append_field_value_json-eq :
      (v : Value) (output : Bytes)
      → append_field_value_json p v output ≡ output ++ print (value_json v)
  unfolding append_field_value_json value_json print
  append_field_value_json-eq null output = refl
  append_field_value_json-eq (boolean true) output = refl
  append_field_value_json-eq (boolean false) output = refl
  append_field_value_json-eq (int64 n) output = refl
  append_field_value_json-eq (uint64 n) output = refl
  append_field_value_json-eq (double d) output = rw (double_text-eq d)
  append_field_value_json-eq (text s) output = append_json_string-eq s output

  append_entries-eq :
      (first : Bool) (fs : List Field) (output : Bytes)
      → append_entries p first fs output ≡ output ++ print_members first (fields_json fs)
  unfolding append_entries fields_json print
  append_entries-eq first [] output = sym (append-nil output)
  append_entries-eq true (f ∷ fs) output =
      simp (
        append_entries-eq false fs,
        append_field_value_json-eq,
        append_json_string-eq,
        append_assoc,
      )
  append_entries-eq false (f ∷ fs) output =
      simp (
        append_entries-eq false fs,
        append_field_value_json-eq,
        append_json_string-eq,
        append_assoc,
      )

  append_fields_object-eq :
      (fs : List Field) (output : Bytes)
      → append_fields_object p fs output ≡ output ++ print (jobj (fields_json fs))
  unfolding append_fields_object print
  append_fields_object-eq fs output = simp (append_entries-eq, append_assoc)

  append_named_string-eq :
      (key value : Bytes) (first : Bool) (output : Bytes)
      → append_named_string p key value first output
        ≡ output ++ (comma first ++ (quoted key ++ (b':' ∷ quoted value)))
  unfolding append_named_string
  append_named_string-eq key value true output = simp (append_json_string-eq, append_assoc)
  append_named_string-eq key value false output = simp (append_json_string-eq, append_assoc)

  append_optional-eq :
      (key : Bytes) (o : Option Bytes) (output : Bytes) (ms : Members)
      → append_optional p key o output ++ print_members false ms
        ≡ output ++ print_members false (optional_json key o ms)
  unfolding append_optional optional_json print
  append_optional-eq key none output ms = refl
  append_optional-eq key (some s) output ms = simp (append_named_string-eq, append_assoc)

  append_location-eq :
      (l : Option SourceLocation) (output : Bytes) (ms : Members)
      → append_location p l output ++ print_members false ms
        ≡ output ++ print_members false (location_json l ms)
  unfolding append_location location_json print
  append_location-eq none output ms = refl
  append_location-eq (some l) output ms = simp (append_json_string-eq, append_assoc)

  append_named_object-eq :
      (key : Bytes) (fs : List Field) (output : Bytes)
      → append_named_object p key fs false output
        ≡ output ++ print_members false (member key (jobj (fields_json fs)) done)
  unfolding append_named_object print
  append_named_object-eq key fs output =
      simp (append_fields_object-eq, append_json_string-eq, append_assoc, append-nil)

  -- The members from the location on.
  tail_members : LogEvent → Members
  tail_members e = location_json e.location (
      optional_json (codes "trace_id") e.trace_id (
        optional_json (codes "span_id") e.span_id (
          optional_json (codes "correlation_id") e.correlation_id
            (member (codes "fields") (jobj (fields_json e.fields)) done))))

  to_json_tail :
      (e : LogEvent) (o5 : Bytes)
      → append_named_object p (codes "fields") e.fields false (
          append_optional p (codes "correlation_id") e.correlation_id (
            append_optional p
              (codes "span_id")
              e.span_id
              (append_optional p (codes "trace_id") e.trace_id (append_location p e.location o5))))
        ≡ o5 ++ print_members false (tail_members e)
  unfolding tail_members
  to_json_tail e o5 = simp (append_named_object-eq, append_optional-eq, append_location-eq)

  pub to_json-eq : (e : LogEvent) → to_json p e ≡ print (event_json e)
  unfolding to_json event_json print tail_members
  to_json-eq e = simp (to_json_tail e, append_named_string-eq, append_assoc)
