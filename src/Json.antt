-- ===== src/Json.antt =====
-- include/logspine/json.hpp and src/json.cpp: events as JSON and as text.
pub mod Escape
pub mod Syntax
pub mod Document
pub mod Printed
pub mod Reading
pub mod Lines
pub mod Tests
use logspine.Prelude.{
  ℕ, ◌/◌, ◌%◌, ltb, ◌==◌, if◌then◌else◌, Bool, true, false, Option, none, some, List, [], ◌∷◌, ◌++◌,
  Bytes, codes, get_or, ◌+◌, ◌*◌, ◌^◌,
}
use logspine.Decimal.{decimal, decimal_ℤ, padded}
use logspine.Level
use logspine.Event.{
  Value, null, boolean, int64, uint64, double, text, is_finite, Field, LogEvent, SourceLocation,
}

-- `std::tm`, as `gmtime_r` fills it in.
pub record Tm : Type 0 where
  pub tm_year : ℕ
  pub tm_mon : ℕ
  pub tm_mday : ℕ
  pub tm_hour : ℕ
  pub tm_min : ℕ
  pub tm_sec : ℕ

-- What the platform's libraries render: `std::to_chars` of a finite double (`none` is an error
-- code), the calendar of `gmtime_r` and the text of a thread id.
pub record Platform : Type 0 where
  pub to_chars : ℕ → Option Bytes
  pub gmtime : ℕ → Tm
  pub show_thread_id : ℕ → Bytes

-- `output.push_back(ch)`
abbrev pub push_back : ℕ → Bytes → Bytes
push_back ch output = output ++ (ch ∷ [])

abbrev pub hex_digits : Bytes
hex_digits = codes "0123456789ABCDEF"

-- The body of the loop of `append_json_escaped`: what one byte adds to the output.
unfoldable pub escape_byte : ℕ → Bytes
escape_byte ch =
    if ch == b'"'
    then codes "\\\""
    else if ch == 0x5C
    then codes "\\\\"
    else if ch == 0x08
    then codes "\\b"
    else if ch == 0x0C
    then codes "\\f"
    else if ch == 0x0A
    then codes "\\n"
    else if ch == 0x0D
    then codes "\\r"
    else if ch == 0x09
    then codes "\\t"
    else if ltb ch 0x20
    then codes "\\u00"
      ++ (get_or hex_digits (ch / 2 ^ 4 % 16) 0 ∷ get_or hex_digits (ch % 16) 0 ∷ [])
    else ch ∷ []

unfoldable pub append_json_escaped : Bytes → Bytes → Bytes
unfolding escape_byte
append_json_escaped [] output = output
append_json_escaped (ch ∷ value) output = append_json_escaped value (output ++ escape_byte ch)

unfoldable pub append_json_string : Bytes → Bytes → Bytes
unfolding append_json_escaped
append_json_string value output = push_back b'"' (append_json_escaped value (push_back b'"' output))

module _ (p : Platform) where
  -- The digits of a double: nothing but `null` where it is not finite or cannot be printed.
  double_text : ℕ → Bytes
  unfolding is_finite
  double_text d =
      if is_finite d
      then elim (p.to_chars d) [ some buffer ↦ buffer | none ↦ codes "null" ]
      else codes "null"

  unfoldable pub append_field_value_json : Value → Bytes → Bytes
  unfolding double_text append_json_string decimal decimal_ℤ
  append_field_value_json null output = output ++ codes "null"
  append_field_value_json (boolean b) output = output ++ (if b then codes "true" else codes "false")
  append_field_value_json (int64 n) output = output ++ decimal_ℤ n
  append_field_value_json (uint64 n) output = output ++ decimal n
  append_field_value_json (double d) output = output ++ double_text d
  append_field_value_json (text s) output = append_json_string s output

  -- The loop of `append_fields_object`, with its flag `first`.
  append_entries : Bool → List Field → Bytes → Bytes
  append_entries first [] output = output
  append_entries first (entry ∷ fields) output =
      let sep = if first then output else push_back b',' output in
      append_entries false fields
        (append_field_value_json entry.value (push_back b':' (append_json_string entry.key sep)))

  unfoldable pub append_fields_object : List Field → Bytes → Bytes
  unfolding append_entries append_field_value_json
  append_fields_object fields output =
      push_back b'}' (append_entries true fields (push_back b'{' output))

  unfoldable pub value_to_json : Value → Bytes
  unfolding append_field_value_json
  value_to_json value = append_field_value_json value []

  -- The milliseconds are those since the last full second.
  unfoldable pub format_timestamp : ℕ → Bytes
  unfolding padded
  format_timestamp timestamp =
      let seconds = timestamp / 10 ^ 9 in
      let millis = timestamp % 10 ^ 9 / 10 ^ 6 in
      let utc_time = p.gmtime seconds in
      padded 4 (utc_time.tm_year + 1900)
      ++ (b'-' ∷ padded 2 (utc_time.tm_mon + 1))
      ++ (b'-' ∷ padded 2 utc_time.tm_mday)
      ++ (b'T' ∷ padded 2 utc_time.tm_hour)
      ++ (b':' ∷ padded 2 utc_time.tm_min)
      ++ (b':' ∷ padded 2 utc_time.tm_sec)
      ++ (b'.' ∷ padded 3 millis)
      ++ codes "Z"

  -- The lambdas of `to_json`; the flag `first` is false once a member stands.
  abbrev separator : Bool → Bytes → Bytes
  separator first output = if first then output else push_back b',' output

  append_named_string : Bytes → Bytes → Bool → Bytes → Bytes
  append_named_string key value first output =
      append_json_string value (push_back b':' (append_json_string key (separator first output)))

  append_named_object : Bytes → List Field → Bool → Bytes → Bytes
  append_named_object key fields first output =
      append_fields_object fields (push_back b':' (append_json_string key (separator first output)))

  append_optional : Bytes → Option Bytes → Bytes → Bytes
  unfolding append_named_string
  append_optional key none output = output
  append_optional key (some value) output = append_named_string key value false output

  append_location : Option SourceLocation → Bytes → Bytes
  unfolding append_named_string decimal
  append_location none output = output
  append_location (some location) output =
      let with_file = append_named_string (codes "file") location.file_name false output in
      let with_key =
        push_back b':' (append_json_string (codes "line") (push_back b',' with_file)) in
      let with_line = with_key ++ decimal location.line in
      append_named_string (codes "function") location.function_name false with_line

  pub to_json : LogEvent → Bytes
  to_json event =
      let o0 = push_back b'{' [] in
      let o1 =
        append_named_string (codes "@timestamp") (format_timestamp event.timestamp) true o0 in
      let o2 = append_named_string (codes "level") (Level.to_string event.severity) false o1 in
      let o3 = append_named_string (codes "logger") event.logger_name false o2 in
      let o4 = append_named_string (codes "message") event.message false o3 in
      let o5 =
        append_named_string (codes "thread_id") (p.show_thread_id event.thread_id) false o4 in
      let o6 = append_location event.location o5 in
      let o7 = append_optional (codes "trace_id") event.trace_id o6 in
      let o8 = append_optional (codes "span_id") event.span_id o7 in
      let o9 = append_optional (codes "correlation_id") event.correlation_id o8 in
      let o10 = append_named_object (codes "fields") event.fields false o9 in push_back b'}' o10

  unfoldable pub to_json_lines_record : LogEvent → Bytes
  to_json_lines_record event = push_back 0x0A (to_json event)

  human_value : Value → Bytes
  unfolding double_text decimal decimal_ℤ
  human_value null = codes "null"
  human_value (boolean b) = if b then codes "true" else codes "false"
  human_value (int64 n) = decimal_ℤ n
  human_value (uint64 n) = decimal n
  human_value (double d) = double_text d
  human_value (text s) = s

  append_human_fields : List Field → Bytes → Bytes
  unfolding human_value
  append_human_fields [] output = output
  append_human_fields (entry ∷ fields) output =
      append_human_fields fields
        (push_back b'=' (push_back b' ' output ++ entry.key) ++ human_value entry.value)

  unfoldable pub format_human_readable : LogEvent → Bytes
  unfolding append_human_fields
  format_human_readable event =
      let o1 = push_back b' ' (format_timestamp event.timestamp) in
      let o2 = push_back b' ' (o1 ++ Level.to_string event.severity) in
      let o3 = push_back b' ' (o2 ++ event.logger_name) in
      append_human_fields event.fields (o3 ++ event.message)
