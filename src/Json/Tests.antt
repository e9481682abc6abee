-- ===== src/Json/Tests.antt =====
-- Runs of the JSON writer, and of its reader.
use logspine.Prelude.{
  ℕ, ◌≡◌, refl, ltb, if◌then◌else◌, true, Option, none, some, [], ◌∷◌, ◌++◌, Bytes, codes, map,
  arith,
}
use logspine.Prelude.Int.{negsuc}
use logspine.Level.{warn}
use logspine.Event.{LogEvent, int64, double, text, boolean, kv}
use logspine.Json.{Platform, append_json_escaped, to_json}
use logspine.Json.Syntax.{read_json}
use logspine.Json.Printed.{event_json}
use logspine.Json.Reading.{PrintsNumbers, read_json-to_json}
use logspine.Json.Lines.{split_lines, records, split_lines-records}

-- A platform whose `to_chars` knows the number 19.95 only, and writes it as such.
abbrev pub to_chars : ℕ → Option Bytes
to_chars d = if ltb d 5 then some (codes "19.95") else none

abbrev pub platform : Platform
platform = record {
  to_chars = to_chars;
  gmtime = λ seconds. record {
    tm_year = 124;
    tm_mon = 0;
    tm_mday = 2;
    tm_hour = 3;
    tm_min = 4;
    tm_sec = 5;
  };
  show_thread_id = λ id. codes "42";
}

pub platform-PrintsNumbers : PrintsNumbers platform
platform-PrintsNumbers = record { numeral = λ d b finite e. ground arith }

abbrev pub event : LogEvent
event = record {
  severity = warn;
  logger_name = codes "checkout";
  message = codes "escaped \"message\"";
  timestamp = 1_700_000_000_123_456_789;
  thread_id = 42;
  location = some (record { file_name = codes "main.cpp"; line = 7; function_name = codes "main" });
  fields =
      kv (codes "customer") (text (codes "alice"))
      ∷ kv (codes "amount") (double 3)
      ∷ kv (codes "balance") (int64 (negsuc 11))
      ∷ kv (codes "paid") (boolean true)
      ∷ [];
  trace_id = some (codes "t1");
  span_id = none;
  correlation_id = none;
}

-- The example of the tests.
escapes :
    append_json_escaped (codes "quote\"\nslash\\\t" ++ (1 ∷ [])) []
    ≡ codes "quote\\\"\\nslash\\\\\\t\\u0001"
unfolding append_json_escaped
escapes = refl

read_json-to_json_example :
    read_json (to_json platform event) ≡ some (event_json platform event, [])
read_json-to_json_example = read_json-to_json platform platform-PrintsNumbers event

split_lines-records_example :
    split_lines [] (records platform (event ∷ event ∷ []))
    ≡ (map (to_json platform) (event ∷ event ∷ []), [])
split_lines-records_example =
    split_lines-records platform platform-PrintsNumbers (event ∷ event ∷ [])
