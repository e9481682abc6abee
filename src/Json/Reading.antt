-- ===== src/Json/Reading.antt =====
-- The JSON of src/json.cpp reads back: no field, key or optional part is lost, and no text in an
-- event can change the structure of the record.
use logspine.Prelude.{
  ℕ, ◌≡◌, refl, ◌⊎◌, true, false, Option, none, some, List, [], ◌∷◌, Bytes, arith, All, Bool,
}
use logspine.Decimal.{decimal, decimal_ℤ}
use logspine.Decimal.Reading.{IsDigit, decimal-ne-nil, decimal-IsDigit, decimal_ℤ-bytes}
use logspine.Event.{
  Value, null, boolean, int64, uint64, double, text, is_finite, Field, LogEvent, SourceLocation,
}
use logspine.Json.{Platform, to_json, value_to_json}
use logspine.Json.Syntax.{Members, is_number_byte, read_json}
use logspine.Json.Document.{IsNumber, HasNumbers, AllNumbers, read_json-print}
use logspine.Json.Printed.{
  double_json, value_json, fields_json, optional_json, location_json, event_json, to_json-eq,
  append_field_value_json-eq,
}

-- Documented of `std::to_chars`: what it writes for a finite double is a number.
pub record PrintsNumbers (p : Platform) : Type 0 where
  pub numeral : (d : ℕ) (b : Bytes) → is_finite d ≡ true → p.to_chars d ≡ some b → IsNumber b

decimal_bytes : (s : Bytes) → All IsDigit s → All (λ c. is_number_byte c ≡ true) s
decimal_bytes [] h = tt
decimal_bytes (c ∷ s) h = (ground arith, decimal_bytes s h.1)

pub decimal-IsNumber : (n : ℕ) → IsNumber (decimal n)
decimal-IsNumber n = (decimal-ne-nil n, decimal_bytes (decimal n) (decimal-IsDigit n))

signed_bytes :
    (s : Bytes) → All (λ c. (c ≡ b'-') ⊎ IsDigit c) s → All (λ c. is_number_byte c ≡ true) s
signed_bytes [] h = tt
signed_bytes (c ∷ s) h = (ground arith, signed_bytes s h.1)

module _ (p : Platform) (numbers : PrintsNumbers p) where
  double_json-HasNumbers :
      (d : ℕ) (finite : Bool) (o : Option Bytes)
      → is_finite d ≡ finite
      → p.to_chars d ≡ o
      → HasNumbers (double_json p finite o)
  unfolding double_json
  double_json-HasNumbers d true (some b) e h = numbers.numeral d b e h
  double_json-HasNumbers d true none e h = tt
  double_json-HasNumbers d false o e h = tt

  pub value_json-HasNumbers : (v : Value) → HasNumbers (value_json p v)
  unfolding value_json
  value_json-HasNumbers null = tt
  value_json-HasNumbers (boolean b) = tt
  value_json-HasNumbers (int64 n) =
      let h = decimal_ℤ-bytes n in (h.0, signed_bytes (decimal_ℤ n) h.1)
  value_json-HasNumbers (uint64 n) = decimal-IsNumber n
  value_json-HasNumbers (double d) = double_json-HasNumbers d (is_finite d) (p.to_chars d) refl refl
  value_json-HasNumbers (text s) = tt

  fields_json-AllNumbers : (fs : List Field) → AllNumbers (fields_json p fs)
  unfolding fields_json
  fields_json-AllNumbers [] = tt
  fields_json-AllNumbers (f ∷ fs) = (value_json-HasNumbers f.value, fields_json-AllNumbers fs)

  optional_json-AllNumbers :
      (key : Bytes) (o : Option Bytes) (ms : Members)
      → AllNumbers ms
      → AllNumbers (optional_json p key o ms)
  unfolding optional_json
  optional_json-AllNumbers key none ms h = h
  optional_json-AllNumbers key (some s) ms h = (tt, h)

  location_json-AllNumbers :
      (l : Option SourceLocation) (ms : Members) → AllNumbers ms → AllNumbers (location_json p l ms)
  unfolding location_json
  location_json-AllNumbers none ms h = h
  location_json-AllNumbers (some l) ms h = (tt, (decimal-IsNumber l.line, (tt, h)))

  pub event_json-HasNumbers : (e : LogEvent) → HasNumbers (event_json p e)
  unfolding event_json
  event_json-HasNumbers e = (
    tt,
    (
      tt,
      (
        tt,
        (
          tt,
          (
            tt,
            location_json-AllNumbers e.location _ (
                optional_json-AllNumbers _ e.trace_id _ (
                  optional_json-AllNumbers _ e.span_id _ (
                    optional_json-AllNumbers _ e.correlation_id _
                      (fields_json-AllNumbers e.fields, tt)))),
          ),
        ),
      ),
    ),
  )

  -- The JSON of an event is one document, and it reads back as the members that the event has, in
  -- order: time, level, logger, message, thread, then the location and ids that are present, and
  -- the object of its fields, where `to_chars` prints numbers.
  pub read_json-to_json : (e : LogEvent) → read_json (to_json p e) ≡ some (event_json p e, [])
  read_json-to_json e =
      rw (to_json-eq p e) (read_json-print (event_json p e) (event_json-HasNumbers e))

  -- A field value alone reads back as its document, where `to_chars` prints numbers.
  read_json-value_to_json : (v : Value) → read_json (value_to_json p v) ≡ some (value_json p v, [])
  unfolding value_to_json
  read_json-value_to_json v =
      rw (append_field_value_json-eq p v [])
        (read_json-print (value_json p v) (value_json-HasNumbers v))
