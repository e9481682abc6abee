-- ===== src/Event.antt =====
-- include/logspine/field.hpp, src/field.cpp, include/logspine/log_event.hpp: fields and events.
use logspine.Prelude.{ℕ, ◌/◌, ◌%◌, ◌^◌, Bool, not, ◌==◌, Option, none, some, List, Bytes}
use logspine.Prelude.Int.{ℤ}
use logspine.Level.{Level}

-- `field::value_type`. A `double` is its IEEE-754 bit pattern, below 2 ^ 64.
pub data Value : Type 0 where
  null : Value
  boolean : Bool → Value
  int64 : ℤ → Value
  uint64 : ℕ → Value
  double : ℕ → Value
  text : Bytes → Value

-- `std::isfinite`: the exponent is not all ones.
unfoldable pub is_finite : ℕ → Bool
is_finite bits = not (bits / 2 ^ 52 % 2 ^ 11 == 2047)

pub record Field : Type 0 where
  pub key : Bytes
  pub value : Value

-- The overloads of `kv`. A null `const char*` becomes a null value.
abbrev pub kv : Bytes → Value → Field
kv key value = record { key = key; value = value }

abbrev pub kv_c_string : Bytes → Option Bytes → Field
kv_c_string key none = record { key = key; value = null }
kv_c_string key (some s) = record { key = key; value = text s }

pub record SourceLocation : Type 0 where
  pub file_name : Bytes
  pub line : ℕ
  pub function_name : Bytes

-- `log_event`. The timestamp counts the nanoseconds since the epoch; the thread id is abstract.
pub record LogEvent : Type 0 where
  pub severity : Level
  pub logger_name : Bytes
  pub message : Bytes
  pub timestamp : ℕ
  pub thread_id : ℕ
  pub location : Option SourceLocation
  pub fields : List Field
  pub trace_id : Option Bytes
  pub span_id : Option Bytes
  pub correlation_id : Option Bytes
