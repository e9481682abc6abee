-- ===== src/Logger.antt =====
-- include/logspine/logger.hpp, src/logger.cpp and the macros of include/logspine/logspine.hpp.
pub mod Enabled
pub mod Limits
pub mod Lines
mod Tests
use logspine.Prelude.{
  ℕ, ◌+◌, ◌≤◌, leb, ltb, not, ◌&&◌, if◌then◌else◌, Bool, true, Option, some, none, List, [], ◌∷◌,
  ◌++◌, Bytes, codes, length, take,
}
use logspine.Level.{Level, trace, debug, info, warn, error, fatal, off, underlying, level_eq}
use logspine.Event.{LogEvent, Field, boolean, kv, SourceLocation}
use logspine.Dispatcher.{DispatcherClass}
use logspine.Mdc.{Mdc, get_all}

-- The dispatcher is shared, and is an argument of the calls that reach it.
pub record Logger : Type 0 where
  pub name : Bytes
  pub minimum_level : Level

-- What `dispatch` reads of its surroundings: the context of the calling thread, the clock, and the
-- id of the thread.
pub record Surroundings : Type 0 where
  pub mdc : Mdc
  pub now : ℕ
  pub this_thread : ℕ

unfoldable pub is_enabled_for : Level → Level → Bool
is_enabled_for minimum_level severity =
    not (level_eq minimum_level off)
    && not (level_eq severity off)
    && leb (underlying minimum_level) (underlying severity)

unfoldable pub enabled : Logger → Level → Bool
unfolding is_enabled_for
enabled l value = is_enabled_for l.minimum_level value

abbrev pub set_level : Level → Logger → Logger
set_level value l = record l { minimum_level = value }

abbrev pub max_message_length : ℕ
max_message_length = 32768

abbrev pub max_fields_count : ℕ
max_fields_count = 64

unfoldable pub limit_message : Bytes → Bytes
limit_message message =
    if ltb max_message_length (length message)
    then take max_message_length message ++ codes "... [truncated]"
    else message

unfoldable pub limit_fields : List Field → List Field
limit_fields fields =
    if ltb max_fields_count (length fields)
    then take max_fields_count fields ++ (kv (codes "_truncated_fields") (boolean true) ∷ [])
    else fields

-- The event that `logger::dispatch` builds. An empty context adds nothing, tested or not.
unfoldable pub make_event :
    Logger → Surroundings → Level → Bytes → List Field → SourceLocation → LogEvent
unfolding limit_message limit_fields get_all
make_event l around severity message fields location = record {
  severity = severity;
  logger_name = l.name;
  message = limit_message message;
  timestamp = around.now;
  thread_id = around.this_thread;
  location = some location;
  fields = limit_fields (fields ++ get_all around.mdc);
  trace_id = none;
  span_id = none;
  correlation_id = none;
}

module _ {D : Type 0} (c : DispatcherClass D) (l : Logger) (around : Surroundings) where
  unfoldable pub dispatch : Level → Bytes → List Field → SourceLocation → D → D
  unfolding make_event
  dispatch severity message fields location d =
      c.dispatch (make_event l around severity message fields location) d

  -- The overloads of `log`; the one without fields passes none.
  unfoldable pub log : Level → Bytes → List Field → SourceLocation → D → D
  unfolding dispatch enabled
  log severity message fields location d =
      if not (enabled l severity) then d else dispatch severity message fields location d

  -- The methods named for levels.
  abbrev pub log_trace : Bytes → List Field → SourceLocation → D → D
  log_trace = log trace

  abbrev pub log_debug : Bytes → List Field → SourceLocation → D → D
  log_debug = log debug

  abbrev pub log_info : Bytes → List Field → SourceLocation → D → D
  log_info = log info

  abbrev pub log_warn : Bytes → List Field → SourceLocation → D → D
  log_warn = log warn

  abbrev pub log_error : Bytes → List Field → SourceLocation → D → D
  log_error = log error

  abbrev pub log_fatal : Bytes → List Field → SourceLocation → D → D
  log_fatal = log fatal

  unfoldable pub flush : D → D
  flush d = c.flush d

  -- What the arguments of a macro evaluate to: a message and fields, or the text that `std::format`
  -- makes, which may have effects on the program's own state `W`.
  abbrev pub Arguments : Type 0 → Type 0
  Arguments W = W → Bytes × List Field × W

  -- `log_macro_dispatch`, with its own test of the level.
  unfoldable pub log_macro_dispatch : Level → SourceLocation → Bytes → List Field → D → D
  unfolding dispatch enabled
  log_macro_dispatch severity location message fields d =
      if enabled l severity then dispatch severity message fields location d else d

  -- `LOGSPINE_DETAIL_LOG`: the arguments are evaluated behind the first test.
  unfoldable pub detail_log : {W : Type 0} → Level → SourceLocation → Arguments W → W × D → W × D
  unfolding log_macro_dispatch enabled
  detail_log severity location arguments (w, d) =
      let (message, fields, w') = arguments w in
      if enabled l severity
      then (w', log_macro_dispatch severity location message fields d)
      else (w, d)
