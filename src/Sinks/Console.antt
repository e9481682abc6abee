-- ===== src/Sinks/Console.antt =====
-- src/sinks/console_sink.cpp. The state is what was written to the two streams.
use logspine.Prelude.{leb, ◌&&◌, not, if◌then◌else◌, Bool, Option, none, some, ◌++◌, Bytes}
use logspine.Level.{Level, warn, off, underlying, level_eq}
use logspine.Event.{LogEvent}
use logspine.Dispatcher.{Filter, Formatter, should_log}
use logspine.Json.{Platform, to_json_lines_record, format_human_readable, push_back}

pub data SinkFormat : Type 0 where
  human json_lines : SinkFormat

pub data Stream : Type 0 where
  cout cerr : Stream

pub record ConsoleOptions : Type 0 where
  pub format : SinkFormat
  pub use_stderr_for_warnings : Bool

pub record Console : Type 0 where
  pub out : Bytes
  pub err : Bytes

unfoldable pub select_stream : ConsoleOptions → Level → Stream
select_stream options severity =
    if options.use_stderr_for_warnings
      && leb (underlying warn) (underlying severity)
      && not (level_eq severity off)
    then cerr
    else cout

-- The text of an event.
unfoldable pub console_text : Platform → ConsoleOptions → Option Formatter → LogEvent → Bytes
console_text p options (some format) event = format event
console_text p options none event = elim options.format [
  | json_lines ↦ to_json_lines_record p event
  | human ↦ push_back 0x0A (format_human_readable p event)
]

-- `write`
unfoldable pub console_write :
    Platform → ConsoleOptions → Option Filter → Option Formatter → LogEvent → Console → Console
unfolding select_stream console_text
console_write p options filter formatter event s =
    let text = console_text p options formatter event in
    let written : Console = elim (select_stream options event.severity) [
      | cout ↦ record s { out = s.out ++ text }
      | cerr ↦ record s { err = s.err ++ text }
    ] in
    if should_log filter event then written else s
