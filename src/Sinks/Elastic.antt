-- ===== src/Sinks/Elastic.antt =====
-- src/sinks/elastic_bulk_file_sink.cpp. The state is the content of the file.
pub mod Lines
mod Tests
use logspine.Prelude.{if◌then◌else◌, Bool, Option, none, some, List, [], ◌∷◌, ◌++◌, Bytes, codes}
use logspine.Event.{LogEvent}
use logspine.Dispatcher.{Filter, Formatter, should_log}
use logspine.Json.{Platform, append_json_escaped, to_json_lines_record}

unfoldable pub make_action_line : Bytes → Bytes
make_action_line index_name =
    append_json_escaped index_name (codes "{\"index\":{\"_index\":\"") ++ codes "\"}}\n"

-- What the file holds once it is open.
unfoldable pub open_file : Bool → Bytes → Bytes
open_file append content = if append then content else []

-- `write`
unfoldable pub bulk_write :
    Platform → Bytes → Option Filter → Option Formatter → LogEvent → Bytes → Bytes
unfolding make_action_line
bulk_write p index_name filter formatter event stream =
    let payload : Bytes = elim formatter [
      | some format ↦ format event
      | none ↦ to_json_lines_record p event
    ] in
    if should_log filter event then (stream ++ make_action_line index_name) ++ payload else stream
