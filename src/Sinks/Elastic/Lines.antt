-- ===== src/Sinks/Elastic/Lines.antt =====
-- The lines of a bulk file.
use logspine.Prelude.{
  ◌≡◌, refl, sym, ◌∙◌, none, List, [], ◌∷◌, ◌++◌, Bytes, codes, append_assoc, append-nil, some,
}
use logspine.Event.{LogEvent}
use logspine.Json.{Platform, to_json, to_json_lines_record, escape_byte}
use logspine.Json.Escape.{append_json_escaped-eq}
use logspine.Json.Syntax.{Json, jobj, jstr, member, done, read_json}
use logspine.Json.Document.{print, read_json-print}
use logspine.Json.Reading.{PrintsNumbers}
use logspine.Json.Lines.{split_lines, split_lines-line, to_json-IsPrintable, print-IsPrintable}
use logspine.Sinks.Elastic.{make_action_line, bulk_write}

-- The action as a document.
abbrev pub action : Bytes → Json
action index_name =
    jobj (member (codes "index") (jobj (member (codes "_index") (jstr index_name) done)) done)

make_action_line-eq :
    (index_name : Bytes) → make_action_line index_name ≡ print (action index_name) ++ (0x0A ∷ [])
unfolding make_action_line print escape_byte
make_action_line-eq index_name = simp (append_json_escaped-eq, append_assoc)

-- The content of a file that a sink without filter and formatter writes the events to.
unfoldable pub write_events : Platform → Bytes → List LogEvent → Bytes → Bytes
write_events p index_name [] stream = stream
write_events p index_name (e ∷ es) stream =
    write_events p index_name es (bulk_write p index_name none none e stream)

-- Two lines for each event.
unfoldable pub bulk_lines : Platform → Bytes → List LogEvent → List Bytes
bulk_lines p index_name [] = []
bulk_lines p index_name (e ∷ es) =
    print (action index_name) ∷ to_json p e ∷ bulk_lines p index_name es

unfoldable bulk_body : Platform → Bytes → List LogEvent → Bytes
bulk_body p index_name [] = []
bulk_body p index_name (e ∷ es) =
    print (action index_name) ++ (0x0A ∷ (to_json p e ++ (0x0A ∷ bulk_body p index_name es)))

write_events-eq :
    (p : Platform) (index_name : Bytes) (es : List LogEvent) (stream : Bytes)
    → write_events p index_name es stream ≡ stream ++ bulk_body p index_name es
unfolding write_events bulk_write bulk_body to_json_lines_record
write_events-eq p index_name [] stream = sym (append-nil stream)
write_events-eq p index_name (e ∷ es) stream =
    write_events-eq p index_name es _ ∙ simp (make_action_line-eq index_name, append_assoc)

split_lines-bulk_body :
    (p : Platform)
    → PrintsNumbers p
    → (index_name : Bytes) (es : List LogEvent)
    → split_lines [] (bulk_body p index_name es) ≡ (bulk_lines p index_name es, [])
unfolding bulk_body bulk_lines split_lines
split_lines-bulk_body p numbers index_name [] = refl
split_lines-bulk_body p numbers index_name (e ∷ es) = rw (
  split_lines-line [] (print (action index_name))
      (to_json p e ++ (0x0A ∷ bulk_body p index_name es))
      (print-IsPrintable (action index_name) ((tt, tt), tt)),
  split_lines-line [] (to_json p e) (bulk_body p index_name es) (to_json-IsPrintable p numbers e),
  split_lines-bulk_body p numbers index_name es,
)

-- The file that events are written to, starting empty and without filter or formatter, has two lines
-- for each event in order and nothing behind them: an action and the JSON of the event, where
-- `to_chars` prints numbers. The action reads back as a document that names the index.
pub bulk_file_lines :
    (p : Platform)
    → PrintsNumbers p
    → (index_name : Bytes) (es : List LogEvent)
    → (split_lines [] (write_events p index_name es []) ≡ (bulk_lines p index_name es, []))
      × (read_json (print (action index_name)) ≡ some (action index_name, []))
bulk_file_lines p numbers index_name es = (
  rw (write_events-eq p index_name es []) (split_lines-bulk_body p numbers index_name es),
  read_json-print (action index_name) ((tt, tt), tt),
)
