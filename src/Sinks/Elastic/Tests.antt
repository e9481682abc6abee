-- ===== src/Sinks/Elastic/Tests.antt =====
-- A bulk file of two events.
use logspine.Prelude.{◌≡◌, some, [], ◌∷◌, codes}
use logspine.Json.Syntax.{read_json}
use logspine.Json.Document.{print}
use logspine.Json.Lines.{split_lines}
use logspine.Json.Tests.{platform, platform-PrintsNumbers, event}
use logspine.Sinks.Elastic.Lines.{action, write_events, bulk_lines, bulk_file_lines}

bulk_file_lines_example :
    (split_lines [] (write_events platform (codes "logs") (event ∷ event ∷ []) [])
      ≡ (bulk_lines platform (codes "logs") (event ∷ event ∷ []), []))
    × (read_json (print (action (codes "logs"))) ≡ some (action (codes "logs"), []))
bulk_file_lines_example =
    bulk_file_lines platform platform-PrintsNumbers (codes "logs") (event ∷ event ∷ [])
