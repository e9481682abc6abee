-- ===== src/Json/Lines.antt =====
-- `to_json_lines_record` of src/json.cpp: one record, one line.
use logspine.Prelude.{
  ◌≡◌, refl, ◌==◌, Bool, true, false, List, [], ◌∷◌, ◌++◌, Bytes, arith, All, All-append, map,
  append_assoc, append-nil,
}
use logspine.Event.{LogEvent}
use logspine.Json.{Platform, to_json, to_json_lines_record}
use logspine.Json.Escape.{IsPrintable, escaped-IsPrintable, quoted, escaped}
use logspine.Json.Syntax.{
  Json, jnull, jbool, jnum, jstr, jarr, jobj, Elements, no_more, element, Members, done, member,
  is_number_byte,
}
use logspine.Json.Document.{
  print, print_members, print_elements, EachNumbers, HasNumbers, AllNumbers,
}
use logspine.Json.Printed.{event_json, to_json-eq}
use logspine.Json.Reading.{PrintsNumbers, event_json-HasNumbers}

-- The lines that a text holds, and the rest behind its last line feed.
unfoldable pub split_lines : Bytes → Bytes → List Bytes × Bytes
split_lines line [] = ([], line)
split_lines line (c ∷ s) = elim (c == 0x0A) [
  | true ↦ (line ∷ (split_lines [] s).0, (split_lines [] s).1)
  | false ↦ split_lines (line ++ (c ∷ [])) s
]

number_bytes : (s : Bytes) → All (λ c. is_number_byte c ≡ true) s → IsPrintable s
number_bytes [] h = tt
number_bytes (c ∷ s) h = (ground arith, number_bytes s h.1)

quoted-IsPrintable : (s : Bytes) → IsPrintable (quoted s)
quoted-IsPrintable s =
    (omega arith, All-append _ (escaped s) (b'"' ∷ []) (escaped-IsPrintable s) (omega arith, tt))

mutual
  unfolding print

  pub print-IsPrintable : (j : Json) → HasNumbers j → IsPrintable (print j)
  print-IsPrintable jnull w = omega arith
  print-IsPrintable (jbool true) w = omega arith
  print-IsPrintable (jbool false) w = omega arith
  print-IsPrintable (jnum s) w = number_bytes s w.1
  print-IsPrintable (jstr s) w = quoted-IsPrintable s
  print-IsPrintable (jarr es) w = (
    omega arith,
    All-append _ (print_elements true es) (b']' ∷ []) (print_elements-IsPrintable true es w)
        (omega arith, tt),
  )
  print-IsPrintable (jobj ms) w = (
    omega arith,
    All-append _ (print_members true ms) (b'}' ∷ []) (print_members-IsPrintable true ms w)
        (omega arith, tt),
  )

  print_members-IsPrintable :
      (first : Bool) (ms : Members) → AllNumbers ms → IsPrintable (print_members first ms)
  print_members-IsPrintable first done w = tt
  print_members-IsPrintable true (member k j ms) w =
      All-append _ (quoted k) (b':' ∷ (print j ++ print_members false ms)) (quoted-IsPrintable k) (
        omega arith,
        All-append _ (print j) (print_members false ms) (print-IsPrintable j w.0)
            (print_members-IsPrintable false ms w.1),
      )
  print_members-IsPrintable false (member k j ms) w = (
    omega arith,
    All-append _ (quoted k) (b':' ∷ (print j ++ print_members false ms)) (quoted-IsPrintable k) (
      omega arith,
      All-append _ (print j) (print_members false ms) (print-IsPrintable j w.0)
          (print_members-IsPrintable false ms w.1),
    ),
  )

  print_elements-IsPrintable :
      (first : Bool) (es : Elements) → EachNumbers es → IsPrintable (print_elements first es)
  print_elements-IsPrintable first no_more w = tt
  print_elements-IsPrintable true (element j es) w =
      All-append _ (print j) (print_elements false es) (print-IsPrintable j w.0)
        (print_elements-IsPrintable false es w.1)
  print_elements-IsPrintable false (element j es) w = (
    omega arith,
    All-append _ (print j) (print_elements false es) (print-IsPrintable j w.0)
        (print_elements-IsPrintable false es w.1),
  )

-- What is written for a list of events, one record behind the other.
unfoldable pub records : Platform → List LogEvent → Bytes
records p [] = []
records p (e ∷ es) = to_json_lines_record p e ++ records p es

pub to_json-IsPrintable :
    (p : Platform) → PrintsNumbers p → (e : LogEvent) → IsPrintable (to_json p e)
to_json-IsPrintable p numbers e =
    rw (to_json-eq p e) (print-IsPrintable (event_json p e) (event_json-HasNumbers p numbers e))

-- A printable text before a line feed is one line.
pub split_lines-line :
    (line s rest : Bytes)
    → IsPrintable s
    → split_lines line (s ++ (0x0A ∷ rest))
      ≡ ((line ++ s) ∷ (split_lines [] rest).0, (split_lines [] rest).1)
unfolding split_lines
split_lines-line line [] rest h = rw (append-nil line)
split_lines-line line (c ∷ s) rest h =
    ground (arith, split_lines-line (line ++ (c ∷ [])) s rest h.1, append_assoc line (c ∷ []) s)

-- Splitting the records of any events at line feeds gives their JSON texts, one for each event in
-- order, and nothing is left over, where `to_chars` prints numbers.
pub split_lines-records :
    (p : Platform)
    → PrintsNumbers p
    → (es : List LogEvent) → split_lines [] (records p es) ≡ (map (to_json p) es, [])
unfolding to_json_lines_record records split_lines
split_lines-records p numbers [] = refl
split_lines-records p numbers (e ∷ es) = rw (
  append_assoc (to_json p e) (0x0A ∷ []) (records p es),
  split_lines-line [] (to_json p e) (records p es) (to_json-IsPrintable p numbers e),
  split_lines-records p numbers es,
)
