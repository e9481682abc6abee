-- ===== src/Json/Syntax.antt =====
-- Compact JSON as an independent description: documents, how they are written, and
-- a reader after the grammar of RFC 8259.
use logspine.Prelude.{
  ℕ, zero, suc, ◌+◌, ◌-◌, ◌*◌, leb, ltb, ◌==◌, if◌then◌else◌, Bool, true, false, ◌&&◌, ◌||◌, Option,
  none, some, [], ◌∷◌, Bytes, codes, length,
}
use mathlib.Core.Option

-- Where the reader of a string literal stands: in plain text, behind a backslash, or before `n`
-- more hexadecimal digits of a \u escape.
pub data Mode : Type 0 where
  plain behind_backslash : Mode
  hex : ℕ → ℕ → Mode

-- What one byte of a literal does: it ends it, is wrong, stands for a byte, or opens an escape.
pub data Act : Type 0 where
  close reject : Act
  emit : ℕ → Act
  enter : Mode → Act

-- The value of a hexadecimal digit, 16 for another byte.
abbrev pub hex_value : ℕ → ℕ
hex_value c =
    if leb b'0' c && leb c b'9'
    then c - b'0'
    else if leb b'A' c && leb c b'F'
    then c - 55
    else if leb b'a' c && leb c b'f'
    then c - 87
    else 16

abbrev pub read_escape : ℕ → Act
read_escape c =
    if c == b'"'
    then emit b'"'
    else if c == 0x5C
    then emit 0x5C
    else if c == b'/'
    then emit b'/'
    else if c == b'b'
    then emit 0x08
    else if c == b'f'
    then emit 0x0C
    else if c == b'n'
    then emit 0x0A
    else if c == b'r'
    then emit 0x0D
    else if c == b't'
    then emit 0x09
    else if c == b'u'
    then enter (hex 3 0)
    else reject

-- A \u escape above 0x7F is not one byte of UTF-8, and is not read.
abbrev pub act : Mode → ℕ → Act
act plain c =
    if c == b'"'
    then close
    else if c == 0x5C
    then enter behind_backslash
    else if ltb c 0x20
    then reject
    else emit c
act behind_backslash c = read_escape c
act (hex zero acc) c =
    if ltb (hex_value c) 16 && ltb (acc * 16 + hex_value c) 0x80
    then emit (acc * 16 + hex_value c)
    else reject
act (hex (suc n) acc) c =
    if ltb (hex_value c) 16 then enter (hex n (acc * 16 + hex_value c)) else reject

-- The literal up to its closing quote, and what follows.
unfoldable pub read_string : Mode → Bytes → Option (Bytes × Bytes)
read_string m [] = none
read_string m (c ∷ s) = elim (act m c) [
  | close ↦ some ([], s)
  | reject ↦ none
  | emit b ↦ Option.map (λ r. (b ∷ r.0, r.1)) (read_string plain s)
  | enter m' ↦ read_string m' s
]

mutual
  pub data Json : Type 0 where
    jnull : Json
    jbool : Bool → Json
    jnum : Bytes → Json
    jstr : Bytes → Json
    jarr : Elements → Json
    jobj : Members → Json

  pub data Elements : Type 0 where
    no_more : Elements
    element : Json → Elements → Elements

  pub data Members : Type 0 where
    done : Members
    member : Bytes → Json → Members → Members

abbrev pub is_number_byte : ℕ → Bool
is_number_byte c =
    (leb b'0' c && leb c b'9') || c == b'-' || c == b'+' || c == b'.' || c == b'e' || c == b'E'

-- The longest prefix of bytes of a number, and the rest.
unfoldable pub span_number : Bytes → Bytes × Bytes
span_number [] = ([], [])
span_number (c ∷ s) =
    let rest = span_number s in if is_number_byte c then (c ∷ rest.0, rest.1) else ([], c ∷ s)

unfoldable pub expect : Bytes → Bytes → Option Bytes
expect [] s = some s
expect (c ∷ cs) [] = none
expect (c ∷ cs) (d ∷ s) = if c == d then expect cs s else none

abbrev pub word : Json → Bytes → Bytes → Option (Json × Bytes)
word j w s = Option.map (λ r. (j, r)) (expect w s)

abbrev pub number : Bytes × Bytes → Option (Json × Bytes)
number ([], rest) = none
number (c ∷ s, rest) = some (jnum (c ∷ s), rest)

-- Readers on fuel: a value, the members behind `{` or a member, one member and those behind it, the
-- elements behind `[` or an element, one element and those behind it.
unfoldable mutual
  pub read_value : ℕ → Bytes → Option (Json × Bytes)
  read_value zero s = none
  read_value (suc fuel) [] = none
  read_value (suc fuel) (c ∷ s) =
      let object =
        Option.map (λ (r : Members × Bytes). (jobj r.0, r.1)) (read_members fuel true s) in
      let array =
        Option.map (λ (r : Elements × Bytes). (jarr r.0, r.1)) (read_elements fuel true s) in
      if c == b'"'
      then Option.map (λ r. (jstr r.0, r.1)) (read_string plain s)
      else if c == b'{'
      then object
      else if c == b'['
      then array
      else if c == b'n'
      then word jnull (codes "ull") s
      else if c == b't'
      then word (jbool true) (codes "rue") s
      else if c == b'f'
      then word (jbool false) (codes "alse") s
      else number (span_number (c ∷ s))

  pub read_members : ℕ → Bool → Bytes → Option (Members × Bytes)
  read_members zero first s = none
  read_members (suc fuel) first [] = none
  read_members (suc fuel) first (c ∷ s) =
      let next = read_member fuel s in
      let after_comma = Option.bind (expect (b'"' ∷ []) s) (read_member fuel) in
      if c == b'}'
      then some (done, s)
      else if first
      then (if c == b'"' then next else none)
      else (if c == b',' then after_comma else none)

  pub read_member : ℕ → Bytes → Option (Members × Bytes)
  read_member zero s = none
  read_member (suc fuel) s = Option.bind (read_string plain s) λ k.
      Option.bind (expect (b':' ∷ []) k.1) λ s1. Option.bind (read_value fuel s1) λ v.
        Option.map (λ (r : Members × Bytes). (member k.0 v.0 r.0, r.1))
          (read_members fuel false v.1)

  pub read_elements : ℕ → Bool → Bytes → Option (Elements × Bytes)
  read_elements zero first s = none
  read_elements (suc fuel) first [] = none
  read_elements (suc fuel) first (c ∷ s) =
      let next = read_element fuel (c ∷ s) in
      let after_comma = read_element fuel s in
      if c == b']'
      then some (no_more, s)
      else if first
      then next
      else (if c == b',' then after_comma else none)

  pub read_element : ℕ → Bytes → Option (Elements × Bytes)
  read_element zero s = none
  read_element (suc fuel) s = Option.bind (read_value fuel s) λ v.
      Option.map (λ (r : Elements × Bytes). (element v.0 r.0, r.1)) (read_elements fuel false v.1)

-- A text that is one document: two steps read a byte at least.
unfoldable pub read_json : Bytes → Option (Json × Bytes)
unfolding read_value
read_json s = read_value (length s * 2 + 1) s
