-- ===== src/Json/Document.antt =====
-- Documents written compactly, with the strings as src/json.cpp escapes them, read back.
use mathlib.Core.Option
use logspine.Prelude.{
  ◌==◌, ◌∙◌, ◌*◌, ℕ, zero, suc, ◌+◌, ◌≤◌, ◌≡◌, ◌≢◌, refl, Bool, true, false, some, [], ◌∷◌, ◌++◌,
  append_assoc, append-nil, Bytes, codes, arith, All, length, length-append,
}
use logspine.Json.Escape.{escaped, quoted, read_string-escaped}
use logspine.Json.Syntax.{
  Json, jnull, jbool, jnum, jstr, jarr, jobj, Elements, no_more, element, read_elements,
  read_element, Members, done, member, is_number_byte, span_number, expect, read_value,
  read_members, read_member, read_json,
}

abbrev pub comma : Bool → Bytes
comma true = []
comma false = b',' ∷ []

unfoldable mutual
  pub print : Json → Bytes
  print jnull = codes "null"
  print (jbool true) = codes "true"
  print (jbool false) = codes "false"
  print (jnum s) = s
  print (jstr s) = quoted s
  print (jarr es) = b'[' ∷ (print_elements true es ++ (b']' ∷ []))
  print (jobj ms) = b'{' ∷ (print_members true ms ++ (b'}' ∷ []))

  pub print_members : Bool → Members → Bytes
  print_members first done = []
  print_members first (member k j ms) =
      comma first ++ (quoted k ++ (b':' ∷ (print j ++ print_members false ms)))

  pub print_elements : Bool → Elements → Bytes
  print_elements first no_more = []
  print_elements first (element j es) = comma first ++ (print j ++ print_elements false es)

-- A number is one or more bytes of numbers.
abbrev pub IsNumber : Bytes → Type 0
IsNumber s = (s ≢ []) × All (λ c. is_number_byte c ≡ true) s

abbrev mutual
  pub HasNumbers : Json → Type 0
  HasNumbers jnull = Unit {0}
  HasNumbers (jbool b) = Unit {0}
  HasNumbers (jnum s) = IsNumber s
  HasNumbers (jstr s) = Unit {0}
  HasNumbers (jarr es) = EachNumbers es
  HasNumbers (jobj ms) = AllNumbers ms

  pub AllNumbers : Members → Type 0
  AllNumbers done = Unit {0}
  AllNumbers (member k j ms) = HasNumbers j × AllNumbers ms

  pub EachNumbers : Elements → Type 0
  EachNumbers no_more = Unit {0}
  EachNumbers (element j es) = HasNumbers j × EachNumbers es

-- The fuel that reading takes.
mutual
  size : Json → ℕ
  size jnull = 1
  size (jbool b) = 1
  size (jnum s) = 1
  size (jstr s) = 1
  size (jarr es) = 1 + size_elements es
  size (jobj ms) = 1 + size_members ms

  size_members : Members → ℕ
  size_members done = 1
  size_members (member k j ms) = 2 + (size j + size_members ms)

  size_elements : Elements → ℕ
  size_elements no_more = 1
  size_elements (element j es) = 2 + (size j + size_elements es)

-- No number goes on in such a rest.
abbrev pub Ends : Bytes → Type 0
Ends [] = Unit {0}
Ends (c ∷ s) = is_number_byte c ≡ false

span_number_lem :
    (s rest : Bytes)
    → All (λ c. is_number_byte c ≡ true) s
    → Ends rest
    → span_number (s ++ rest) ≡ (s, rest)
unfolding span_number
span_number_lem [] [] h e = refl
span_number_lem [] (c ∷ rest) h e = ground arith
span_number_lem (c ∷ s) rest h e = ground (arith, span_number_lem s rest h.1 e)

read_value-number :
    (fuel : ℕ) (s rest : Bytes)
    → IsNumber s
    → Ends rest
    → read_value (suc fuel) (s ++ rest) ≡ some (jnum s, rest)
unfolding read_value
read_value-number fuel [] rest h e = absurd (h.0 refl)
read_value-number fuel (c ∷ s) rest h e = ground (arith, span_number_lem (c ∷ s) rest h.1 e)

Ends-members : (ms : Members) (rest : Bytes) → Ends (print_members false ms ++ (b'}' ∷ rest))
unfolding print
Ends-members done rest = refl
Ends-members (member k j ms) rest = refl

Ends-elements : (es : Elements) (rest : Bytes) → Ends (print_elements false es ++ (b']' ∷ rest))
unfolding print
Ends-elements no_more rest = refl
Ends-elements (element j es) rest = refl

-- What does not close an array.
abbrev Opens : Bytes → Type 0
Opens [] = ⊥
Opens (c ∷ s) = (c == b']') ≡ false

print-Opens : (j : Json) (rest : Bytes) → HasNumbers j → Opens (print j ++ rest)
unfolding print
print-Opens jnull rest w = refl
print-Opens (jbool true) rest w = refl
print-Opens (jbool false) rest w = refl
print-Opens (jnum []) rest w = absurd (w.0 refl)
print-Opens (jnum (c ∷ s)) rest w = ground (arith, w.1)
print-Opens (jstr s) rest w = refl
print-Opens (jarr es) rest w = refl
print-Opens (jobj ms) rest w = refl

read_elements-first :
    (fuel : ℕ) (s : Bytes) → Opens s → read_elements (suc fuel) true s ≡ read_element fuel s
unfolding read_value
read_elements-first fuel [] h = absurd h
read_elements-first fuel (c ∷ s) h = ground arith

read_element-print :
    (fuel : ℕ) (j : Json) (es : Elements) (s s' rest : Bytes)
    → read_value fuel s ≡ some (j, s')
    → read_elements fuel false s' ≡ some (es, rest)
    → read_element (suc fuel) s ≡ some (element j es, rest)
unfolding read_value Option.bind
read_element-print fuel j es s s' rest h h' = rw (h, h')

read_member-print :
    (fuel : ℕ) (k : Bytes) (j : Json) (ms : Members) (s s' rest : Bytes)
    → read_value fuel s ≡ some (j, s')
    → read_members fuel false s' ≡ some (ms, rest)
    → read_member (suc fuel) (escaped k ++ (b'"' ∷ b':' ∷ s)) ≡ some (member k j ms, rest)
unfolding read_value expect Option.bind
read_member-print fuel k j ms s s' rest h h' = rw (read_string-escaped k (b':' ∷ s), h, h')

-- The text of a member behind its first quote, regrouped for the reader of it.
member_text :
    (k s t rest : Bytes)
    → ((escaped k ++ (b'"' ∷ [])) ++ (b':' ∷ (s ++ t))) ++ rest
      ≡ escaped k ++ (b'"' ∷ b':' ∷ (s ++ (t ++ rest)))
member_text k s t rest = simp append_assoc

mutual
  unfolding print size read_value expect Option.bind

  read_value-print :
      (fuel : ℕ) (j : Json) (rest : Bytes)
      → HasNumbers j
      → size j ≤ fuel
      → Ends rest
      → read_value fuel (print j ++ rest) ≡ some (j, rest)
  read_value-print zero jnull rest w h e = absurd (omega arith)
  read_value-print zero (jbool b) rest w h e = absurd (omega arith)
  read_value-print zero (jnum s) rest w h e = absurd (omega arith)
  read_value-print zero (jstr s) rest w h e = absurd (omega arith)
  read_value-print zero (jarr es) rest w h e = absurd (omega arith)
  read_value-print zero (jobj ms) rest w h e = absurd (omega arith)
  read_value-print (suc fuel) jnull rest w h e = refl
  read_value-print (suc fuel) (jbool true) rest w h e = refl
  read_value-print (suc fuel) (jbool false) rest w h e = refl
  read_value-print (suc fuel) (jnum s) rest w h e = read_value-number fuel s rest w e
  read_value-print (suc fuel) (jstr s) rest w h e =
      rw (append_assoc (escaped s) (b'"' ∷ []) rest, read_string-escaped s rest)
  read_value-print (suc fuel) (jarr es) rest w h e = rw (
    append_assoc (print_elements true es) (b']' ∷ []) rest,
    read_elements-print fuel true es rest w (omega arith),
  )
  read_value-print (suc fuel) (jobj ms) rest w h e = rw (
    append_assoc (print_members true ms) (b'}' ∷ []) rest,
    read_members-print fuel true ms rest w (omega arith),
  )

  read_members-print :
      (fuel : ℕ) (first : Bool) (ms : Members) (rest : Bytes)
      → AllNumbers ms
      → size_members ms ≤ fuel
      → read_members fuel first (print_members first ms ++ (b'}' ∷ rest)) ≡ some (ms, rest)
  read_members-print zero first done rest w h = absurd (omega arith)
  read_members-print zero first (member k j ms) rest w h = absurd (omega arith)
  read_members-print (suc fuel) first done rest w h = refl
  read_members-print (suc zero) first (member k j ms) rest w h = absurd (omega arith)
  read_members-print (suc (suc fuel)) true (member k j ms) rest w h =
      rw (member_text k (print j) (print_members false ms) (b'}' ∷ rest)) (
        read_member-print fuel k j ms _ _ rest
          (read_value-print fuel j _ w.0 (omega arith) (Ends-members ms rest))
          (read_members-print fuel false ms rest w.1 (omega arith)))
  read_members-print (suc (suc fuel)) false (member k j ms) rest w h =
      rw (member_text k (print j) (print_members false ms) (b'}' ∷ rest)) (
        read_member-print fuel k j ms _ _ rest
          (read_value-print fuel j _ w.0 (omega arith) (Ends-members ms rest))
          (read_members-print fuel false ms rest w.1 (omega arith)))

  read_elements-print :
      (fuel : ℕ) (first : Bool) (es : Elements) (rest : Bytes)
      → EachNumbers es
      → size_elements es ≤ fuel
      → read_elements fuel first (print_elements first es ++ (b']' ∷ rest)) ≡ some (es, rest)
  read_elements-print zero first no_more rest w h = absurd (omega arith)
  read_elements-print zero first (element j es) rest w h = absurd (omega arith)
  read_elements-print (suc fuel) first no_more rest w h = refl
  read_elements-print (suc zero) first (element j es) rest w h = absurd (omega arith)
  read_elements-print (suc (suc fuel)) true (element j es) rest w h =
      rw (append_assoc (print j) (print_elements false es) (b']' ∷ rest)) (
        read_elements-first (suc fuel) _ (print-Opens j _ w.0)
        ∙ read_element-print fuel j es _ _ rest
            (read_value-print fuel j _ w.0 (omega arith) (Ends-elements es rest))
            (read_elements-print fuel false es rest w.1 (omega arith)))
  read_elements-print (suc (suc fuel)) false (element j es) rest w h =
      rw (append_assoc (print j) (print_elements false es) (b']' ∷ rest)) (
        read_element-print fuel j es _ _ rest
          (read_value-print fuel j _ w.0 (omega arith) (Ends-elements es rest))
          (read_elements-print fuel false es rest w.1 (omega arith)))

-- Enough fuel: twice the length of a document is more than its size.
mutual
  unfolding print size

  size-le : (j : Json) → HasNumbers j → size j + 1 ≤ length (print j) * 2
  size-le jnull w = omega arith
  size-le (jbool true) w = omega arith
  size-le (jbool false) w = omega arith
  size-le (jnum []) w = absurd (w.0 refl)
  size-le (jnum (c ∷ s)) w = omega arith
  size-le (jstr s) w = omega arith
  size-le (jarr es) w =
      omega (arith, length-append (print_elements true es) (b']' ∷ []), size_elements-le true es w)
  size-le (jobj ms) w =
      omega (arith, length-append (print_members true ms) (b'}' ∷ []), size_members-le true ms w)

  size_members-le :
      (first : Bool) (ms : Members)
      → AllNumbers ms
      → size_members ms ≤ length (print_members first ms) * 2 + 1
  size_members-le first done w = omega arith
  size_members-le first (member k j ms) w = omega (
    arith,
    length-append (comma first) (quoted k ++ (b':' ∷ (print j ++ print_members false ms))),
    length-append (quoted k) (b':' ∷ (print j ++ print_members false ms)),
    length-append (escaped k) (b'"' ∷ []),
    length-append (print j) (print_members false ms),
    size-le j w.0,
    size_members-le false ms w.1,
  )

  size_elements-le :
      (first : Bool) (es : Elements)
      → EachNumbers es
      → size_elements es + length (comma first) ≤ length (print_elements first es) * 2 + 2
  size_elements-le true no_more w = omega arith
  size_elements-le false no_more w = omega arith
  size_elements-le first (element j es) w = omega (
    arith,
    length-append (comma first) (print j ++ print_elements false es),
    length-append (print j) (print_elements false es),
    size-le j w.0,
    size_elements-le false es w.1,
  )

-- A whole document reads back, with nothing left.
pub read_json-print : (j : Json) → HasNumbers j → read_json (print j) ≡ some (j, [])
unfolding read_json
read_json-print j w =
    rw (append-nil (print j)) at
      (read_value-print (length (print j) * 2 + 1) j [] w (omega (arith, size-le j w)) tt)
