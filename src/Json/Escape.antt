-- ===== src/Json/Escape.antt =====
-- `append_json_escaped` of src/json.cpp: the escaped text reads back as a string literal, and holds
-- no control byte.
use mathlib.Core.Option
use logspine.Prelude.{
  ℕ, ◌/◌, ◌%◌, ◌≤◌, ◌<◌, ◌≡◌, refl, sym, ◌∙◌, ◌==◌, holds_below, holds_below_sound, leb, ◌&&◌, true,
  some, [], ◌∷◌, ◌++◌, append_assoc, append-nil, Bytes, codes, arith, All, All-append, get_or,
}
use logspine.Json.{escape_byte, append_json_escaped, append_json_string, hex_digits}
use logspine.Json.Syntax.{plain, hex_value, read_string}

-- The escaped text, from the front.
abbrev pub escaped : Bytes → Bytes
escaped [] = []
escaped (c ∷ s) = escape_byte c ++ escaped s

pub append_json_escaped-eq : (s output : Bytes) → append_json_escaped s output ≡ output ++ escaped s
unfolding append_json_escaped
append_json_escaped-eq [] output = sym (append-nil output)
append_json_escaped-eq (c ∷ s) output =
    append_json_escaped-eq s (output ++ escape_byte c)
    ∙ append_assoc output (escape_byte c) (escaped s)

-- A string literal.
abbrev pub quoted : Bytes → Bytes
quoted s = b'"' ∷ (escaped s ++ (b'"' ∷ []))

pub append_json_string-eq : (s output : Bytes) → append_json_string s output ≡ output ++ quoted s
unfolding append_json_string
append_json_string-eq s output = simp (append_json_escaped-eq, append_assoc)

abbrev digit : ℕ → ℕ
digit n = get_or hex_digits n 0

digit_table : holds_below (λ n. (hex_value (digit n) == n) && leb 0x20 (digit n)) 16 ≡ true
unfolding holds_below
digit_table = refl

-- The digit of a number below 16 has that value, and is no control byte.
digit_lem : (n : ℕ) → n < 16 → (hex_value (digit n) ≡ n) × (0x20 ≤ digit n)
digit_lem n h = ground (
  arith,
  holds_below_sound (λ n. (hex_value (digit n) == n) && leb 0x20 (digit n)) 16 digit_table n h,
)

-- What a byte below 0x20 without a letter of its own is escaped to reads back.
read_string-unicode :
    (c h l : ℕ) (t : Bytes)
    → hex_value h ≡ c / 16
    → hex_value l ≡ c % 16
    → c < 0x20
    → read_string plain (codes "\\u00" ++ (h ∷ l ∷ t))
      ≡ Option.map (λ r. (c ∷ r.0, r.1)) (read_string plain t)
unfolding read_string
read_string-unicode c h l t eh el lt = ground arith

read_string-escape_byte :
    (c : ℕ) (t : Bytes)
    → read_string plain (escape_byte c ++ t)
      ≡ Option.map (λ r. (c ∷ r.0, r.1)) (read_string plain t)
unfolding read_string escape_byte
read_string-escape_byte c t = ground (
  arith,
  read_string-unicode c (digit (c / 16 % 16)) (digit (c % 16)) t,
  digit_lem (c / 16 % 16),
  digit_lem (c % 16),
)

pub read_string-escaped :
    (s rest : Bytes) → read_string plain (escaped s ++ (b'"' ∷ rest)) ≡ some (s, rest)
unfolding read_string
read_string-escaped [] rest = refl
read_string-escaped (c ∷ s) rest = rw (
  append_assoc (escape_byte c) (escaped s) (b'"' ∷ rest),
  read_string-escape_byte c (escaped s ++ (b'"' ∷ rest)),
  read_string-escaped s rest,
)

-- No byte below 0x20.
abbrev pub IsPrintable : Bytes → Type 0
IsPrintable = All (λ c. 0x20 ≤ c)

escape_byte-IsPrintable : (c : ℕ) → IsPrintable (escape_byte c)
unfolding escape_byte
escape_byte-IsPrintable c = ground (arith, digit_lem (c / 16 % 16), digit_lem (c % 16))

pub escaped-IsPrintable : (s : Bytes) → IsPrintable (escaped s)
escaped-IsPrintable [] = tt
escaped-IsPrintable (c ∷ s) =
    All-append _ (escape_byte c) (escaped s) (escape_byte-IsPrintable c) (escaped-IsPrintable s)

-- What `append_json_string` adds is a quote and a literal body: the body reads back as the string,
-- whatever follows, and no byte of it is below 0x20.
append_json_string_reads :
    (s output rest : Bytes)
    → (body : Bytes) × (append_json_string s output ≡ output ++ (b'"' ∷ body))
      × (read_string plain (body ++ rest) ≡ some (s, rest))
      × IsPrintable body
append_json_string_reads s output rest = (
  escaped s ++ (b'"' ∷ []),
  append_json_string-eq s output,
  rw (append_assoc (escaped s) (b'"' ∷ []) rest) (read_string-escaped s rest),
  All-append _ (escaped s) (b'"' ∷ []) (escaped-IsPrintable s) (omega arith, tt),
)
