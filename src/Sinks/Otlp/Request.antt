-- ===== src/Sinks/Otlp/Request.antt =====
-- A reader of HTTP requests, and what it reads of the ones that the OTLP sink sends.
use logspine.Prelude.{
  ℕ, zero, suc, ◌≡◌, ◌≢◌, refl, ◌∙◌, ◌==◌, leb, if◌then◌else◌, Option, none, some, [], ◌∷◌, ◌++◌,
  append_assoc, Bytes, codes, length, take, take_all, All, All-append, arith,
}
use logspine.Decimal.{decimal}
use logspine.Decimal.Reading.{number_value, number_value-decimal, decimal-IsDigit, IsDigit}
use logspine.Sinks.Otlp.{make_http_post}

-- The first line, up to CR LF, and what follows.
unfoldable pub take_line : Bytes → Option (Bytes × Bytes)
take_line [] = none
take_line (c ∷ s) =
    let longer : Option (Bytes × Bytes) = elim (take_line s) [
      | none ↦ none
      | some (line, rest) ↦ some (c ∷ line, rest)
    ] in
    let ended : Option (Bytes × Bytes) = elim s [
      | [] ↦ none
      | lf ∷ rest ↦ if lf == 0x0A then some ([], rest) else none
    ] in
    if c == 0x0D then ended else longer

unfoldable pub strip_prefix : Bytes → Bytes → Option Bytes
strip_prefix [] s = some s
strip_prefix (c ∷ p) [] = none
strip_prefix (c ∷ p) (d ∷ s) = let rest = strip_prefix p s in if c == d then rest else none

-- The body behind the headers: as many bytes as the last `Content-Length` says.
unfoldable pub read_headers : ℕ → Option ℕ → Bytes → Option Bytes
read_headers zero size s = none
read_headers (suc fuel) size s = elim (take_line s) [
  | none ↦ none
  | some (line, rest) ↦ elim line [
    | [] ↦ elim size [
      | none ↦ none
      | some n ↦ if leb n (length rest) then some (take n rest) else none
    ]
    | c ∷ more ↦ elim (strip_prefix (codes "Content-Length: ") (c ∷ more)) [
      | none ↦ read_headers fuel size rest
      | some digits ↦ read_headers fuel (some (number_value 0 digits)) rest
    ]
  ]
]

-- The request line and the body; a request has at most a hundred headers.
unfoldable pub read_request : Bytes → Option (Bytes × Bytes)
read_request s = elim (take_line s) [
  | none ↦ none
  | some (line, rest) ↦ elim (read_headers 101 none rest) [
    | none ↦ none
    | some body ↦ some (line, body)
  ]
]

abbrev pub OneLine : Bytes → Type 0
OneLine s = All (λ c. c ≢ 0x0D) s

take_line-append :
    (line rest : Bytes)
    → OneLine line
    → take_line (line ++ (0x0D ∷ (0x0A ∷ rest))) ≡ some (line, rest)
unfolding take_line
take_line-append [] rest h = refl
take_line-append (c ∷ line) rest h = ground (arith, h.0, take_line-append line rest h.1)

-- A line of a header, and the next.
abbrev line_then : Bytes → Bytes → Bytes
line_then line rest = line ++ (0x0D ∷ (0x0A ∷ rest))

abbrev request_line : Bytes → Bytes
request_line path = codes "POST " ++ path ++ codes " HTTP/1.1"

-- The request, line by line.
in_lines :
    (host path body : Bytes)
    → make_http_post host path body
      ≡ line_then (request_line path) (
          line_then (codes "Host: " ++ host) (
            line_then (codes "Content-Type: application/json") (
              line_then
                (codes "Content-Length: " ++ decimal (length body))
                (line_then (codes "Connection: keep-alive") (line_then [] body)))))
unfolding make_http_post
in_lines host path body = simp append_assoc

-- One header that is not `Content-Length`.
other_header :
    (fuel : ℕ) (size : Option ℕ) (c : ℕ) (line rest : Bytes)
    → OneLine (c ∷ line)
    → strip_prefix (codes "Content-Length: ") (c ∷ line) ≡ none
    → read_headers (suc fuel) size (line_then (c ∷ line) rest) ≡ read_headers fuel size rest
unfolding read_headers
other_header fuel size c line rest h e = ground (arith, e, take_line-append (c ∷ line) rest h)

strip_prefix-append : (p s : Bytes) → strip_prefix p (p ++ s) ≡ some s
unfolding strip_prefix
strip_prefix-append [] s = refl
strip_prefix-append (c ∷ p) s = ground (arith, strip_prefix-append p s)

digits-OneLine : (s : Bytes) → All IsDigit s → OneLine s
digits-OneLine [] h = tt
digits-OneLine (c ∷ s) h = (λ e. omega (arith, h.0), digits-OneLine s h.1)

length_header :
    (fuel n : ℕ) (size : Option ℕ) (rest : Bytes)
    → read_headers (suc fuel) size (line_then (codes "Content-Length: " ++ decimal n) rest)
      ≡ read_headers fuel (some n) rest
unfolding read_headers
length_header fuel n size rest = ground (
  arith,
  take_line-append (codes "Content-Length: " ++ decimal n) rest one_line,
  strip_prefix-append (codes "Content-Length: ") (decimal n),
  number_value-decimal n,
)
  where
    one_line : OneLine (codes "Content-Length: " ++ decimal n)
    one_line =
        All-append (λ c. c ≢ 0x0D) (codes "Content-Length: ") (decimal n) (omega arith)
          (digits-OneLine (decimal n) (decimal-IsDigit n))

end_of_headers :
    (fuel : ℕ) (body : Bytes)
    → read_headers (suc fuel) (some (length body)) (line_then [] body) ≡ some body
unfolding read_headers
end_of_headers fuel body =
    ground (arith, take_line-append [] body tt, take_all (length body) body (omega arith))

-- A request for a host and a path of one line each reads back as its request line and the body, all
-- of it: `Content-Length` is its length.
pub read_request-make_http_post :
    (host path body : Bytes)
    → OneLine host
    → OneLine path
    → read_request (make_http_post host path body)
      ≡ some (codes "POST " ++ path ++ codes " HTTP/1.1", body)
unfolding read_request strip_prefix
read_request-make_http_post host path body one_host one_path =
    rw (in_lines host path body)
      (ground (arith, take_line-append (request_line path) after_line first, headers))
  where
    first : OneLine (request_line path)
    first =
        All-append (λ c. c ≢ 0x0D) (codes "POST " ++ path) (codes " HTTP/1.1")
          (All-append (λ c. c ≢ 0x0D) (codes "POST ") path (omega arith) one_path) (omega arith)

    after_type : Bytes
    after_type =
        line_then (codes "Content-Length: " ++ decimal (length body))
          (line_then (codes "Connection: keep-alive") (line_then [] body))

    after_line : Bytes
    after_line =
        line_then (codes "Host: " ++ host)
          (line_then (codes "Content-Type: application/json") after_type)

    headers : read_headers 101 none after_line ≡ some body
    headers =
        other_header 100 none b'H' (codes "ost: " ++ host)
          (line_then (codes "Content-Type: application/json") after_type)
          (All-append (λ c. c ≢ 0x0D) (codes "Host: ") host (omega arith) one_host) (ground arith)
        ∙ other_header 99 none b'C' (codes "ontent-Type: application/json") after_type (omega arith)
            (ground arith)
        ∙ length_header 98 (length body) none
            (line_then (codes "Connection: keep-alive") (line_then [] body))
        ∙ other_header 97 (some (length body)) b'C' (codes "onnection: keep-alive")
            (line_then [] body) (omega arith) (ground arith)
        ∙ end_of_headers 96 body
