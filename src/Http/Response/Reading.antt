-- ===== src/Http/Response/Reading.antt =====
-- A client that reads the responses of src/http/HttpResponse.cpp by their Content-Length.
use lmonitor.Base.{
  ℕ, zero, suc, ◌^◌, ◌<◌, ◌≡◌, refl, ap, ◌∙◌, false, [], ◌∷◌, ◌++◌, Option, none, some, ok, err,
  arith, if◌then◌else◌, length, take, drop, ltb,
}
use lmonitor.Base.Text.{Bytes, codes, bytes_eq}
use lmonitor.Base.Decimal.{to_string, to_string-IsDigit}
use lmonitor.Base.Lines.{cut, cut-append, has, has-append}
use lmonitor.Base.Number.{skip_spaces, stoull, stoull-to_string}
use lmonitor.Serializer.RoundTrip.Lines.{digits-has}
use lmonitor.Http.Response.{build, crlf}

-- What a client gets: the status, the type and the body.
pub record Received : Type 0 where
  pub status : ℕ
  pub content_type : Bytes
  pub body : Bytes

-- A line that ends in CRLF, and what is behind it.
abbrev behind_cr : Option (Bytes × Bytes) → Option (Bytes × Bytes)
behind_cr none = none
behind_cr (some (line, [])) = none
behind_cr (some (line, c ∷ rest)) =
    if bytes_eq (c ∷ []) (b'\n' ∷ []) then some (line, rest) else none

unfoldable pub read_line : Bytes → Option (Bytes × Bytes)
unfolding cut
read_line s = behind_cr (cut b'\r' s)

-- The headers that matter: the type, and the length as far as it was seen.
pub record Headers : Type 0 where
  pub content_type : Bytes
  pub content_length : Option ℕ

abbrev number_of : Bytes → Option ℕ
number_of s = elim (stoull s) [ ok (n, rest) ↦ some n | err e ↦ none ]

-- A header line, cut at its colon.
abbrev header : Bytes → Bytes → Headers → Headers
header name field h =
    if bytes_eq name (codes "Content-Type")
    then record h { content_type = drop 1 field }
    else if bytes_eq name (codes "Content-Length")
    then record h { content_length = number_of field }
    else h

abbrev header_line : Bytes → Headers → Headers
header_line line h = elim (cut b':' line) [ none ↦ h | some (name, field) ↦ header name field h ]

-- Header lines up to the empty one.
unfoldable pub read_headers : ℕ → Bytes → Headers → Option (Headers × Bytes)
unfolding read_line cut bytes_eq
read_headers zero s h = none
read_headers (suc fuel) s h = elim (read_line s) [
  | none ↦ none
  | some (line, rest) ↦ elim line [
    | [] ↦ some (h, rest)
    | ◌∷◌ c l ↦ read_headers fuel rest (header_line (c ∷ l) h)
  ]
]

abbrev body_of : ℕ → Option (Headers × Bytes) → Option Received
body_of status none = none
body_of status (some (h, rest)) = elim h.content_length [
  | none ↦ none
  | some n ↦
      if ltb (length rest) n
      then none
      else some (record { status = status; content_type = h.content_type; body = take n rest })
]

-- The number between the two spaces of a status line.
abbrev code_of : Option (Bytes × Bytes) → Option ℕ
code_of none = none
code_of (some (code, reason)) = number_of code

abbrev status_of : Bytes → Option ℕ
status_of line = elim (cut b' ' line) [
  | none ↦ none
  | some (version, rest) ↦ code_of (cut b' ' rest)
]

-- The number of header lines that the client is ready for.
abbrev pub most_headers : ℕ
most_headers = 100

unfoldable pub read_response : Bytes → Option Received
unfolding read_line read_headers
read_response s = elim (read_line s) [
  | none ↦ none
  | some (line, rest) ↦ elim (status_of line) [
    | none ↦ none
    | some status ↦
        body_of status
          (read_headers most_headers rest (record { content_type = []; content_length = none }))
  ]
]

take_all : (s : Bytes) → take (length s) s ≡ s
take_all [] = refl
take_all (c ∷ s) = ap (◌∷◌ c) (take_all s)

read_line-crlf :
    (line rest : Bytes) → has b'\r' line ≡ false → read_line (crlf line rest) ≡ some (line, rest)
unfolding read_line bytes_eq
read_line-crlf line rest h = rw (cut-append b'\r' line (b'\n' ∷ rest) h) refl

read_headers-crlf :
    (fuel c : ℕ) (l rest : Bytes) (h : Headers)
    → has b'\r' (c ∷ l) ≡ false
    → read_headers (suc fuel) (crlf (c ∷ l) rest) h ≡ read_headers fuel rest (header_line (c ∷ l) h)
unfolding read_headers
read_headers-crlf fuel c l rest h line = rw (read_line-crlf (c ∷ l) rest line, read_headers) refl

read_headers-end :
    (fuel : ℕ) (rest : Bytes) (h : Headers)
    → read_headers (suc fuel) (crlf [] rest) h ≡ some (h, rest)
unfolding read_headers read_line cut bytes_eq
read_headers-end fuel rest h = refl

number_of-to_string : (n : ℕ) → n < 2 ^ 64 → number_of (to_string n) ≡ some n
number_of-to_string n h = rw (stoull-to_string n h, number_of) refl

number_of-space : (n : ℕ) → n < 2 ^ 64 → number_of (b' ' ∷ to_string n) ≡ some n
unfolding stoull skip_spaces
number_of-space n h = number_of-to_string n h

length_line :
    (n : ℕ) (h : Headers)
    → n < 2 ^ 64
    → header_line (codes "Content-Length: " ++ to_string n) h ≡ record h { content_length = some n }
unfolding cut bytes_eq
length_line n h fits = ap (λ o. record h { content_length = o }) (number_of-space n fits)

status-line :
    (n : ℕ) (text : Bytes)
    → n < 2 ^ 64
    → status_of (codes "HTTP/1.1 " ++ (to_string n ++ b' ' ∷ text)) ≡ some n
unfolding cut
status-line n text fits =
    rw
      (cut-append b' ' (to_string n) text
        (digits-has b' ' (to_string n) (omega arith) (to_string-IsDigit n)))
      (number_of-to_string n fits)

read_response-crlf :
    (line rest : Bytes) (status : ℕ)
    → has b'\r' line ≡ false
    → status_of line ≡ some status
    → read_response (crlf line rest)
      ≡ body_of status
          (read_headers most_headers rest (record { content_type = []; content_length = none }))
unfolding read_response
read_response-crlf line rest status h e =
    rw (read_line-crlf line rest h, read_response) (rw (e, status_of) refl)

read_headers-build :
    (kind body : Bytes)
    → has b'\r' kind ≡ false
    → length body < 2 ^ 64
    → read_headers most_headers
        (crlf (codes "Content-Type: " ++ kind) (
          crlf (codes "Content-Length: " ++ to_string (length body)) (
            crlf
              (codes "Connection: close")
              (crlf (codes "Cache-Control: no-cache") (crlf [] body)))))
        (record { content_type = []; content_length = none })
      ≡ some (record { content_type = kind; content_length = some (length body) }, body)
unfolding has cut bytes_eq
read_headers-build kind body typed fits =
    let n = length body in
    let d = digits-has b'\r' (to_string n) (omega arith) (to_string-IsDigit n) in
    read_headers-crlf 99 b'C' (codes "ontent-Type: " ++ kind) _ _ typed
    ∙ read_headers-crlf 98 b'C' (codes "ontent-Length: " ++ to_string n) _ _ d
    ∙ ap
        (read_headers 98 (
          crlf (codes "Connection: close") (crlf (codes "Cache-Control: no-cache") (crlf [] body))))
        (length_line n (record { content_type = kind; content_length = none }) fits)
    ∙ read_headers-crlf 97 b'C' (codes "onnection: close") _ _ refl
    ∙ read_headers-crlf 96 b'C' (codes "ache-Control: no-cache") _ _ refl
    ∙ read_headers-end 95 body _

body_of-whole :
    (status : ℕ) (kind body : Bytes)
    → body_of status
        (some (record { content_type = kind; content_length = some (length body) }, body))
      ≡ some (record { status = status; content_type = kind; body = body })
body_of-whole status kind body = ground (arith, take_all body)

status_line-has :
    (n : ℕ) (text : Bytes)
    → has b'\r' text ≡ false
    → has b'\r' (codes "HTTP/1.1 " ++ (to_string n ++ b' ' ∷ text)) ≡ false
unfolding has
status_line-has n text h = ground (
  arith,
  has-append b'\r' (to_string n) (b' ' ∷ text),
  digits-has b'\r' (to_string n) (omega arith) (to_string-IsDigit n),
)

-- What a client reads off a response, whatever the body is: the status, the type and the whole body,
-- if the reason and the type stay within their lines and the body is shorter than 2 ^ 64 bytes.
pub read_response-build :
    (n : ℕ) (text kind body : Bytes)
    → n < 2 ^ 64
    → has b'\r' text ≡ false
    → has b'\r' kind ≡ false
    → length body < 2 ^ 64
    → read_response (build n text kind body)
      ≡ some (record { status = n; content_type = kind; body = body })
unfolding build
read_response-build n text kind body code reason typed fits =
    read_response-crlf (codes "HTTP/1.1 " ++ (to_string n ++ b' ' ∷ text)) _ n
      (status_line-has n text reason) (status-line n text code)
    ∙ ap (body_of n) (read_headers-build kind body typed fits)
    ∙ body_of-whole n kind body
