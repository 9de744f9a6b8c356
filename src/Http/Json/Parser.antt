-- ===== src/Http/Json/Parser.antt =====
-- A reader of JSON texts, by RFC 8259 without white space, for the answers of src/http/HttpServer.cpp.
use lmonitor.Base.{
  ℕ, zero, suc, Bool, true, false, ◌||◌, [], ◌∷◌, Option, none, some, if◌then◌else◌, ◌==◌,
}
use lmonitor.Base.Text.{Bytes}
use lmonitor.Base.Number.{is_digit}
use lmonitor.Http.Json.{
  Json, string, number, array, object, Items, no_items, item, Members, no_members, member,
}
use lmonitor.Http.Json.Escape.{read_string}

-- The characters of numbers. A value is followed by none of them, so the longest run is the number.
abbrev pub is_number_char : ℕ → Bool
is_number_char c = is_digit c || c == b'-' || c == b'+' || c == b'.' || c == b'e' || c == b'E'

abbrev cons_number : ℕ → Bytes × Bytes → Bytes × Bytes
cons_number c (n, rest) = (c ∷ n, rest)

unfoldable pub read_number : Bytes → Bytes × Bytes
read_number [] = ([], [])
read_number (c ∷ s) =
    let rest = read_number s in if is_number_char c then cons_number c rest else ([], c ∷ s)

-- How far a text is a number: at its start, behind the minus, behind the zero that is the integer
-- part, in the digits of another integer part, behind the point, in the digits behind it, behind the
-- `e`, behind the exponent's sign, in the exponent's digits, or not a number.
pub data Place : Type 0 where
  begin minus nought integer point fraction exponent signed power wrong : Place

abbrev leading : ℕ → Place
leading c = if c == b'0' then nought else if is_digit c then integer else wrong

abbrev behind_fraction : ℕ → Place
behind_fraction c = if c == b'e' || c == b'E' then exponent else wrong

abbrev behind_integer : ℕ → Place
behind_integer c = if c == b'.' then point else behind_fraction c

abbrev next_place : Place → ℕ → Place
next_place begin c = if c == b'-' then minus else leading c
next_place minus c = leading c
next_place nought c = behind_integer c
next_place integer c = if is_digit c then integer else behind_integer c
next_place point c = if is_digit c then fraction else wrong
next_place fraction c = if is_digit c then fraction else behind_fraction c
next_place exponent c =
    if c == b'+' || c == b'-' then signed else if is_digit c then power else wrong
next_place signed c = if is_digit c then power else wrong
next_place power c = if is_digit c then power else wrong
next_place wrong c = wrong

abbrev is_end : Place → Bool
is_end nought = true
is_end integer = true
is_end fraction = true
is_end power = true
is_end _ = false

-- `number` of RFC 8259, from a place on: `[ minus ] int [ frac ] [ exp ]`, with no leading zeros.
abbrev pub number_from : Place → Bytes → Bool
number_from p [] = is_end p
number_from p (c ∷ s) = number_from (next_place p c) s

abbrev pub is_number : Bytes → Bool
is_number s = number_from begin s

-- What a value begins with.
pub data Start : Type 0 where
  quote bracket brace digit other : Start

abbrev pub start : ℕ → Start
start c =
    if c == b'"'
    then quote
    else if c == b'['
    then bracket
    else if c == b'{'
    then brace
    else if is_number_char c
    then digit
    else other

abbrev pub as_string : Option (Bytes × Bytes) → Option (Json × Bytes)
as_string none = none
as_string (some (s, rest)) = some (string s, rest)

abbrev pub as_number : Bytes × Bytes → Option (Json × Bytes)
as_number (n, rest) = if is_number n then some (number n, rest) else none

abbrev pub as_array : Option (Items × Bytes) → Option (Json × Bytes)
as_array none = none
as_array (some (vs, rest)) = some (array vs, rest)

abbrev pub as_object : Option (Members × Bytes) → Option (Json × Bytes)
as_object none = none
as_object (some (ms, rest)) = some (object ms, rest)

abbrev pub as_items : Json → Option (Items × Bytes) → Option (Items × Bytes)
as_items v none = none
as_items v (some (vs, rest)) = some (item v vs, rest)

abbrev pub as_members : Bytes → Json → Option (Members × Bytes) → Option (Members × Bytes)
as_members k v none = none
as_members k v (some (ms, rest)) = some (member k v ms, rest)

-- The text behind a character that must come next.
unfoldable pub expect : ℕ → Bytes → Option Bytes
expect c [] = none
expect c (x ∷ s) = if x == c then some s else none

-- Each call, of a value or of the rest of a list, takes one from the fuel.
unfoldable mutual
  unfolding expect

  pub parse : ℕ → Bytes → Option (Json × Bytes)
  parse zero s = none
  parse (suc fuel) [] = none
  parse (suc fuel) (c ∷ s) = elim (start c) [
    | quote ↦ as_string (read_string false s)
    | bracket ↦ as_array (parse_items fuel s)
    | brace ↦ as_object (parse_members fuel s)
    | digit ↦ as_number (read_number (c ∷ s))
    | other ↦ none
  ]

  pub parse_items : ℕ → Bytes → Option (Items × Bytes)
  parse_items zero s = none
  parse_items (suc fuel) s = elim (expect b']' s) [
    | some rest ↦ some (no_items, rest)
    | none ↦ parse_item fuel s
  ]

  pub parse_item : ℕ → Bytes → Option (Items × Bytes)
  parse_item zero s = none
  parse_item (suc fuel) s = elim (parse fuel s) [
    | none ↦ none
    | some (v, rest) ↦ as_items v (parse_more_items fuel rest)
  ]

  pub parse_more_items : ℕ → Bytes → Option (Items × Bytes)
  parse_more_items zero s = none
  parse_more_items (suc fuel) s = elim (expect b']' s) [
    | some rest ↦ some (no_items, rest)
    | none ↦ elim (expect b',' s) [ none ↦ none | some rest ↦ parse_item fuel rest ]
  ]

  pub parse_members : ℕ → Bytes → Option (Members × Bytes)
  parse_members zero s = none
  parse_members (suc fuel) s = elim (expect b'}' s) [
    | some rest ↦ some (no_members, rest)
    | none ↦ parse_member fuel s
  ]

  pub parse_member : ℕ → Bytes → Option (Members × Bytes)
  parse_member zero s = none
  parse_member (suc fuel) s = elim (expect b'"' s) [
    | none ↦ none
    | some behind_quote ↦ elim (read_string false behind_quote) [
      | none ↦ none
      | some (k, behind_key) ↦ elim (expect b':' behind_key) [
        | none ↦ none
        | some behind_colon ↦ elim (parse fuel behind_colon) [
          | none ↦ none
          | some (v, rest) ↦ as_members k v (parse_more_members fuel rest)
        ]
      ]
    ]
  ]

  pub parse_more_members : ℕ → Bytes → Option (Members × Bytes)
  parse_more_members zero s = none
  parse_more_members (suc fuel) s = elim (expect b'}' s) [
    | some rest ↦ some (no_members, rest)
    | none ↦ elim (expect b',' s) [ none ↦ none | some rest ↦ parse_member fuel rest ]
  ]
