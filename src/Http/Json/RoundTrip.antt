-- ===== src/Http/Json/RoundTrip.antt =====
-- JSON values printed and read back.
use lmonitor.Base.{
  ℕ, zero, suc, ◌+◌, ◌≤◌, ◌≡◌, refl, ap, ◌∙◌, true, false, [], ◌∷◌, ◌++◌, none, some, All, arith,
}
use lmonitor.Base.Text.{Bytes}
use lmonitor.Http.Json.{
  Json, string, number, array, object, Items, no_items, item, Members, no_members, member, quoted,
  print, print_items, print_more_items, print_members, print_more_members,
}
use lmonitor.Http.Json.Escape.{IsPlain, read_string-json_escape}
use lmonitor.Http.Json.Parser.{
  is_number_char, is_number, start, digit, read_number, as_number, as_string, as_array, as_object,
  as_items, as_members, expect, parse, parse_items, parse_item, parse_more_items, parse_members,
  parse_member, parse_more_members,
}

-- A number of RFC 8259.
abbrev pub IsNumber : Bytes → Type 0
IsNumber n = (is_number n ≡ true) × All (λ c. is_number_char c ≡ true) n

-- Values whose strings are plain and whose numbers are numbers.
unfoldable mutual
  pub IsGood : Json → Type 0
  IsGood (string s) = All IsPlain s
  IsGood (number n) = IsNumber n
  IsGood (array vs) = AreGood vs
  IsGood (object ms) = AreGoodMembers ms

  pub AreGood : Items → Type 0
  AreGood no_items = Unit
  AreGood (item v vs) = IsGood v × AreGood vs

  pub AreGoodMembers : Members → Type 0
  AreGoodMembers no_members = Unit
  AreGoodMembers (member k v ms) = All IsPlain k × IsGood v × AreGoodMembers ms

-- The calls that it takes to read a value.
unfoldable mutual
  pub weight : Json → ℕ
  weight (string s) = 1
  weight (number n) = 1
  weight (array vs) = suc (items_weight vs)
  weight (object ms) = suc (members_weight ms)

  pub items_weight : Items → ℕ
  items_weight no_items = 1
  items_weight (item v vs) = 2 + weight v + items_weight vs

  pub members_weight : Members → ℕ
  members_weight no_members = 1
  members_weight (member k v ms) = 2 + weight v + members_weight ms

-- A text that does not go on with a number.
abbrev pub Stops : Bytes → Type 0
Stops [] = Unit
Stops (c ∷ s) = is_number_char c ≡ false

read_number-append :
    (n rest : Bytes)
    → All (λ c. is_number_char c ≡ true) n
    → Stops rest
    → read_number (n ++ rest) ≡ (n, rest)
unfolding read_number
read_number-append [] [] d st = refl
read_number-append [] (c ∷ rest) d st = rw st refl
read_number-append (c ∷ n) rest (d, ds) st = ground (arith, read_number-append n rest ds st)

start-digit : (c : ℕ) → is_number_char c ≡ true → start c ≡ digit
start-digit c h = ground arith

-- A value does not begin with a closing bracket.
expect-print : (v : Json) (rest : Bytes) → IsGood v → expect b']' (print v rest) ≡ none
unfolding expect print IsGood
expect-print (string s) rest g = refl
expect-print (number []) rest g = cc
expect-print (number (c ∷ n)) rest g = ground (arith, g.1.0)
expect-print (array vs) rest g = refl
expect-print (object ms) rest g = refl

print_more_items-Stops : (vs : Items) (rest : Bytes) → Stops (print_more_items vs rest)
unfolding print
print_more_items-Stops no_items rest = refl
print_more_items-Stops (item v vs) rest = refl

print_more_members-Stops : (ms : Members) (rest : Bytes) → Stops (print_more_members ms rest)
unfolding print
print_more_members-Stops no_members rest = refl
print_more_members-Stops (member k v ms) rest = refl

parse-digit :
    (fuel c : ℕ) (s : Bytes)
    → is_number_char c ≡ true
    → parse (suc fuel) (c ∷ s) ≡ as_number (read_number (c ∷ s))
unfolding parse
parse-digit fuel c s h = rw (start-digit c h, parse) refl

as_number-good : (n rest : Bytes) → is_number n ≡ true → as_number (n, rest) ≡ some (number n, rest)
as_number-good n rest h = rw h refl

parse_items-open :
    (fuel : ℕ) (s : Bytes) → expect b']' s ≡ none → parse_items (suc fuel) s ≡ parse_item fuel s
unfolding parse
parse_items-open fuel s h = rw (h, parse_items) refl

parse_item-value :
    (fuel : ℕ) (s rest : Bytes) (v : Json)
    → parse fuel s ≡ some (v, rest)
    → parse_item (suc fuel) s ≡ as_items v (parse_more_items fuel rest)
unfolding parse
parse_item-value fuel s rest v h = rw (h, parse_item) refl

parse_member-value :
    (fuel : ℕ) (k s rest : Bytes) (v : Json)
    → All IsPlain k
    → parse fuel s ≡ some (v, rest)
    → parse_member (suc fuel) (quoted k (b':' ∷ s)) ≡ as_members k v (parse_more_members fuel rest)
unfolding parse expect
parse_member-value fuel k s rest v g h =
    rw (read_string-json_escape k (b':' ∷ s) g, parse_member) (rw (h, parse_member) refl)

mutual
  unfolding parse print IsGood weight expect

  pub parse-print :
      (fuel : ℕ) (j : Json) (rest : Bytes)
      → IsGood j
      → weight j ≤ fuel
      → Stops rest
      → parse fuel (print j rest) ≡ some (j, rest)
  parse-print zero (string s) rest g w st = absurd (omega (arith, w))
  parse-print zero (number n) rest g w st = absurd (omega (arith, w))
  parse-print zero (array vs) rest g w st = absurd (omega (arith, w))
  parse-print zero (object ms) rest g w st = absurd (omega (arith, w))
  parse-print (suc fuel) (string s) rest g w st = ap as_string (read_string-json_escape s rest g)
  parse-print (suc fuel) (number []) rest g w st = cc
  parse-print (suc fuel) (number (c ∷ n)) rest g w st =
      parse-digit fuel c (n ++ rest) g.1.0
      ∙ ap as_number (read_number-append (c ∷ n) rest g.1 st)
      ∙ as_number-good (c ∷ n) rest g.0
  parse-print (suc fuel) (array vs) rest g w st =
      ap as_array (parse-print_items fuel vs rest g (omega (arith, w)))
  parse-print (suc fuel) (object ms) rest g w st =
      ap as_object (parse-print_members fuel ms rest g (omega (arith, w)))

  parse-print_items :
      (fuel : ℕ) (vs : Items) (rest : Bytes)
      → AreGood vs
      → items_weight vs ≤ fuel
      → parse_items fuel (print_items vs rest) ≡ some (vs, rest)
  parse-print_items zero no_items rest g w = absurd (omega (arith, w))
  parse-print_items zero (item v vs) rest g w = absurd (omega (arith, w))
  parse-print_items (suc fuel) no_items rest g w = refl
  parse-print_items (suc fuel) (item v vs) rest g w =
      parse_items-open fuel _ (expect-print v (print_more_items vs rest) g.0)
      ∙ parse-print_item fuel v vs rest g (omega (arith, w))

  parse-print_item :
      (fuel : ℕ) (v : Json) (vs : Items) (rest : Bytes)
      → AreGood (item v vs)
      → 1 + weight v + items_weight vs ≤ fuel
      → parse_item fuel (print v (print_more_items vs rest)) ≡ some (item v vs, rest)
  parse-print_item zero v vs rest g w = absurd (omega (arith, w))
  parse-print_item (suc fuel) v vs rest g w =
      parse_item-value fuel _ _ v (
        parse-print fuel v (print_more_items vs rest) g.0 (omega (arith, w))
          (print_more_items-Stops vs rest))
      ∙ ap (as_items v) (parse-print_more_items fuel vs rest g.1 (omega (arith, w)))

  parse-print_more_items :
      (fuel : ℕ) (vs : Items) (rest : Bytes)
      → AreGood vs
      → items_weight vs ≤ fuel
      → parse_more_items fuel (print_more_items vs rest) ≡ some (vs, rest)
  parse-print_more_items zero no_items rest g w = absurd (omega (arith, w))
  parse-print_more_items zero (item v vs) rest g w = absurd (omega (arith, w))
  parse-print_more_items (suc fuel) no_items rest g w = refl
  parse-print_more_items (suc fuel) (item v vs) rest g w =
      parse-print_item fuel v vs rest g (omega (arith, w))

  parse-print_members :
      (fuel : ℕ) (ms : Members) (rest : Bytes)
      → AreGoodMembers ms
      → members_weight ms ≤ fuel
      → parse_members fuel (print_members ms rest) ≡ some (ms, rest)
  parse-print_members zero no_members rest g w = absurd (omega (arith, w))
  parse-print_members zero (member k v ms) rest g w = absurd (omega (arith, w))
  parse-print_members (suc fuel) no_members rest g w = refl
  parse-print_members (suc fuel) (member k v ms) rest g w =
      parse-print_member fuel k v ms rest g (omega (arith, w))

  parse-print_member :
      (fuel : ℕ) (k : Bytes) (v : Json) (ms : Members) (rest : Bytes)
      → AreGoodMembers (member k v ms)
      → 1 + weight v + members_weight ms ≤ fuel
      → parse_member fuel (quoted k (b':' ∷ print v (print_more_members ms rest)))
        ≡ some (member k v ms, rest)
  parse-print_member zero k v ms rest g w = absurd (omega (arith, w))
  parse-print_member (suc fuel) k v ms rest g w =
      parse_member-value fuel k _ _ v g.0 (
        parse-print fuel v (print_more_members ms rest) g.1 (omega (arith, w))
          (print_more_members-Stops ms rest))
      ∙ ap (as_members k v) (parse-print_more_members fuel ms rest g.2 (omega (arith, w)))

  parse-print_more_members :
      (fuel : ℕ) (ms : Members) (rest : Bytes)
      → AreGoodMembers ms
      → members_weight ms ≤ fuel
      → parse_more_members fuel (print_more_members ms rest) ≡ some (ms, rest)
  parse-print_more_members zero no_members rest g w = absurd (omega (arith, w))
  parse-print_more_members zero (member k v ms) rest g w = absurd (omega (arith, w))
  parse-print_more_members (suc fuel) no_members rest g w = refl
  parse-print_more_members (suc fuel) (member k v ms) rest g w =
      parse-print_member fuel k v ms rest g (omega (arith, w))
