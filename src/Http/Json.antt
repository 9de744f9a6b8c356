-- ===== src/Http/Json.antt =====
-- `HttpServer::jsonEscape` of src/http/HttpServer.cpp, and JSON texts as a browser reads them.
pub mod Escape
pub mod Parser
pub mod RoundTrip
use lmonitor.Base.{ℕ, List, [], ◌∷◌, ◌++◌, ◌==◌, if◌then◌else◌}
use lmonitor.Base.Text.{Bytes, codes}

-- `jsonEscape` for one character
abbrev pub escaped : ℕ → Bytes
escaped c =
    if c == b'\\'
    then b'\\' ∷ b'\\' ∷ []
    else if c == b'"'
    then b'\\' ∷ b'"' ∷ []
    else if c == b'\n'
    then b'\\' ∷ b'n' ∷ []
    else if c == b'\r'
    then b'\\' ∷ b'r' ∷ []
    else if c == b'\t'
    then b'\\' ∷ b't' ∷ []
    else c ∷ []

unfoldable pub json_escape : Bytes → Bytes
json_escape [] = []
json_escape (c ∷ value) = escaped c ++ json_escape value

mutual
  pub data Json : Type 0 where
    string number : Bytes → Json
    array : Items → Json
    object : Members → Json

  pub data Items : Type 0 where
    no_items : Items
    item : Json → Items → Items

  pub data Members : Type 0 where
    no_members : Members
    member : Bytes → Json → Members → Members

abbrev pub quoted : Bytes → Bytes → Bytes
quoted s rest = b'"' ∷ (json_escape s ++ b'"' ∷ rest)

-- A value as text, and what is written behind it.
unfoldable mutual
  pub print : Json → Bytes → Bytes
  print (string s) rest = quoted s rest
  print (number n) rest = n ++ rest
  print (array vs) rest = b'[' ∷ print_items vs rest
  print (object ms) rest = b'{' ∷ print_members ms rest

  pub print_items : Items → Bytes → Bytes
  print_items no_items rest = b']' ∷ rest
  print_items (item v vs) rest = print v (print_more_items vs rest)

  pub print_more_items : Items → Bytes → Bytes
  print_more_items no_items rest = b']' ∷ rest
  print_more_items (item v vs) rest = b',' ∷ print v (print_more_items vs rest)

  pub print_members : Members → Bytes → Bytes
  print_members no_members rest = b'}' ∷ rest
  print_members (member k v ms) rest = quoted k (b':' ∷ print v (print_more_members ms rest))

  pub print_more_members : Members → Bytes → Bytes
  print_more_members no_members rest = b'}' ∷ rest
  print_more_members (member k v ms) rest =
      b',' ∷ quoted k (b':' ∷ print v (print_more_members ms rest))
