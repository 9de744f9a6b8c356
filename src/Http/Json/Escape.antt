-- ===== src/Http/Json/Escape.antt =====
-- `HttpServer::jsonEscape` of src/http/HttpServer.cpp, and a reader of JSON strings.
use lmonitor.Base.{
  append_assoc, ap, ◌∙◌, ℕ, ◌≡◌, refl, Bool, false, not, ◌&&◌, [], ◌∷◌, ◌++◌, Option, none, some,
  arith, if◌then◌else◌, ltb, ◌==◌, All,
}
use lmonitor.Base.Text.{Bytes}
use lmonitor.Http.Json.{json_escape, escaped}

abbrev cons_read : ℕ → Option (Bytes × Bytes) → Option (Bytes × Bytes)
cons_read c none = none
cons_read c (some (s, rest)) = some (c ∷ s, rest)

-- The escapes of RFC 8259 with one letter; a reader of server texts meets no other.
abbrev unescaped : ℕ → Option ℕ
unescaped c =
    if c == b'"'
    then some b'"'
    else if c == b'\\'
    then some b'\\'
    else if c == b'/'
    then some b'/'
    else if c == b'b'
    then some 8
    else if c == b'f'
    then some 12
    else if c == b'n'
    then some b'\n'
    else if c == b'r'
    then some b'\r'
    else if c == b't'
    then some b'\t'
    else none

abbrev cons_unescaped : Option ℕ → Option (Bytes × Bytes) → Option (Bytes × Bytes)
cons_unescaped none r = none
cons_unescaped (some c) r = cons_read c r

-- The string up to its closing quote, and the text behind it, with a flag for the character behind
-- a backslash. As RFC 8259 says, a character below 32 does not stand for itself.
unfoldable pub read_string : Bool → Bytes → Option (Bytes × Bytes)
read_string after_backslash [] = none
read_string after_backslash (c ∷ s) =
    let rest = read_string (not after_backslash && c == b'\\') s in
    if after_backslash
    then cons_unescaped (unescaped c) rest
    else if c == b'"'
    then some ([], s)
    else if c == b'\\'
    then rest
    else if ltb c 32
    then none
    else cons_read c rest

-- A character that stands for itself, or that `jsonEscape` escapes.
abbrev pub IsPlain : ℕ → Type 0
IsPlain c = (ltb c 32 && not (c == b'\n') && not (c == b'\r') && not (c == b'\t')) ≡ false

read_string-escaped :
    (c : ℕ) (t : Bytes)
    → IsPlain c
    → read_string false (escaped c ++ t) ≡ cons_read c (read_string false t)
unfolding read_string
read_string-escaped c t p = ground arith

-- Read back, an escaped string is the string, if it has no control character but the line ends and
-- the tab.
pub read_string-json_escape :
    (s rest : Bytes)
    → All IsPlain s
    → read_string false (json_escape s ++ b'"' ∷ rest) ≡ some (s, rest)
unfolding read_string json_escape
read_string-json_escape [] rest p = refl
read_string-json_escape (c ∷ s) rest (p, ps) =
    ap (read_string false) (append_assoc (escaped c) (json_escape s) (b'"' ∷ rest))
    ∙ read_string-escaped c (json_escape s ++ b'"' ∷ rest) p
    ∙ ap (cons_read c) (read_string-json_escape s rest ps)
