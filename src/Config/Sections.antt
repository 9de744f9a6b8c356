-- ===== src/Config/Sections.antt =====
-- `Config::load`, src/config/Config.cpp, on files whose keys stand behind section headers.
use lmonitor.Base.{
  ◌≡◌, refl, sym, ap, subst, ◌∙◌, ◌≢◌, inl, inr, true, false, List, [], ◌∷◌, ◌++◌, Option, none,
  some, arith, Result, ok, Bool-cases, All,
}
use lmonitor.Base.Text.{Bytes, codes, bytes_eq_iff, bytes_key}
use lmonitor.Base.Map.{lookup, lookup-insert}
use lmonitor.Base.Lines.{lines, cut, has, has-append}
use lmonitor.Base.Number.{ℤ, NumberError}
use lmonitor.Config.{
  Config, Loading, is_skipped, is_header, section_name, full_key, store_entry, load_line,
  load_lines, initial, load, get, get_int, get_double,
}

-- Every header has a name.
abbrev pub IsNamed : Bytes → Type 0
IsNamed line = is_header line ≡ true → section_name line ≢ []

-- The lines are blank lines and comments, then a header with a name, then lines whose headers have
-- names.
pub record IsSectioned (ls : List Bytes) : Type 0 where
  pub preamble : List Bytes
  pub header : Bytes
  pub body : List Bytes
  pub parts : ls ≡ preamble ++ header ∷ body
  pub skipped : All (λ l. is_skipped l ≡ true) preamble
  pub is_first : (is_skipped header ≡ false) × (is_header header ≡ true)
  pub named : section_name header ≢ []
  pub all_named : All IsNamed body

-- Inside a section, and with no stored key that lacks a dot.
abbrev IsInside : Loading → Type 0
IsInside st =
    (st.current_section ≢ []) × ((key : Bytes) → has b'.' key ≡ false → lookup key st.loaded ≡ none)

full_key-has : (section key : Bytes) → section ≢ [] → has b'.' (full_key section key) ≡ true
unfolding has
full_key-has [] key ne = absurd (ne refl)
full_key-has (c ∷ s) key ne = ground (arith, has-append b'.' s (codes "." ++ key))

store_entry-IsInside :
    (st : Loading) (e : Option (Bytes × Bytes)) → IsInside st → IsInside (store_entry st e)
store_entry-IsInside st none h = h
store_entry-IsInside st (some (key, val)) (inside, free) = (
  inside,
  λ k plain.
      let stored = full_key st.current_section key in
      lookup-insert stored k val st.loaded
      ∙ ground
          (arith, bytes_eq_iff stored k, full_key-has st.current_section key inside, free k plain),
)

skipped_line : (st : Loading) (l : Bytes) → is_skipped l ≡ true → load_line st l ≡ st
unfolding load_line
skipped_line st l e = ground arith

header_line :
    (st : Loading) (l : Bytes)
    → is_skipped l ≡ false
    → is_header l ≡ true
    → load_line st l ≡ record st { current_section = section_name l }
unfolding load_line
header_line st l e f = ground arith

entry_line :
    (st : Loading) (l : Bytes)
    → is_skipped l ≡ false
    → is_header l ≡ false
    → load_line st l ≡ store_entry st (cut b'=' l)
unfolding load_line
entry_line st l e f = ground arith

load_line-IsInside :
    (st : Loading) (l : Bytes) → IsNamed l → IsInside st → IsInside (load_line st l)
load_line-IsInside st l n h = elim (Bool-cases (is_skipped l)) [
  | inl skip ↦ subst IsInside (sym (skipped_line st l skip)) h
  | inr other ↦ elim (Bool-cases (is_header l)) [
    | inl head ↦ subst IsInside (sym (header_line st l other head)) (n head, h.1)
    | inr plain ↦
        subst IsInside (sym (entry_line st l other plain)) (store_entry-IsInside st (cut b'=' l) h)
  ]
]

load_lines-IsInside :
    (ls : List Bytes) (st : Loading) → All IsNamed ls → IsInside st → IsInside (load_lines st ls)
unfolding load_lines
load_lines-IsInside [] st n h = h
load_lines-IsInside (l ∷ ls) st n h =
    load_lines-IsInside ls (load_line st l) n.1 (load_line-IsInside st l n.0 h)

load_lines-skipped :
    (pre ls : List Bytes) (st : Loading)
    → All (λ l. is_skipped l ≡ true) pre
    → load_lines st (pre ++ ls) ≡ load_lines st ls
unfolding load_lines
load_lines-skipped [] ls st h = refl
load_lines-skipped (l ∷ pre) ls st h =
    ap (λ t. load_lines t (pre ++ ls)) (skipped_line st l h.0) ∙ load_lines-skipped pre ls st h.1

load_lines-IsSectioned : (ls : List Bytes) → IsSectioned ls → IsInside (load_lines initial ls)
load_lines-IsSectioned ls s =
    subst (λ t. IsInside (load_lines initial t)) (sym s.parts)
      (subst IsInside (sym (load_lines-skipped s.preamble (s.header ∷ s.body) initial s.skipped)) (
        unfold load_lines in
        (load_lines-IsInside s.body (load_line initial s.header) s.all_named (
          subst IsInside (sym (header_line initial s.header s.is_first.0 s.is_first.1))
            (s.named, λ k e. unfold lookup in refl)))))

-- A file of sections gives no value to a key with no dot: `get`, `getInt` and `getDouble` return
-- their defaults.
pub get-sectioned :
    {D : Type 0} (stod : Bytes → Result NumberError (D × Bytes)) (text key : Bytes) (c : Config)
    → IsSectioned (lines text)
    → has b'.' key ≡ false
    → ((d : Bytes) → get key d (load (some text) c).1 ≡ d)
      × ((d : ℤ) → get_int key d (load (some text) c).1 ≡ ok d)
      × ((d : D) → get_double stod key d (load (some text) c).1 ≡ ok d)
unfolding get get_int get_double load
get-sectioned stod text key c s plain =
    let absent = (load_lines-IsSectioned (lines text) s).1 key plain in
    (λ d. ground (arith, absent), λ d. ground (arith, absent), λ d. ground (arith, absent))
