-- ===== src/Config.antt =====
-- include/config/Config.h and src/config/Config.cpp. The file's content is an argument of `load`.
pub mod Sections
pub mod Tests
use lmonitor.Base.{
  ℕ, ◌-◌, Bool, true, false, ◌&&◌, List, [], ◌∷◌, ◌++◌, Option, none, some, Result, ok, err, ◌==◌,
  if◌then◌else◌, length, take, drop, is_empty,
}
use lmonitor.Base.Text.{Bytes, codes, bytes_key}
use lmonitor.Base.Map.{Map, lookup, insert}
use lmonitor.Base.Lines.{lines, cut, ends}
use lmonitor.Base.Number.{ℤ, NumberError, stoi}

pub record Config : Type 0 where
  pub values : Map Bytes Bytes

-- `line[0] == c` of a line that is not empty
abbrev pub starts : ℕ → Bytes → Bool
starts c [] = false
starts c (x ∷ s) = x == c

abbrev pub is_skipped : Bytes → Bool
is_skipped line = if is_empty line then true else starts b'#' line

abbrev pub is_header : Bytes → Bool
is_header line = starts b'[' line && ends b']' line

-- `line.substr(1, line.size() - 2)`
abbrev pub section_name : Bytes → Bytes
section_name line = take (length line - 2) (drop 1 line)

abbrev pub full_key : Bytes → Bytes → Bytes
full_key section key = if is_empty section then key else section ++ (codes "." ++ key)

-- The variables of the loop.
pub record Loading : Type 0 where
  pub current_section : Bytes
  pub loaded : Map Bytes Bytes

abbrev store_entry : Loading → Option (Bytes × Bytes) → Loading
store_entry st none = st
store_entry st (some (key, val)) = record st {
  loaded = insert (full_key st.current_section key) val st.loaded;
}

-- One round of the loop over the lines.
unfoldable pub load_line : Loading → Bytes → Loading
load_line st line =
    if is_skipped line
    then st
    else if is_header line
    then record st { current_section = section_name line }
    else store_entry st (cut b'=' line)

unfoldable pub load_lines : Loading → List Bytes → Loading
load_lines st [] = st
load_lines st (l ∷ ls) = load_lines (load_line st l) ls

abbrev pub initial : Loading
initial = record { current_section = []; loaded = [] }

-- `none` is a file that cannot be opened; the values stay as they were then.
unfoldable pub load : Option Bytes → Config → Bool × Config
load none c = (false, c)
load (some text) c = (true, record c { values = (load_lines initial (lines text)).loaded })

abbrev or_default : Bytes → Option Bytes → Bytes
or_default d none = d
or_default d (some v) = v

unfoldable pub get : Bytes → Bytes → Config → Bytes
get key default_value c = or_default default_value (lookup key c.values)

-- `std::stoi` ignores what stands behind the digits.
abbrev value_of {ℓ} : {A : Type ℓ} → Result NumberError (A × Bytes) → Result NumberError A
value_of (ok (v, rest)) = ok v
value_of (err e) = err e

unfoldable pub get_int : Bytes → ℤ → Config → Result NumberError ℤ
unfolding get
get_int key default_value c =
    let v = get key [] c in if is_empty v then ok default_value else value_of (stoi v)

-- The conversion to double, std::stod, is the argument `stod`.
unfoldable pub get_double :
    {D : Type 0}
    → (Bytes → Result NumberError (D × Bytes))
    → Bytes
    → D
    → Config
    → Result NumberError D
unfolding get
get_double stod key default_value c =
    let v = get key [] c in if is_empty v then ok default_value else value_of (stod v)
