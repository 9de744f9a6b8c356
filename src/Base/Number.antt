-- ===== src/Base/Number.antt =====
-- std::stoull, std::stoll and std::stoi in base ten. Each returns its value with the text behind
-- the last character that it read, so that `parsedCharacters == value.size()` is an empty rest.
use Prim.Native.Nat.{ℕ, zero, suc, ◌+◌, ◌-◌, ◌*◌, ◌%◌, ◌^◌, ◌<◌}
use mathlib.Core.Path.{◌≡◌, refl, ap, ◌∙◌}
use mathlib.Core.Logic.{◌≢◌}
use mathlib.Core.Bool.{Bool, true, false, ◌&&◌, ◌||◌}
use mathlib.Core.List.{[], ◌∷◌, ◌++◌}
use native.Mathlib.Omega.{arith}
use lmonitor.Base.Tests.{ltb, leb, ◌==◌, if◌then◌else◌}
use lmonitor.Base.Lists.{All}
use lmonitor.Base.Outcome.{Result, ok, err}
use lmonitor.Base.Text.{Bytes}
use lmonitor.Base.Decimal.{
  IsDigit, value, to_string, to_string-IsDigit, to_string-ne-nil, value-to_string,
}

-- `negsuc n` is -(n + 1).
pub data ℤ : Type 0 where
  pos : ℕ → ℤ
  negsuc : ℕ → ℤ

pub data NumberError : Type 0 where
  invalid_argument out_of_range : NumberError

-- `isspace` in the C locale
abbrev pub is_space : ℕ → Bool
is_space c = c == b' ' || (leb 9 c && leb c 13)

abbrev pub is_digit : ℕ → Bool
is_digit c = leb b'0' c && leb c b'9'

unfoldable pub skip_spaces : Bytes → Bytes
skip_spaces [] = []
skip_spaces (c ∷ s) = if is_space c then skip_spaces s else c ∷ s

-- Whether the number is negative, and the text behind an optional sign.
abbrev pub split_sign : Bytes → Bool × Bytes
split_sign [] = (false, [])
split_sign (c ∷ s) =
    if c == b'-' then (true, s) else if c == b'+' then (false, s) else (false, c ∷ s)

unfoldable pub scan_digits : ℕ → Bytes → ℕ × Bytes
scan_digits n [] = (n, [])
scan_digits n (c ∷ s) = if is_digit c then scan_digits (n * 10 + (c - b'0')) s else (n, c ∷ s)

-- The digits behind the sign: there must be one.
abbrev pub magnitude : Bytes → Result NumberError (ℕ × Bytes)
magnitude [] = err invalid_argument
magnitude (c ∷ s) = if is_digit c then ok (scan_digits 0 (c ∷ s)) else err invalid_argument

abbrev ull_of : Bool → Result NumberError (ℕ × Bytes) → Result NumberError (ℕ × Bytes)
ull_of negative (err e) = err e
ull_of negative (ok (n, rest)) =
    if leb (2 ^ 64) n
    then err out_of_range
    else ok (if negative then (2 ^ 64 - n) % 2 ^ 64 else n, rest)

-- A minus sign is taken: the value is negated in the unsigned type.
unfoldable pub stoull : Bytes → Result NumberError (ℕ × Bytes)
stoull s = let (negative, t) = split_sign (skip_spaces s) in ull_of negative (magnitude t)

-- A signed result of `bits` bits.
abbrev pub signed_of : ℕ → Bool → Result NumberError (ℕ × Bytes) → Result NumberError (ℤ × Bytes)
signed_of bound negative (err e) = err e
signed_of bound false (ok (n, rest)) = if leb bound n then err out_of_range else ok (pos n, rest)
signed_of bound true (ok (n, rest)) =
    if ltb bound n then err out_of_range else ok (if n == 0 then pos 0 else negsuc (n - 1), rest)

unfoldable pub stoll : Bytes → Result NumberError (ℤ × Bytes)
stoll s =
    let (negative, t) = split_sign (skip_spaces s) in signed_of (2 ^ 63) negative (magnitude t)

unfoldable pub stoi : Bytes → Result NumberError (ℤ × Bytes)
stoi s = let (negative, t) = split_sign (skip_spaces s) in signed_of (2 ^ 31) negative (magnitude t)

scan_digits-value : (n : ℕ) (s : Bytes) → All IsDigit s → scan_digits n s ≡ (value n s, [])
unfolding scan_digits value
scan_digits-value n [] h = refl
scan_digits-value n (c ∷ s) h = ground (arith, scan_digits-value (n * 10 + (c - b'0')) s h.1)

stoull_digits :
    (s : Bytes) → s ≢ [] → All IsDigit s → value 0 s < 2 ^ 64 → stoull s ≡ ok (value 0 s, [])
unfolding stoull skip_spaces
stoull_digits [] ne h fits = absurd (ne refl)
stoull_digits (c ∷ s) ne h fits = ground (arith, scan_digits-value 0 (c ∷ s) h)

-- The decimal print of an unsigned 64-bit number is read back whole.
pub stoull-to_string : (n : ℕ) → n < 2 ^ 64 → stoull (to_string n) ≡ ok (n, [])
stoull-to_string n h =
    stoull_digits (to_string n) (to_string-ne-nil n) (to_string-IsDigit n)
      (rw (value-to_string n) h)
    ∙ ap (λ v. ok (v, [])) (value-to_string n)

-- The print of a signed number.
unfoldable pub signed_to_string : ℤ → Bytes
signed_to_string (pos n) = to_string n
signed_to_string (negsuc n) = b'-' ∷ to_string (suc n)

stoll_digits :
    (s : Bytes) → s ≢ [] → All IsDigit s → value 0 s < 2 ^ 63 → stoll s ≡ ok (pos (value 0 s), [])
unfolding stoll skip_spaces
stoll_digits [] ne h fits = absurd (ne refl)
stoll_digits (c ∷ s) ne h fits = ground (arith, scan_digits-value 0 (c ∷ s) h)

pub stoll-to_string : (n : ℕ) → n < 2 ^ 63 → stoll (to_string n) ≡ ok (pos n, [])
stoll-to_string n h =
    stoll_digits (to_string n) (to_string-ne-nil n) (to_string-IsDigit n) (rw (value-to_string n) h)
    ∙ ap (λ v. ok (pos v, [])) (value-to_string n)

stoull_minus :
    (s : Bytes)
    → s ≢ []
    → All IsDigit s
    → 0 < value 0 s
    → value 0 s < 2 ^ 64
    → stoull (b'-' ∷ s) ≡ ok (2 ^ 64 - value 0 s, [])
unfolding stoull skip_spaces
stoull_minus [] ne h up fits = absurd (ne refl)
stoull_minus (c ∷ s) ne h up fits = ground (arith, scan_digits-value 0 (c ∷ s) h)

pub stoull_negative :
    (n : ℕ) → 0 < n → n < 2 ^ 64 → stoull (b'-' ∷ to_string n) ≡ ok (2 ^ 64 - n, [])
stoull_negative n up h =
    stoull_minus (to_string n) (to_string-ne-nil n) (to_string-IsDigit n)
      (rw (value-to_string n) up) (rw (value-to_string n) h)
    ∙ ap (λ v. ok (2 ^ 64 - v, [])) (value-to_string n)

-- A text that does not go on with a digit.
abbrev pub EndsNumber : Bytes → Type 0
EndsNumber [] = Unit
EndsNumber (c ∷ s) = is_digit c ≡ false

pub scan_digits-rest :
    (n : ℕ) (s rest : Bytes)
    → All IsDigit s
    → EndsNumber rest
    → scan_digits n (s ++ rest) ≡ (value n s, rest)
unfolding scan_digits value
scan_digits-rest n [] [] h e = refl
scan_digits-rest n [] (c ∷ rest) h e = rw e refl
scan_digits-rest n (c ∷ s) rest h e =
    ground (arith, scan_digits-rest (n * 10 + (c - b'0')) s rest h.1 e)

stoull_word :
    (s rest : Bytes)
    → s ≢ []
    → All IsDigit s
    → value 0 s < 2 ^ 64
    → EndsNumber rest
    → stoull (b' ' ∷ (s ++ rest)) ≡ ok (value 0 s, rest)
unfolding stoull skip_spaces
stoull_word [] rest ne h fits e = absurd (ne refl)
stoull_word (c ∷ s) rest ne h fits e = ground (arith, scan_digits-rest 0 (c ∷ s) rest h e)

-- A number behind a space, with text behind it.
pub stoull-space :
    (n : ℕ) (rest : Bytes)
    → n < 2 ^ 64
    → EndsNumber rest
    → stoull (b' ' ∷ (to_string n ++ rest)) ≡ ok (n, rest)
stoull-space n rest h e =
    stoull_word (to_string n) rest (to_string-ne-nil n) (to_string-IsDigit n)
      (rw (value-to_string n) h) e
    ∙ ap (λ v. ok (v, rest)) (value-to_string n)

-- A number of blanks in front of a text.
abbrev pub blanks : ℕ → Bytes → Bytes
blanks zero s = s
blanks (suc n) s = b' ' ∷ blanks n s

skip_spaces-blanks : (n : ℕ) (s : Bytes) → skip_spaces (blanks n s) ≡ skip_spaces s
unfolding skip_spaces
skip_spaces-blanks zero s = refl
skip_spaces-blanks (suc n) s = skip_spaces-blanks n s

pub stoull-blanks : (n : ℕ) (s : Bytes) → stoull (b' ' ∷ blanks n s) ≡ stoull (b' ' ∷ s)
unfolding stoull skip_spaces
stoull-blanks n s = rw (skip_spaces-blanks n s, stoull)
