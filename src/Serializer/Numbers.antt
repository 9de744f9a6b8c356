-- ===== src/Serializer/Numbers.antt =====
-- The number parsers of src/serializer/MetricsDeserializer.cpp, and the errors that it throws.
use lmonitor.Base.{
  ℕ, ◌^◌, ◌-◌, ◌<◌, ◌≡◌, refl, Bool, false, ◌∷◌, Result, ok, err, ◌>>=◌, arith, leb, ltb,
  if◌then◌else◌, is_empty, is_empty_no,
}
use lmonitor.Base.Text.{Bytes}
use lmonitor.Base.Decimal.{to_string, to_string-ne-nil}
use lmonitor.Base.Number.{
  ℤ, pos, negsuc, NumberError, stoull, stoll, stoull-to_string, stoull_negative, stoll-to_string,
}
use lmonitor.Float.{Float}

-- The std::runtime_errors, with the field or the line that they name.
pub data ParseError : Type 0 where
  empty_payload no_version malformed_process negative_pid empty_process_name empty_name : ParseError
  unsupported_version malformed_line : Bytes → ParseError
  empty_field invalid_number trailing_characters too_large out_of_range not_finite :
      Bytes → ParseError
  duplicate_field missing_field unknown_field empty_value not_positive : Bytes → ParseError
  no_process_count : ParseError
  count_mismatch : ℕ → ℕ → ParseError

-- The checks behind a conversion: that it succeeded, and that it read the whole text.
abbrev whole_of {ℓ} : {A : Type ℓ} → Bytes → Result NumberError (A × Bytes) → Result ParseError A
whole_of field (err e) = err (invalid_number field)
whole_of field (ok (v, rest)) = if is_empty rest then ok v else err (trailing_characters field)

unfoldable pub parse_uint64 : Bytes → Bytes → Result ParseError ℕ
parse_uint64 value field =
    if is_empty value then err (empty_field field) else whole_of field (stoull value)

unfoldable pub parse_size : Bytes → Bytes → Result ParseError ℕ
parse_size value field =
    parse_uint64 value field >>= λ v. if ltb (2 ^ 64 - 1) v then err (too_large field) else ok v

-- `v < INT_MIN || v > INT_MAX`
abbrev int_overflows : ℤ → Bool
int_overflows (pos n) = ltb (2 ^ 31 - 1) n
int_overflows (negsuc n) = leb (2 ^ 31) n

unfoldable pub parse_int : Bytes → Bytes → Result ParseError ℤ
parse_int value field =
    if is_empty value
    then err (empty_field field)
    else whole_of field (stoll value) >>= λ v.
        if int_overflows v then err (out_of_range field) else ok v

unfoldable pub parse_double : {D : Type 0} → Float D → Bytes → Bytes → Result ParseError D
parse_double F value field =
    if is_empty value
    then err (empty_field field)
    else whole_of field (F.stod value) >>= λ v.
        if F.is_finite v then ok v else err (not_finite field)

to_string-is_empty : (n : ℕ) → is_empty (to_string n) ≡ false
to_string-is_empty n = is_empty_no (to_string n) (to_string-ne-nil n)

pub parse_uint64-to_string :
    (n : ℕ) (field : Bytes) → n < 2 ^ 64 → parse_uint64 (to_string n) field ≡ ok n
unfolding parse_uint64
parse_uint64-to_string n field h = rw (to_string-is_empty n, stoull-to_string n h) refl

pub parse_size-to_string :
    (n : ℕ) (field : Bytes) → n < 2 ^ 64 → parse_size (to_string n) field ≡ ok n
unfolding parse_size
parse_size-to_string n field h = ground (arith, parse_uint64-to_string n field h)

pub parse_int-to_string :
    (n : ℕ) (field : Bytes) → n < 2 ^ 31 → parse_int (to_string n) field ≡ ok (pos n)
unfolding parse_int
parse_int-to_string n field h =
    rw (to_string-is_empty n, stoll-to_string n (omega arith)) (ground arith)

-- A negative number in an unsigned field is taken, as its complement to 2 ^ 64.
pub parse_uint64_negative :
    (n : ℕ) (field : Bytes)
    → 0 < n
    → n < 2 ^ 64
    → parse_uint64 (b'-' ∷ to_string n) field ≡ ok (2 ^ 64 - n)
unfolding parse_uint64
parse_uint64_negative n field up h = rw (stoull_negative n up h) refl
