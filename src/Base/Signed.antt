-- ===== src/Base/Signed.antt =====
-- Signed numbers: int and std::int64_t as keys, and their prints behind a space.
use Prim.Native.Nat.{ℕ, suc, ◌-◌, ◌≤◌, ◌<◌, ◌^◌}
use mathlib.Core.Path.{◌≡◌, refl, ap, ◌∙◌}
use mathlib.Core.Logic.{◌≢◌, ◌↔◌}
use mathlib.Core.Bool.{Bool, true, false}
use mathlib.Core.List.{[], ◌∷◌, ◌++◌}
use native.Mathlib.Omega.{arith}
use lmonitor.Base.Tests.{◌==◌}
use lmonitor.Base.Lists.{All}
use lmonitor.Base.Outcome.{Result, ok}
use lmonitor.Base.Text.{Bytes, Eq}
use lmonitor.Base.Decimal.{
  IsDigit, value, to_string, to_string-IsDigit, to_string-ne-nil, value-to_string,
}
use lmonitor.Base.Number.{
  ℤ, pos, negsuc, NumberError, skip_spaces, split_sign, magnitude, signed_of, stoi, stoll,
  signed_to_string, EndsNumber, scan_digits-rest,
}

abbrev pub int_eq : ℤ → ℤ → Bool
int_eq (pos a) (pos b) = a == b
int_eq (negsuc a) (negsuc b) = a == b
int_eq _ _ = false

pub int_eq_iff : (a b : ℤ) → (int_eq a b ≡ true) ↔ (a ≡ b)
int_eq_iff (pos a) (pos b) = ground arith
int_eq_iff (pos a) (negsuc b) = ground arith
int_eq_iff (negsuc a) (pos b) = ground arith
int_eq_iff (negsuc a) (negsuc b) = ground arith

instance abbrev pub int_key : Eq ℤ
int_key = record { beq = int_eq; beq_iff = int_eq_iff }

-- A value of the signed type with this bound.
abbrev pub IsSigned : ℕ → ℤ → Type 0
IsSigned bound (pos n) = n < bound
IsSigned bound (negsuc n) = n < bound

-- `stoi` and `stoll`, for the bound of the type.
abbrev sto : ℕ → Bytes → Result NumberError (ℤ × Bytes)
sto bound s =
    let (negative, t) = split_sign (skip_spaces s) in signed_of bound negative (magnitude t)

sto_word :
    (bound : ℕ) (s rest : Bytes)
    → s ≢ []
    → All IsDigit s
    → value 0 s < bound
    → EndsNumber rest
    → sto bound (b' ' ∷ (s ++ rest)) ≡ ok (pos (value 0 s), rest)
unfolding skip_spaces
sto_word bound [] rest ne h fits e = absurd (ne refl)
sto_word bound (c ∷ s) rest ne h fits e = ground (arith, scan_digits-rest 0 (c ∷ s) rest h e)

sto_minus :
    (bound : ℕ) (s rest : Bytes)
    → s ≢ []
    → All IsDigit s
    → 0 < value 0 s
    → value 0 s ≤ bound
    → EndsNumber rest
    → sto bound (b' ' ∷ b'-' ∷ (s ++ rest)) ≡ ok (negsuc (value 0 s - 1), rest)
unfolding skip_spaces
sto_minus bound [] rest ne h up fits e = absurd (ne refl)
sto_minus bound (c ∷ s) rest ne h up fits e = ground (arith, scan_digits-rest 0 (c ∷ s) rest h e)

sto-space :
    (bound : ℕ) (z : ℤ) (rest : Bytes)
    → IsSigned bound z
    → EndsNumber rest
    → sto bound (b' ' ∷ (signed_to_string z ++ rest)) ≡ ok (z, rest)
unfolding signed_to_string
sto-space bound (pos n) rest h e =
    sto_word bound (to_string n) rest (to_string-ne-nil n) (to_string-IsDigit n)
      (rw (value-to_string n) h) e
    ∙ ap (λ v. ok (pos v, rest)) (value-to_string n)
sto-space bound (negsuc n) rest h e =
    sto_minus bound (to_string (suc n)) rest (to_string-ne-nil (suc n)) (to_string-IsDigit (suc n))
      (rw (value-to_string (suc n)) (omega arith)) (rw (value-to_string (suc n)) (omega arith)) e
    ∙ ap (λ v. ok (negsuc (v - 1), rest)) (value-to_string (suc n))
    ∙ ap (λ v. ok (negsuc v, rest)) (omega arith)

-- A signed number behind a space, with text behind it.
pub stoi-space :
    (z : ℤ) (rest : Bytes)
    → IsSigned (2 ^ 31) z
    → EndsNumber rest
    → stoi (b' ' ∷ (signed_to_string z ++ rest)) ≡ ok (z, rest)
unfolding stoi
stoi-space z rest h e = sto-space (2 ^ 31) z rest h e

pub stoll-space :
    (z : ℤ) (rest : Bytes)
    → IsSigned (2 ^ 63) z
    → EndsNumber rest
    → stoll (b' ' ∷ (signed_to_string z ++ rest)) ≡ ok (z, rest)
unfolding stoll
stoll-space z rest h e = sto-space (2 ^ 63) z rest h e
