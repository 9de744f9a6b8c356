-- ===== src/Base/Decimal.antt =====
-- std::to_string of an unsigned number, and the number that decimal digits spell.
use Prim.Native.Nat.{ℕ, zero, suc, ◌+◌, ◌-◌, ◌*◌, ◌/◌, ◌%◌, ◌≤◌, ◌<◌}
use mathlib.Core.Path.{◌≡◌, refl}
use mathlib.Core.Logic.{◌≢◌, inl, inr}
use mathlib.Core.Bool.{true, false}
use mathlib.Core.List.{[], ◌∷◌, ◌++◌, concat-ne-nil}
use native.Mathlib.Omega.{arith}
use native.Mathlib.Decide.{dec_lt}
use lmonitor.Base.Tests.{ltb, Bool-cases}
use lmonitor.Base.Lists.{All, All-append}
use lmonitor.Base.Text.{Bytes}

-- The digits of `n`, as far as the fuel goes: each round takes the last one off.
digits : ℕ → ℕ → Bytes
digits zero n = []
digits (suc fuel) n = elim (ltb n 10) [
  | true ↦ (b'0' + n) ∷ []
  | false ↦ digits fuel (n / 10) ++ (b'0' + n % 10) ∷ []
]

unfoldable pub to_string : ℕ → Bytes
unfolding digits
to_string n = digits (suc n) n

abbrev pub IsDigit : ℕ → Type 0
IsDigit c = (b'0' ≤ c) × (c ≤ b'9')

-- The number that digits spell behind `n`.
unfoldable pub value : ℕ → Bytes → ℕ
value n [] = n
value n (c ∷ s) = value (n * 10 + (c - b'0')) s

value-append : (n : ℕ) (s : Bytes) (c : ℕ) → value n (s ++ c ∷ []) ≡ value n s * 10 + (c - b'0')
unfolding value
value-append n [] c = refl
value-append n (x ∷ s) c = value-append (n * 10 + (x - b'0')) s c

value-digits : (fuel n : ℕ) → n < fuel → value 0 (digits fuel n) ≡ n
unfolding digits value
value-digits zero n h = absurd (omega arith)
value-digits (suc fuel) n h = elim (Bool-cases (ltb n 10)) [
  | inl small ↦ ground arith
  | inr big ↦
      ground
        (arith, value-append 0 (digits fuel (n / 10)) (b'0' + n % 10), value-digits fuel (n / 10))
]

-- The decimal print of a number spells it.
pub value-to_string : (n : ℕ) → value 0 (to_string n) ≡ n
unfolding to_string
value-to_string n = value-digits (suc n) n (omega arith)

digits_small : (fuel n : ℕ) → n < 10 → digits (suc fuel) n ≡ (b'0' + n) ∷ []
unfolding digits
digits_small fuel n h = ground arith

digits_big :
    (fuel n : ℕ) → 10 ≤ n → digits (suc fuel) n ≡ digits fuel (n / 10) ++ (b'0' + n % 10) ∷ []
unfolding digits
digits_big fuel n h = ground arith

digits-IsDigit : (fuel n : ℕ) → All IsDigit (digits fuel n)
digits-IsDigit zero n = unfold digits in tt
digits-IsDigit (suc fuel) n = elim (dec_lt n 10) [
  | yes small ↦ rw (digits_small fuel n small) (omega arith)
  | no big ↦
      rw (digits_big fuel n (omega arith))
        (All-append IsDigit (digits fuel (n / 10)) _ (digits-IsDigit fuel (n / 10)) (omega arith))
]

pub to_string-IsDigit : (n : ℕ) → All IsDigit (to_string n)
unfolding to_string
to_string-IsDigit n = digits-IsDigit (suc n) n

pub to_string-ne-nil : (n : ℕ) → to_string n ≢ []
unfolding to_string
to_string-ne-nil n = elim (dec_lt n 10) [
  | yes small ↦ rw (digits_small n n small) (cc)
  | no big ↦ rw (digits_big n n (omega arith)) (concat-ne-nil _ _)
]

digits_leading :
    (fuel n : ℕ) → 0 < n → n < fuel → (c : ℕ) × (s : Bytes) × (digits fuel n ≡ c ∷ s) × (b'0' < c)
digits_leading zero n p h = absurd (omega arith)
digits_leading (suc fuel) n p h = elim (dec_lt n 10) [
  | yes small ↦ (b'0' + n, [], digits_small fuel n small, omega arith)
  | no big ↦
      let (c, s, e, first) = digits_leading fuel (n / 10) (omega arith) (omega arith) in
      (c, s ++ (b'0' + n % 10) ∷ [], rw (digits_big fuel n (omega arith)) (rw e refl), first)
]

-- The print of a number that is not zero begins with another digit than zero.
pub to_string_leading : (n : ℕ) → 0 < n → (c : ℕ) × (s : Bytes) × (to_string n ≡ c ∷ s) × (b'0' < c)
unfolding to_string
to_string_leading n p = digits_leading (suc n) n p (omega arith)

pub to_string-zero : to_string 0 ≡ b'0' ∷ []
unfolding to_string
to_string-zero = refl
