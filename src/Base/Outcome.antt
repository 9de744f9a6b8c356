-- ===== src/Base/Outcome.antt =====
-- A call that may throw: the value that it returns, or the error that leaves it.
use mathlib.Core.Path.{◌≡◌, refl}
use mathlib.Core.Logic.{◌⊎◌, inl, inr}

pub data Result {ℓ κ} (Error : Type ℓ) (Value : Type κ) : Type (ℓ ⊔ κ) where
  err : Error → Result Error Value
  ok : Value → Result Error Value

-- Statements in sequence: an error leaves the rest out.
infixl 5 ◌>>=◌
abbrev pub ◌>>=◌ {ε α β} :
    {Error : Type ε} {Value : Type α} {Next : Type β}
    → Result Error Value
    → (Value → Result Error Next)
    → Result Error Next
err thrown >>= rest = err thrown
ok value >>= rest = rest value

pub ok-injective {ε α} :
    {Error : Type ε} {Value : Type α} {a b : Value}
    → ◌≡◌ {A = Result Error Value} (ok a) (ok b)
    → a ≡ b
ok-injective e = cc

pub Result-cases {ε α} :
    {Error : Type ε} {Value : Type α} (r : Result Error Value)
    → ((e : Error) × (r ≡ err e)) ⊎ ((v : Value) × (r ≡ ok v))
Result-cases (err e) = inl (e, refl)
Result-cases (ok v) = inr (v, refl)

-- A sequence that returns: so did its first part.
pub bind_ok {ε α β} :
    {Error : Type ε} {Value : Type α} {Next : Type β} (r : Result Error Value)
    (rest : Value → Result Error Next) {b : Next}
    → (r >>= rest) ≡ ok b
    → (v : Value) × (r ≡ ok v) × (rest v ≡ ok b)
bind_ok (err e) rest h = cc
bind_ok (ok v) rest h = (v, refl, h)
