-- ===== src/Base/Lines.antt =====
-- std::getline over a text, and `find` with the two `substr` calls that cut at the place found.
use Prim.Native.Nat.{ℕ}
use mathlib.Core.Path.{◌≡◌, refl}
use mathlib.Core.Bool.{Bool, false, ◌||◌}
use mathlib.Core.List.{List, [], ◌∷◌, ◌++◌}
use mathlib.Core.Option.{Option, none, some}
use native.Mathlib.Omega.{arith}
use lmonitor.Base.Tests.{◌==◌, if◌then◌else◌}
use lmonitor.Base.Text.{Bytes}

-- One more byte in front of the first line.
abbrev cons_first : ℕ → List Bytes → List Bytes
cons_first c [] = (c ∷ []) ∷ []
cons_first c (l ∷ ls) = (c ∷ l) ∷ ls

-- The lines that a loop over `getline` reads: a newline at the end of the text begins no line.
unfoldable pub lines : Bytes → List Bytes
lines [] = []
lines (c ∷ s) = let rest = lines s in if c == b'\n' then [] ∷ rest else cons_first c rest

abbrev cons_part : ℕ → Option (Bytes × Bytes) → Option (Bytes × Bytes)
cons_part x none = none
cons_part x (some (a, b)) = some (x ∷ a, b)

-- `s.substr(0, p)` and `s.substr(p + 1)` at `p = s.find(c)`, if there is a `c`.
unfoldable pub cut : ℕ → Bytes → Option (Bytes × Bytes)
cut c [] = none
cut c (x ∷ s) = let rest = cut c s in if x == c then some ([], s) else cons_part x rest

unfoldable pub has : ℕ → Bytes → Bool
has c [] = false
has c (x ∷ s) = x == c || has c s

pub lines-line : (l s : Bytes) → has b'\n' l ≡ false → lines (l ++ b'\n' ∷ s) ≡ l ∷ lines s
unfolding lines has
lines-line [] s h = refl
lines-line (c ∷ l) s h = ground (arith, lines-line l s)

pub cut-append : (c : ℕ) (a b : Bytes) → has c a ≡ false → cut c (a ++ c ∷ b) ≡ some (a, b)
unfolding cut has
cut-append c [] b h = ground arith
cut-append c (x ∷ a) b h = ground (arith, cut-append c a b)

pub has-append : (c : ℕ) (a b : Bytes) → has c (a ++ b) ≡ (has c a || has c b)
unfolding has
has-append c [] b = refl
has-append c (x ∷ a) b = ground (arith, has-append c a b)

-- `line.back() == c` of a line that is not empty
abbrev pub ends : ℕ → Bytes → Bool
ends c [] = false
ends c (x ∷ []) = x == c
ends c (x ∷ y ∷ s) = ends c (y ∷ s)
