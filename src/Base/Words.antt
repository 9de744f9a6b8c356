-- ===== src/Base/Words.antt =====
-- Words between white space, as `>>` takes them off a stream.
use Prim.Native.Nat.{ℕ}
use mathlib.Core.Path.{◌≡◌, refl, ap, ◌∙◌}
use mathlib.Core.Logic.{◌≢◌}
use mathlib.Core.Bool.{true, false}
use mathlib.Core.List.{[], ◌∷◌, ◌++◌}
use native.Mathlib.Omega.{arith}
use lmonitor.Base.Tests.{if◌then◌else◌}
use lmonitor.Base.Lists.{All}
use lmonitor.Base.Text.{Bytes}
use lmonitor.Base.Number.{is_space, skip_spaces}

abbrev cons_word : ℕ → Bytes × Bytes → Bytes × Bytes
cons_word c (w, rest) = (c ∷ w, rest)

-- The characters up to the next white space.
unfoldable pub take_word : Bytes → Bytes × Bytes
take_word [] = ([], [])
take_word (c ∷ s) = let rest = take_word s in if is_space c then ([], c ∷ s) else cons_word c rest

-- `stream >> word`, on what is left of the stream
abbrev pub word : Bytes → Bytes × Bytes
word s = take_word (skip_spaces s)

-- A word: not empty, and with no white space.
abbrev pub IsWord : Bytes → Type 0
IsWord w = (w ≢ []) × All (λ c. is_space c ≡ false) w

take_word-append :
    (w : Bytes) (c : ℕ) (rest : Bytes)
    → All (λ x. is_space x ≡ false) w
    → is_space c ≡ true
    → take_word (w ++ c ∷ rest) ≡ (w, c ∷ rest)
unfolding take_word
take_word-append [] c rest h sp = rw sp refl
take_word-append (x ∷ w) c rest (h, hs) sp = ground (arith, take_word-append w c rest hs sp)

skip_spaces-append : (w rest : Bytes) → IsWord w → skip_spaces (w ++ rest) ≡ w ++ rest
unfolding skip_spaces
skip_spaces-append [] rest (ne, h) = absurd (ne refl)
skip_spaces-append (c ∷ w) rest (ne, h) = rw h.0 refl

-- The next word, behind any space that ended the one before it.
pub word-append :
    (w : Bytes) (c : ℕ) (rest : Bytes)
    → IsWord w
    → is_space c ≡ true
    → word (w ++ c ∷ rest) ≡ (w, c ∷ rest)
word-append w c rest h sp =
    ap take_word (skip_spaces-append w (c ∷ rest) h) ∙ take_word-append w c rest h.1 sp
