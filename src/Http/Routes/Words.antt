-- ===== src/Http/Routes/Words.antt =====
-- Searches and words in the request line of src/http/HttpServer.cpp.
use lmonitor.Base.{ℕ, ◌≡◌, refl, true, false, [], ◌∷◌, ◌++◌, none, some, length, arith}
use lmonitor.Base.Text.{Bytes}
use lmonitor.Base.Lines.{has}
use lmonitor.Http.Routes.{starts_with, find}

pub find_absent : (x : ℕ) (p s : Bytes) → has x s ≡ false → find (x ∷ p) s ≡ none
unfolding find starts_with has
find_absent x p [] h = refl
find_absent x p (c ∷ s) h = ground (arith, find_absent x p s)

starts_with-append : (p s : Bytes) → starts_with p (p ++ s) ≡ true
unfolding starts_with
starts_with-append [] s = refl
starts_with-append (c ∷ p) s = ground (arith, starts_with-append p s)

-- The first place of a pattern is where it stands, if its first character does not come before.
pub find-append :
    (x : ℕ) (p a s : Bytes) → has x a ≡ false → find (x ∷ p) (a ++ ((x ∷ p) ++ s)) ≡ some (length a)
unfolding find starts_with has
find-append x p [] s h = ground (arith, starts_with-append p s)
find-append x p (c ∷ a) s h = ground (arith, find-append x p a s)

pub starts_with-cut :
    (p h s : Bytes) (c : ℕ)
    → has c p ≡ false
    → starts_with p h ≡ false
    → starts_with p (h ++ c ∷ s) ≡ false
unfolding starts_with has
starts_with-cut [] h s c n e = e
starts_with-cut (x ∷ p) [] s c n e = ground arith
starts_with-cut (x ∷ p) (y ∷ h) s c n e = ground (arith, starts_with-cut p h s c)
