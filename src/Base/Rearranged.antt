-- ===== src/Base/Rearranged.antt =====
-- Members of a list, as places in it, through a permutation.
use mathlib.Core.Path.{◌∙◌}
use mathlib.Core.List.{List, Memᴰ, Permᴰ}

module _ {ℓ} {A : Type ℓ} where
  -- Each member of the one list is in the other.
  pub member : {a : A} {l₁ l₂ : List A} → Permᴰ l₁ l₂ → Memᴰ a l₁ → Memᴰ a l₂
  member Permᴰ.nil m = m
  member (Permᴰ.cons e p) (Memᴰ.head h) = Memᴰ.head (h ∙ e)
  member (Permᴰ.cons e p) (Memᴰ.tail m) = Memᴰ.tail (member p m)
  member (Permᴰ.swap e f) (Memᴰ.head h) = Memᴰ.tail (Memᴰ.head (h ∙ e))
  member (Permᴰ.swap e f) (Memᴰ.tail (Memᴰ.head h)) = Memᴰ.head (h ∙ f)
  member (Permᴰ.swap e f) (Memᴰ.tail (Memᴰ.tail m)) = Memᴰ.tail (Memᴰ.tail m)
  member (Permᴰ.trans p q) m = member q (member p m)
