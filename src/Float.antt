-- ===== src/Float.antt =====
-- The double operations that the modelled code uses. There are no floating-point numbers here: the
-- type and its operations are an argument, and what a theorem needs of them is its hypothesis.
use lmonitor.Base.{ℕ, Bool, Result}
use lmonitor.Base.Text.{Bytes}
use lmonitor.Base.Number.{NumberError}

pub record Float (D : Type 0) : Type 0 where
  -- static_cast<double>, which also gives the literals such as 80.0
  pub of_nat : ℕ → D
  -- `a >= b` and `a <= b`
  pub geb : D → D → Bool
  pub leb : D → D → Bool
  -- std::isfinite
  pub is_finite : D → Bool
  -- std::stod, with the text behind the characters that it read
  pub stod : Bytes → Result NumberError (D × Bytes)
  -- `out << std::fixed << std::setprecision(2) << x`, and `out << x` with the default flags
  pub print_fixed : D → Bytes
  pub print : D → Bytes
  -- `a * b` and `a / b`
  pub mul : D → D → D
  pub div : D → D → D
