-- ===== src/Num/Float.antt =====
-- Go's float64, as far as the program computes with it: a type and its operations, which the
-- definitions take as a parameter. Integers are int64 patterns.
use cuirass.Prelude.{ℕ, Bool}

pub record Float64 : Type 1 where
  pub Float : Type 0
  pub of_int : ℕ → Float
  pub sub : Float → Float → Float
  pub mul : Float → Float → Float
  pub div : Float → Float → Float
  pub floor : Float → Float
  pub ceil : Float → Float
  -- Conversion to int, which drops the fraction.
  pub to_int : Float → ℕ
  pub leb : Float → Float → Bool
