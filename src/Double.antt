-- ===== src/Double.antt =====
-- Go's float64, as far as the program uses it: any type with these operations.
use soa_hw.Prelude.{Bool}
use soa_hw.Prelude.Int.{ℤ}

pub record Double (F : Type 0) : Type 0 where
  pub zero : F  -- 0
  pub hundred : F  -- 100
  pub seven_tenths : F  -- 0.7
  pub add : F → F → F
  pub sub : F → F → F
  pub mul : F → F → F
  pub div : F → F → F
  pub ltb : F → F → Bool  -- `a < b`; false if either is not a number
  pub of_int : ℤ → F  -- float64(n)
  pub single : F → F  -- float32(a), as the float64 of the same value
