-- ===== src/Shared/Floats.antt =====
-- Floating-point numbers are a parameter: a type with the operations that the code applies to it.
-- The two orders are separate tests, since with a NaN neither `x < y` nor `y <= x` holds.
use Prim.Native.Nat.{ℕ}
use mathlib.Core.Bool.{Bool}

pub record FloatOps (F : Type 0) : Type 0 where
  pub flt : F → F → Bool
  pub fle : F → F → Bool
  pub feq : F → F → Bool
  pub fadd : F → F → F
  pub fsub : F → F → F
  pub fmul : F → F → F
  pub fdiv : F → F → F
  pub fneg : F → F
  pub fabs : F → F
  pub of_nat : ℕ → F
