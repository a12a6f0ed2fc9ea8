-- ===== src/Prelude/Float.antt =====
-- `f64`, which the kernel has no numbers for: the operations that the program calls, as a parameter.
-- Nothing is assumed of them, so what is proved holds for every rounding, and for NaN too.
use Prim.Native.Nat.{ℕ}
use mathlib.Core.Bool.{Bool}

pub record Float : Type 1 where
  pub F64 : Type 0
  -- `n as f64`
  pub of_nat : ℕ → F64
  -- The literal `digits / 10 ^ places`.
  pub literal : ℕ → ℕ → F64
  pub add : F64 → F64 → F64
  pub sub : F64 → F64 → F64
  pub mul : F64 → F64 → F64
  pub div : F64 → F64 → F64
  -- `a.max(b)`
  pub fmax : F64 → F64 → F64
  pub sqrt : F64 → F64
  -- `a < b`, which is false at NaN.
  pub less : F64 → F64 → Bool
  -- `x.ceil() as usize`, `x.round() as usize` and `x as u64`, which saturate.
  pub ceil_nat : F64 → ℕ
  pub round_nat : F64 → ℕ
  pub floor_nat : F64 → ℕ
