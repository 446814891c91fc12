-- ===== src/Scheduler/Floats.antt =====
-- The operations on f64 that the scheduler uses, as a parameter.
use b2c_fast_copy.Base.{ℕ, Bool}

-- `decimal m p` is the literal with digits `m` and `p` of them after the point.
pub record Float (F : Type 0) : Type 0 where
  pub of_nat : ℕ → F
  pub decimal : ℕ → ℕ → F
  pub add : F → F → F
  pub sub : F → F → F
  pub mul : F → F → F
  pub div : F → F → F
  pub neg : F → F
  pub exp : F → F
  pub max : F → F → F
  pub less : F → F → Bool
