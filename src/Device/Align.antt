-- ===== src/Device/Align.antt =====
-- What `div_ceil` and `round_up` give.
use b2c_fast_copy.Base.{ℕ, ◌+◌, ◌-◌, ◌*◌, ◌%◌, ◌^◌, ◌≤◌, ◌<◌, ◌≡◌, arith}
use native.Mathlib.Nat.{div-add-mod, mod-lt, mod-eq_of_lt, mul-le-mul_right}
use native.Mathlib.Decide.{dec_lt}
use b2c_fast_copy.Device.{div_ceil, round_up}

-- a least multiple: `to` divides it, it is not below `v`, and it is less than `v + to`.
pub record IsLeastMultiple (v to m : ℕ) : Type 0 where
  pub quotient : ℕ
  pub multiple : m ≡ quotient * to
  pub above : v ≤ m
  pub tight : m < v + to

pub div_ceil-IsLeastMultiple : (v to : ℕ) → 0 < to → IsLeastMultiple v to (div_ceil v to * to)
div_ceil-IsLeastMultiple v to h = record {
  quotient = div_ceil v to;
  multiple = ground arith;
  above = ground (arith, div-add-mod (v + to - 1) to, mod-lt (v + to - 1) h);
  tight = ground (arith, div-add-mod (v + to - 1) to, mod-lt (v + to - 1) h);
}

-- No multiple from the value on is smaller.
pub div_ceil-le : (v to q : ℕ) → 0 < to → v ≤ q * to → div_ceil v to * to ≤ q * to
div_ceil-le v to q pos le =
    let r = div_ceil-IsLeastMultiple v to pos in
    elim (dec_lt q (div_ceil v to)) [
      | yes gt ↦
          let m : (q + 1) * to ≤ div_ceil v to * to = mul-le-mul_right to (omega arith) in
          absurd (grind (arith, r.tight))
      | no le' ↦ mul-le-mul_right to (omega arith)
    ]

-- Rounding up by a positive alignment gives the least multiple of it that is not below the value, as
-- long as some multiple `q * to` of the alignment, not below the value, fits in 64 bits.
pub round_up-IsLeastMultiple :
    (v to q : ℕ) → 0 < to → v ≤ q * to → q * to < 2 ^ 64 → IsLeastMultiple v to (round_up v to)
unfolding round_up
round_up-IsLeastMultiple v to q pos le fits =
    let whole = div_ceil-IsLeastMultiple v to pos in
    let same : div_ceil v to * to % 2 ^ 64 ≡ div_ceil v to * to =
      mod-eq_of_lt (omega (arith, div_ceil-le v to q pos le)) in
    record {
      quotient = div_ceil v to;
      multiple = ground (arith, same);
      above = ground (arith, same, whole.above);
      tight = ground (arith, same, whole.tight);
    }

-- A value that is not within one alignment of 2 ^ 64 is rounded without wrapping.
pub round_up_near : (v to : ℕ) → 0 < to → v + to ≤ 2 ^ 64 → IsLeastMultiple v to (round_up v to)
round_up_near v to pos near =
    let whole = div_ceil-IsLeastMultiple v to pos in
    round_up-IsLeastMultiple v to (div_ceil v to) pos whole.above (omega (arith, whole.tight))
