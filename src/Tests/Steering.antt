-- ===== src/Tests/Steering.antt =====
-- The theorems on the scheduler, with whole numbers in place of f64.
use b2c_fast_copy.Base.{ℕ, ◌+◌, ◌-◌, ◌*◌, ◌/◌, ◌^◌, ◌≡◌, ◌≢◌, refl, false, [], ◌∷◌, max, ltb, arith}
use b2c_fast_copy.Scheduler.{
  Role, Limits, Scheduler, to_u8, new, role, reader_bounds, bounded, steer, Locals, locals, Sample,
  tick, run, average, at_cliff, classify, nominate, commit, from_u8,
}
use b2c_fast_copy.Scheduler.Floats.{Float}
use b2c_fast_copy.Scheduler.Average.{update, get}
use b2c_fast_copy.Scheduler.Average
use b2c_fast_copy.Scheduler.Bounds.{IsAllowed, run-IsAllowed, run-both_sides}
use b2c_fast_copy.Scheduler.Hysteresis.{indicated, tick-hysteresis}
use b2c_fast_copy.Scheduler.Balance.{balance, approach, fair_share, balance-settles}

abbrev numbers : Float ℕ
numbers = record {
  of_nat = λ n. n;
  decimal = λ m p. m / 10 ^ p;
  add = λ a b. a + b;
  sub = λ a b. a - b;
  mul = λ a b. a * b;
  div = λ a b. a / b;
  neg = λ a. 0;
  exp = λ a. 1;
  max = λ a b. max a b;
  less = ltb;
}

abbrev limits : Limits
limits = record { workers = 8; max_readers = 32; max_writers = 2; same_spindle = false }

-- No buffer is free: the readers are blocked.
abbrev full : Sample ℕ
full = record {
  bytes_read = 9;
  bytes_written = 3;
  capacity = 16;
  free = 0;
  filled = 16;
  elapsed = 1;
}

run-IsAllowed_example :
    ((run numbers (new limits, locals numbers) (full ∷ full ∷ [])).0.limits ≡ limits)
    × IsAllowed limits
        (run numbers (new limits, locals numbers) (full ∷ full ∷ [])).0.readers_target
unfolding new
run-IsAllowed_example =
    run-IsAllowed numbers (new limits, locals numbers) full (full ∷ []) (omega arith) refl

run-both_sides_example :
    (role (run numbers (new limits, locals numbers) (full ∷ full ∷ [])).0 0 ≡ Role.read)
    × (role (run numbers (new limits, locals numbers) (full ∷ full ∷ [])).0 7 ≡ Role.write)
run-both_sides_example =
    run-both_sides numbers limits (locals numbers) (full ∷ full ∷ []) (omega arith) (omega arith)
      refl

-- The second indication of `drain` takes effect.
abbrev after_one : Scheduler × Locals ℕ
after_one = tick numbers (new limits, locals numbers) full

drained : ((tick numbers after_one full).0.state ≡ 2) × (after_one.0.state ≡ 0)
unfolding tick average at_cliff classify nominate commit new to_u8 update bounded steer
    reader_bounds from_u8 get Average.new
drained = (refl, refl)

drains : (tick numbers after_one full).0.state ≢ after_one.0.state
drains e = absurd (omega (arith, e, drained.0, drained.1))

tick-hysteresis_example :
    ((tick numbers after_one full).0.state ≡ to_u8 (indicated numbers after_one full))
    × (indicated numbers after_one full ≡ indicated numbers (new limits, locals numbers) full)
tick-hysteresis_example = tick-hysteresis numbers (new limits, locals numbers) full full drains

balance-settles_example : balance limits 1 6 ≡ approach (bounded limits (fair_share limits)) 1 6
unfolding bounded reader_bounds
balance-settles_example = balance-settles limits 1 6 (omega arith) (omega arith)
