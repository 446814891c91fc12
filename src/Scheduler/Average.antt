-- ===== src/Scheduler/Average.antt =====
-- `Ewma` of crates/b2c-engine/src/stats.rs.
use b2c_fast_copy.Base.{Bool, true, false, if◌then◌else◌}
use b2c_fast_copy.Scheduler.Floats.{Float}

pub record Ewma (F : Type 0) : Type 0 where
  pub value : F
  pub tau : F
  pub primed : Bool

module _ {F : Type 0} (fl : Float F) where
  unfoldable pub new : (tau_secs : F) → Ewma F
  new tau_secs = record { value = fl.of_nat 0; tau = tau_secs; primed = false }

  unfoldable pub update : Ewma F → (sample dt : F) → Ewma F
  update e sample dt =
      if e.primed
      then (let alpha = fl.sub (fl.of_nat 1) (fl.exp (fl.div (fl.neg dt) e.tau)) in
          record e { value = fl.add e.value (fl.mul alpha (fl.sub sample e.value)) })
      else record e { value = sample; primed = true }

unfoldable pub get : {F : Type 0} → Ewma F → F
get e = e.value
