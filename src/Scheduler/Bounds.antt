-- ===== src/Scheduler/Bounds.antt =====
-- Where the controller may put the target.
use b2c_fast_copy.Base.{ℕ, ◌-◌, ◌≤◌, ◌<◌, ◌≡◌, ◌⊎◌, subst, max, refl, false, List, [], ◌∷◌, arith}
use native.Mathlib.Nat.{div-add-mod}
use b2c_fast_copy.Scheduler.{
  State, Role, Limits, Scheduler, to_u8, from_u8, clamp, new, role, reader_bounds, bounded, Locals,
  Sample, tick, run,
}
use b2c_fast_copy.Scheduler.Floats.{Float}

-- A state survives the atomic byte that it is stored in.
pub from_u8-to_u8 : (s : State) → from_u8 (to_u8 s) ≡ s
unfolding from_u8 to_u8
from_u8-to_u8 State.balanced = refl
from_u8-to_u8 State.fill = refl
from_u8-to_u8 State.drain = refl
from_u8-to_u8 State.cliff = refl
from_u8-to_u8 State.thrash = refl

-- The bounds are in order, so that `clamp` does not panic, and no larger than the workers, for at least
-- two workers.
pub reader_bounds-IsOrdered :
    (l : Limits) → 2 ≤ l.workers → let (lo, hi) = reader_bounds l in (lo ≤ hi) × (hi ≤ l.workers)
unfolding reader_bounds
reader_bounds-IsOrdered l some_workers = ground arith

-- On two devices the bounds leave a reader, and a writer if the destination takes one.
reader_bounds-both_sides :
    (l : Limits)
    → 2 ≤ l.workers
    → 1 ≤ l.max_writers
    → l.same_spindle ≡ false
    → let (lo, hi) = reader_bounds l in (1 ≤ lo) × (hi < l.workers)
unfolding reader_bounds
reader_bounds-both_sides l some_workers depth apart = ground arith

-- Within the bounds.
pub record IsBounded (s : Scheduler) : Type 0 where
  pub low : (reader_bounds s.limits).0 ≤ s.readers_target
  pub high : s.readers_target ≤ (reader_bounds s.limits).1

clamp-bounds : (v lo hi : ℕ) → lo ≤ hi → (lo ≤ clamp v lo hi) × (clamp v lo hi ≤ hi)
unfolding clamp
clamp-bounds v lo hi le = ground arith

-- A split that the devices allow: a reader at least, no more writers than the destination takes, and no
-- more readers than the source takes, unless the writers that are too many are put to reading.
pub record IsAllowed (l : Limits) (readers : ℕ) : Type 0 where
  pub some_reader : 1 ≤ readers
  pub enough_workers : readers ≤ l.workers
  pub writers_fit : l.workers - readers ≤ l.max_writers
  pub readers_fit : (readers ≤ l.max_readers) ⊎ (readers ≡ max (l.workers - l.max_writers) 1)

IsBounded-IsAllowed :
    (s : Scheduler)
    → 2 ≤ s.limits.workers
    → s.limits.same_spindle ≡ false
    → IsBounded s
    → IsAllowed s.limits s.readers_target
unfolding reader_bounds
IsBounded-IsAllowed s some_workers apart h =
    let low = h.low in
    let high = h.high in
    record {
      some_reader = ground arith;
      enough_workers = ground arith;
      writers_fit = ground arith;
      readers_fit = ground arith;
    }

module _ {F : Type 0} (fl : Float F) where
  tick-IsBounded :
      (c : Scheduler × Locals F) (x : Sample F) → 2 ≤ c.0.limits.workers → IsBounded (tick fl c x).0
  unfolding tick bounded
  tick-IsBounded (s, v) x some_workers =
      let order = reader_bounds-IsOrdered s.limits some_workers in
      record {
        low = (clamp-bounds _ (reader_bounds s.limits).0 (reader_bounds s.limits).1 order.0).0;
        high = (clamp-bounds _ (reader_bounds s.limits).0 (reader_bounds s.limits).1 order.0).1;
      }

  -- From the first turn on the target lies within the bounds.
  run-IsBounded :
      (c : Scheduler × Locals F) (x : Sample F) (xs : List (Sample F))
      → 2 ≤ c.0.limits.workers
      → ((run fl c (x ∷ xs)).0.limits ≡ c.0.limits) × IsBounded (run fl c (x ∷ xs)).0
  unfolding run tick
  run-IsBounded c x [] h = (refl, tick-IsBounded c x h)
  run-IsBounded c x (y ∷ ys) h = run-IsBounded (tick fl c x) y ys h

  -- After any number of turns, and at least one, the split of the workers `IsAllowed` by the queue depths
  -- of the two devices, whatever was measured, and the limits are unchanged. At least two workers and two
  -- devices that do not share a spindle are assumed.
  pub run-IsAllowed :
      (c : Scheduler × Locals F) (x : Sample F) (xs : List (Sample F))
      → 2 ≤ c.0.limits.workers
      → c.0.limits.same_spindle ≡ false
      → let s = (run fl c (x ∷ xs)).0 in
        (s.limits ≡ c.0.limits) × IsAllowed c.0.limits s.readers_target
  run-IsAllowed c x xs some_workers apart =
      let (same, bounds) = run-IsBounded c x xs some_workers in
      (
        same,
        subst (λ l. IsAllowed l (run fl c (x ∷ xs)).0.readers_target) same
            (IsBounded-IsAllowed (run fl c (x ∷ xs)).0 (rw same some_workers) (rw same apart)
              bounds),
      )

  -- Both sides have a worker at every moment of a run on two devices: worker 0 reads, and the last of
  -- them writes, from the start on. At least two workers and a destination that takes a writer are
  -- assumed.
  pub run-both_sides :
      (limits : Limits) (v : Locals F) (xs : List (Sample F))
      → 2 ≤ limits.workers
      → 1 ≤ limits.max_writers
      → limits.same_spindle ≡ false
      → let s = (run fl (new limits, v) xs).0 in
        (role s 0 ≡ Role.read) × (role s (limits.workers - 1) ≡ Role.write)
  unfolding role new run clamp
  run-both_sides limits v [] some_workers depth apart = ground (arith, div-add-mod limits.workers 2)
  run-both_sides limits v (x ∷ xs) some_workers depth apart =
      let (same, bounds) = run-IsBounded (new limits, v) x xs some_workers in
      let inside = reader_bounds-both_sides limits some_workers depth apart in
      let low = bounds.low in
      let high = bounds.high in ground (arith, rw same at low, rw same at high, inside)
