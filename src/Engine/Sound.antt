-- ===== src/Engine/Sound.antt =====
-- What holds in every state that the workers can reach, in whatever order they move.
pub mod Exclusive
pub mod Progress
use b2c_fast_copy.Base.{
  ℕ, zero, suc, ◌+◌, ◌-◌, ◌%◌, ◌^◌, ◌≤◌, ◌<◌, ◌≡◌, refl, ap, ◌⊎◌, inl, inr, Bool, true, false,
  Option, none, some, List, [], ◌∷◌, ◌++◌, arith, total, total-append, total-set, le-total, length,
  length-append, drop, get_elem?, set, Option-cases, Bool-cases,
}
use b2c_fast_copy.Win.Defs.{Os}
use b2c_fast_copy.Rings
use b2c_fast_copy.Rings.{countdown}
use b2c_fast_copy.Stats.{Stats}
use b2c_fast_copy.Engine.Defs.{Shared, Pc, Worker}
use b2c_fast_copy.Engine.Jobs.{plan_jobs}
use b2c_fast_copy.Engine.Worker.{Pipeline, step, turn, run}
use b2c_fast_copy.Engine.Worker.Conserve.{
  holds, ringed, busy, waiting, dispatch-buffers, dispatch-remaining, dispatch-remaining_le,
  dispatch-cursor,
}
use b2c_fast_copy.Engine.Bulk.{Setup, idle_workers, start_shared, start}

abbrev pub held_by : (ℕ → ℕ) → Worker → ℕ
held_by u w = holds u w.pc

abbrev pub busy_at : Worker → ℕ
busy_at w = busy w.pc

module _ {W : Type 0} where
  -- With any weight of buffers, rings and workers together have the buffers of the arena; and the count
  -- of what remains is what waits, and what the workers have in hand. The cursor does not wrap in as
  -- many turns as are given.
  pub record IsSound (capacity turns : ℕ) (p : Pipeline W) : Type 0 where
    pub buffers :
        (u : ℕ → ℕ) → ringed u p.shared + total (held_by u) p.workers ≡ total u (countdown capacity)
    pub accounted : p.shared.remaining ≡ waiting p.shared + total busy_at p.workers
    pub bounded : p.shared.remaining < 2 ^ 64
    pub unwrapped : p.shared.cursor + turns < 2 ^ 64

module _ {W : Type 0} (sys : Os W) (capacity : ℕ) where
  fewer : (p : Pipeline W) (n : ℕ) → IsSound capacity (suc n) p → IsSound capacity n p
  fewer p n s = record {
    buffers = s.buffers;
    accounted = s.accounted;
    bounded = s.bounded;
    unwrapped = omega (arith, s.unwrapped);
  }

  step-IsSound :
      (p : Pipeline W) (n target idx : ℕ) (w : Worker)
      → get_elem? p.workers idx ≡ some w
      → IsSound capacity (suc n) p
      → let (sh, w') = step sys target idx w p.shared in
        IsSound capacity n (record { shared = sh; workers = set p.workers idx w' })
  unfolding step
  step-IsSound p n target idx w e s = record {
    buffers = λ u. omega (
      arith,
      s.buffers u,
      dispatch-buffers sys u target idx w.pc w p.shared,
      total-set (held_by u) p.workers idx w (step sys target idx w p.shared).1 e,
    );
    accounted = omega (
      arith,
      s.accounted,
      dispatch-remaining sys target idx w.pc w p.shared fits s.bounded (omega (arith, s.unwrapped)),
      total-set busy_at p.workers idx w (step sys target idx w p.shared).1 e,
    );
    bounded = omega (arith, s.bounded, dispatch-remaining_le sys target idx w.pc w p.shared fits);
    unwrapped = omega (arith, s.unwrapped, dispatch-cursor sys target idx w.pc w p.shared);
  }
    where
      fits : busy w.pc ≤ p.shared.remaining
      fits = omega (arith, s.accounted, le-total busy_at p.workers idx w e)

  pub turn-IsSound :
      (p : Pipeline W) (n : ℕ) (t : ℕ × ℕ)
      → IsSound capacity (suc n) p
      → IsSound capacity n (turn sys p t)
  unfolding turn
  turn-IsSound p n (target, idx) s = elim (Option-cases (get_elem? p.workers idx)) [
    | inl e ↦ rw (e, turn) (fewer p n s)
    | inr (w, e) ↦ rw (e, turn) (step-IsSound p n target idx w e s)
  ]

  pub run-IsSound :
      (p : Pipeline W) (ts : List (ℕ × ℕ))
      → IsSound capacity (length ts) p
      → IsSound capacity 0 (run sys p ts)
  unfolding run
  run-IsSound p [] s = s
  run-IsSound p (t ∷ ts) s = run-IsSound (turn sys p t) ts (turn-IsSound p (length ts) t s)

idle-held : (u : ℕ → ℕ) (n : ℕ) → total (held_by u) (idle_workers n) ≡ 0
idle-held u zero = refl
idle-held u (suc n) = omega (arith, idle-held u n)

idle-busy : (n : ℕ) → total busy_at (idle_workers n) ≡ 0
idle-busy zero = refl
idle-busy (suc n) = omega (arith, idle-busy n)

pub start-IsSound :
    {W : Type 0} (s : Setup) (stats : Stats) (memory : ℕ → ℕ → ℕ) (os : W) (turns : ℕ)
    → turns < 2 ^ 64
    → length (plan_jobs s.block_size 0 s.bulk) < 2 ^ 64
    → IsSound (s.buffers % 2 ^ 32) turns (start s stats memory os)
unfolding start Rings.new
start-IsSound s stats memory os turns few fits = record {
  buffers = λ u. omega (arith, idle-held u s.workers);
  accounted = omega (arith, idle-busy s.workers);
  bounded = fits;
  unwrapped = omega arith;
}

-- Every schedule of fewer than 2 ^ 64 turns from the start of a bulk copy leads to a sound state, for a
-- plan of fewer than 2 ^ 64 jobs.
pub reach-IsSound :
    {W : Type 0} (sys : Os W) (s : Setup) (stats : Stats) (memory : ℕ → ℕ → ℕ) (os : W)
    (ts : List (ℕ × ℕ))
    → length ts < 2 ^ 64
    → length (plan_jobs s.block_size 0 s.bulk) < 2 ^ 64
    → IsSound (s.buffers % 2 ^ 32) 0 (run sys (start s stats memory os) ts)
reach-IsSound sys s stats memory os ts few fits =
    run-IsSound sys (s.buffers % 2 ^ 32) _ ts (start-IsSound s stats memory os (length ts) few fits)
