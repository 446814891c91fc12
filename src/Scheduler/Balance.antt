-- ===== src/Scheduler/Balance.antt =====
-- Where a balanced controller comes to rest.
use b2c_fast_copy.Base.{
  ℕ, zero, suc, ◌+◌, ◌-◌, ◌*◌, ◌/◌, ◌≤◌, ◌≡◌, ap, ◌∙◌, leb, min, if◌then◌else◌, false, max, arith,
}
use b2c_fast_copy.Scheduler.{Limits, clamp, reader_bounds, bounded, settle, steer, State}

-- The target after `n` turns that are committed to `balanced`.
abbrev pub balance : Limits → ℕ → ℕ → ℕ
balance l zero readers = readers
balance l (suc n) readers = balance l n (bounded l (steer State.balanced false false l readers))

-- The split that the queue depths ask for.
abbrev pub fair_share : Limits → ℕ
fair_share l = l.workers * l.max_readers / max (l.max_readers + l.max_writers) 1

-- Where `n` steps of one from `readers` towards `goal` end, which do not pass it.
abbrev pub approach : (goal n readers : ℕ) → ℕ
approach goal n readers =
    if leb readers goal then min (readers + n) goal else max (readers - n) goal

-- A turn goes one step towards the bounded fair share.
settle-approach :
    (l : Limits) (readers : ℕ)
    → (reader_bounds l).0 ≤ readers
    → readers ≤ (reader_bounds l).1
    → let next = bounded l (settle l readers) in
      (next ≡ approach (bounded l (fair_share l)) 1 readers)
      × ((reader_bounds l).0 ≤ next)
      × (next ≤ (reader_bounds l).1)
unfolding bounded settle clamp
settle-approach l readers low high = ground arith

approach_next :
    (goal n readers : ℕ) → approach goal n (approach goal 1 readers) ≡ approach goal (suc n) readers
approach_next goal n readers = ground arith

-- As long as the state stays balanced, the target moves one reader a turn towards the fair share of the
-- queue depths, cut to the bounds, and then rests there: where it is after any number of turns is said
-- exactly. It starts within the bounds.
pub balance-settles :
    (l : Limits) (n readers : ℕ)
    → (reader_bounds l).0 ≤ readers
    → readers ≤ (reader_bounds l).1
    → balance l n readers ≡ approach (bounded l (fair_share l)) n readers
unfolding steer
balance-settles l zero readers low high = ground arith
balance-settles l (suc n) readers low high =
    let (step, low', high') = settle-approach l readers low high in
    balance-settles l n (bounded l (settle l readers)) low' high'
    ∙ ap (approach (bounded l (fair_share l)) n) step
    ∙ approach_next (bounded l (fair_share l)) n readers
