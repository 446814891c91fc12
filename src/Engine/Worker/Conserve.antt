-- ===== src/Engine/Worker/Conserve.antt =====
-- What a step of one worker does to the buffers and to the work that is outstanding: it moves them
-- between the rings and the worker, and a settled chunk is counted off.
use b2c_fast_copy.Base.{
  drop_past, drop_next, ℕ, ◌+◌, ◌^◌, ◌≤◌, ◌<◌, ◌≡◌, refl, inl, inr, [], ◌∷◌, arith, total,
  total-append, length, length-append, drop, get_elem?, drop_end, Option-cases,
}
use native.Mathlib.Nat.{mod-eq_of_lt, mod-le}
use b2c_fast_copy.Stats.{count_up}
use b2c_fast_copy.Win.Defs.{Os}
use b2c_fast_copy.Rings.{Chunk, release_free, push_filled, acquire_free_cases, pop_filled_cases}
use b2c_fast_copy.Engine.Defs.{
  Shared, Pc, looping, acquiring, claiming, returning, reading, pushing, popping, preparing,
  writing, releasing, settling, counting, finalizing, exited, Worker,
}
use b2c_fast_copy.Engine.Steps.{acquire, claim, pop, settle, count}
use b2c_fast_copy.Engine.Worker.{dispatch}
use b2c_fast_copy.Engine.Worker.Frame.{
  read-Keeps, read_pc, prepare-Keeps, prepare_pc, write-Keeps, write_pc, finalize-Keeps,
}

-- The weight of the buffer that a worker holds, by a weight `u` of buffers.
abbrev pub holds : (ℕ → ℕ) → Pc → ℕ
holds u (claiming last buf) = u buf
holds u (returning last buf) = u buf
holds u (reading buf job) = u buf
holds u (pushing c) = u c.buf
holds u (preparing c) = u c.buf
holds u (writing c) = u c.buf
holds u (releasing buf after) = u buf
holds u _ = 0

abbrev pub buf_weight : (ℕ → ℕ) → Chunk → ℕ
buf_weight u c = u c.buf

-- The weight of the buffers in the rings.
abbrev pub ringed : {W : Type 0} → (ℕ → ℕ) → Shared W → ℕ
ringed u sh = total u sh.rings.free + total (buf_weight u) sh.rings.filled

module _ {W : Type 0} (sys : Os W) (u : ℕ → ℕ) where
  -- A step of a worker only moves buffers: with any weight of buffers, what the rings and the worker
  -- have together stays the same.
  pub dispatch-buffers :
      (target idx : ℕ) (pc : Pc) (w : Worker) (sh : Shared W)
      → ringed u (dispatch sys target idx pc w sh).0
          + holds u (dispatch sys target idx pc w sh).1.pc
        ≡ ringed u sh + holds u pc
  unfolding dispatch release_free push_filled acquire claim pop settle count
  dispatch-buffers target idx looping w sh = ground arith
  dispatch-buffers target idx (acquiring last) w sh = elim (acquire_free_cases sh.rings) [
    | inl e ↦ ground arith
    | inr (buf, rest, free, e) ↦ ground arith
  ]
  dispatch-buffers target idx (claiming last buf) w sh = ground arith
  dispatch-buffers target idx (returning last buf) w sh = ground arith
  dispatch-buffers target idx (reading buf job) w sh =
      ground (arith, read-Keeps sys sh w.src buf job, read_pc sys sh w.src buf job)
  dispatch-buffers target idx (pushing c) w sh =
      ground (arith, total-append (buf_weight u) sh.rings.filled (c ∷ []))
  dispatch-buffers target idx (popping last) w sh = elim (pop_filled_cases sh.rings) [
    | inl (empty, e) ↦ ground arith
    | inr (c, rest, filled, e) ↦ ground arith
  ]
  dispatch-buffers target idx (preparing c) w sh =
      ground (arith, prepare-Keeps sys sh c, prepare_pc sys sh c)
  dispatch-buffers target idx (writing c) w sh =
      ground (arith, write-Keeps sys sh w.dst c, write_pc sys sh w.dst c)
  dispatch-buffers target idx (releasing buf after) w sh = ground arith
  dispatch-buffers target idx (settling after) w sh = ground arith
  dispatch-buffers target idx (counting f) w sh = ground arith
  dispatch-buffers target idx (finalizing f) w sh = ground (arith, finalize-Keeps sys sh f)
  dispatch-buffers target idx exited w sh = refl

-- 1 for a worker with a chunk or job that is not settled.
abbrev pub busy : Pc → ℕ
busy (reading buf job) = 1
busy (pushing c) = 1
busy (preparing c) = 1
busy (writing c) = 1
busy (releasing buf after) = 1
busy (settling after) = 1
busy _ = 0

abbrev pub waiting : {W : Type 0} → Shared W → ℕ
waiting sh = length (drop sh.cursor sh.jobs) + length sh.rings.filled

-- A counter that does not wrap.
pub count-fits : (n : ℕ) → n + 1 < 2 ^ 64 → count_up n 1 ≡ n + 1
count-fits n h = mod-eq_of_lt h

module _ {W : Type 0} (sys : Os W) where
  -- The count of what remains moves with the work: jobs that wait, chunks that wait and busy workers.
  pub dispatch-remaining :
      (target idx : ℕ) (pc : Pc) (w : Worker) (sh : Shared W)
      → busy pc ≤ sh.remaining
      → sh.remaining < 2 ^ 64
      → sh.cursor + 1 < 2 ^ 64
      → waiting (dispatch sys target idx pc w sh).0
          + busy (dispatch sys target idx pc w sh).1.pc
          + sh.remaining
        ≡ waiting sh + busy pc + (dispatch sys target idx pc w sh).0.remaining
  unfolding dispatch release_free push_filled acquire claim pop settle count
  dispatch-remaining target idx looping w sh b m u = ground arith
  dispatch-remaining target idx (acquiring last) w sh b m u = elim (acquire_free_cases sh.rings) [
    | inl e ↦ ground arith
    | inr (buf, rest, free, e) ↦ ground arith
  ]
  dispatch-remaining target idx (claiming last buf) w sh b m u =
      elim (Option-cases (get_elem? sh.jobs sh.cursor)) [
        | inl e ↦
            ground (
              arith,
              drop_end sh.jobs sh.cursor e,
              drop_past sh.jobs sh.cursor,
              count-fits sh.cursor,
            )
        | inr (j, e) ↦ ground (arith, drop_next sh.jobs sh.cursor j e, count-fits sh.cursor)
      ]
  dispatch-remaining target idx (returning last buf) w sh b m u = ground arith
  dispatch-remaining target idx (reading buf job) w sh b m u =
      ground (arith, read-Keeps sys sh w.src buf job, read_pc sys sh w.src buf job)
  dispatch-remaining target idx (pushing c) w sh b m u =
      ground (arith, length-append sh.rings.filled (c ∷ []))
  dispatch-remaining target idx (popping last) w sh b m u = elim (pop_filled_cases sh.rings) [
    | inl (empty, e) ↦ ground arith
    | inr (c, rest, filled, e) ↦ ground arith
  ]
  dispatch-remaining target idx (preparing c) w sh b m u =
      ground (arith, prepare-Keeps sys sh c, prepare_pc sys sh c)
  dispatch-remaining target idx (writing c) w sh b m u =
      ground (arith, write-Keeps sys sh w.dst c, write_pc sys sh w.dst c)
  dispatch-remaining target idx (releasing buf after) w sh b m u = ground arith
  dispatch-remaining target idx (settling after) w sh b m u = ground arith
  dispatch-remaining target idx (counting f) w sh b m u = ground arith
  dispatch-remaining target idx (finalizing f) w sh b m u = ground (arith, finalize-Keeps sys sh f)
  dispatch-remaining target idx exited w sh b m u = refl

  -- The cursor moves by one at most.
  pub dispatch-cursor :
      (target idx : ℕ) (pc : Pc) (w : Worker) (sh : Shared W)
      → (dispatch sys target idx pc w sh).0.cursor ≤ sh.cursor + 1
  unfolding dispatch acquire claim pop settle count
  dispatch-cursor target idx (claiming last buf) w sh = mod-le (sh.cursor + 1) (2 ^ 64)
  dispatch-cursor target idx (reading buf job) w sh =
      ground (arith, read-Keeps sys sh w.src buf job)
  dispatch-cursor target idx (preparing c) w sh = ground (arith, prepare-Keeps sys sh c)
  dispatch-cursor target idx (writing c) w sh = ground (arith, write-Keeps sys sh w.dst c)
  dispatch-cursor target idx (finalizing f) w sh = ground (arith, finalize-Keeps sys sh f)
  dispatch-cursor target idx pc w sh = ground arith

  -- The count never grows.
  pub dispatch-remaining_le :
      (target idx : ℕ) (pc : Pc) (w : Worker) (sh : Shared W)
      → busy pc ≤ sh.remaining
      → (dispatch sys target idx pc w sh).0.remaining ≤ sh.remaining
  unfolding dispatch acquire claim pop settle count
  dispatch-remaining_le target idx (reading buf job) w sh b =
      ground (arith, read-Keeps sys sh w.src buf job)
  dispatch-remaining_le target idx (preparing c) w sh b = ground (arith, prepare-Keeps sys sh c)
  dispatch-remaining_le target idx (writing c) w sh b = ground (arith, write-Keeps sys sh w.dst c)
  dispatch-remaining_le target idx (finalizing f) w sh b = ground (arith, finalize-Keeps sys sh f)
  dispatch-remaining_le target idx pc w sh b = ground arith
