-- ===== src/Engine/Fair.antt =====
-- The bulk copy of crates/b2c-engine/src/engine.rs comes to an end when every worker gets its turn: how
-- much work is left, and what a step of a worker does to it.
pub mod Paths
pub mod Turns
pub mod Chase
pub mod Eager
pub mod Nearer
pub mod Ways
pub mod Rounds
pub mod Ends
use b2c_fast_copy.Base.{
  ℕ, ◌+◌, ◌*◌, ◌^◌, ◌≤◌, ◌<◌, ◌≡◌, ◌⊎◌, refl, inl, inr, [], ◌∷◌, arith, total, length,
  length-append, drop, drop_past, drop_next, drop_end, get_elem?, Option-cases, none, some,
}
use b2c_fast_copy.Win.Defs.{Os}
use b2c_fast_copy.Rings.{Chunk, release_free, push_filled, acquire_free_cases, pop_filled_cases}
use b2c_fast_copy.Engine.Defs.{
  Shared, Pc, looping, acquiring, claiming, returning, reading, pushing, popping, preparing,
  writing, releasing, settling, counting, finalizing, exited, Worker,
}
use b2c_fast_copy.Engine.Steps.{acquire, claim, pop, settle, count}
use b2c_fast_copy.Engine.Worker.{Pipeline, dispatch}
use b2c_fast_copy.Engine.Worker.Frame.{
  read-Keeps, read_pc, prepare-Keeps, prepare_pc, write-Keeps, write_pc, finalize-Keeps,
}
use b2c_fast_copy.Engine.Worker.Conserve.{count-fits}

-- The steps that the chunk in hand has before it.
abbrev pub weight : Pc → ℕ
weight (reading buf job) = 7
weight (pushing c) = 6
weight (preparing c) = 4
weight (writing c) = 3
weight (releasing buf after) = 2
weight (settling after) = 1
weight _ = 0

abbrev pub weight_at : Worker → ℕ
weight_at w = weight w.pc

module _ {W : Type 0} where
  -- The jobs that nobody has taken.
  abbrev pub left : Shared W → ℕ
  left sh = length (drop sh.cursor sh.jobs)

  abbrev pub queued : Shared W → ℕ
  queued sh = length sh.rings.filled

  abbrev pub work : Shared W → ℕ
  work sh = 8 * left sh + 5 * queued sh

  -- All the work of a pipeline, that in the hands of its workers included.
  abbrev pub effort : Pipeline W → ℕ
  effort p = work p.shared + total weight_at p.workers

  -- A step that does no work.
  pub record IsQuiet (s : Shared W) (pc : Pc) (t : Shared W) (pc' : Pc) : Type 0 where
    pub left : left t ≡ left s
    pub queued : queued t ≡ queued s
    pub remaining : t.remaining ≡ s.remaining
    pub shutdown : t.rings.is_shutdown ≡ s.rings.is_shutdown
    pub light : weight pc ≡ 0
    pub light' : weight pc' ≡ 0

module _ {W : Type 0} (sys : Os W) where
  -- A step does some of the work, or it is quiet.
  pub dispatch-effort :
      (target idx : ℕ) (pc : Pc) (w : Worker) (sh : Shared W)
      → sh.cursor + 1 < 2 ^ 64
      → let (t, v) = dispatch sys target idx pc w sh in
        (work t + weight v.pc < work sh + weight pc) ⊎ IsQuiet sh pc t v.pc
  unfolding dispatch release_free push_filled acquire claim pop settle count
  dispatch-effort target idx looping w sh u = inr (ground arith)
  dispatch-effort target idx (acquiring last) w sh u = elim (acquire_free_cases sh.rings) [
    | inl e ↦ inr (ground arith)
    | inr (buf, rest, free, e) ↦ inr (ground arith)
  ]
  dispatch-effort target idx (claiming last buf) w sh u =
      elim (Option-cases (get_elem? sh.jobs sh.cursor)) [
        | inl e ↦ inr (
            ground (
              arith,
              drop_end sh.jobs sh.cursor e,
              drop_past sh.jobs sh.cursor,
              count-fits sh.cursor,
            ))
        | inr (j, e) ↦ inl (ground (arith, drop_next sh.jobs sh.cursor j e, count-fits sh.cursor))
      ]
  dispatch-effort target idx (returning last buf) w sh u = inr (ground arith)
  dispatch-effort target idx (reading buf job) w sh u =
      inl (ground (arith, read-Keeps sys sh w.src buf job, read_pc sys sh w.src buf job))
  dispatch-effort target idx (pushing c) w sh u =
      inl (ground (arith, length-append sh.rings.filled (c ∷ [])))
  dispatch-effort target idx (popping last) w sh u = elim (pop_filled_cases sh.rings) [
    | inl (empty, e) ↦ inr (ground arith)
    | inr (c, rest, filled, e) ↦ inl (ground arith)
  ]
  dispatch-effort target idx (preparing c) w sh u =
      inl (ground (arith, prepare-Keeps sys sh c, prepare_pc sys sh c))
  dispatch-effort target idx (writing c) w sh u =
      inl (ground (arith, write-Keeps sys sh w.dst c, write_pc sys sh w.dst c))
  dispatch-effort target idx (releasing buf after) w sh u = inl (ground arith)
  dispatch-effort target idx (settling after) w sh u = inl (ground arith)
  dispatch-effort target idx (counting f) w sh u = inr (ground arith)
  dispatch-effort target idx (finalizing f) w sh u = inr (ground (arith, finalize-Keeps sys sh f))
  dispatch-effort target idx exited w sh u = inr (ground arith)
