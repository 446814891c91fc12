-- ===== src/Engine/Fair/Paths.antt =====
-- The way of a worker to the next piece of work, and to the end, counted in its own steps.
use b2c_fast_copy.Base.{
  ℕ, ◌+◌, ◌-◌, ◌^◌, ◌≤◌, ◌<◌, ◌≡◌, ◌⊎◌, inl, inr, true, false, arith, length, drop_past, drop_next,
  drop_end, get_elem?, Option-cases,
}
use b2c_fast_copy.Win.Defs.{Os}
use b2c_fast_copy.Rings.{
  release_free, push_filled, acquire_free, acquire_free_cases, pop_filled_cases,
}
use b2c_fast_copy.Engine.Defs.{
  Shared, Pc, looping, acquiring, claiming, returning, reading, pushing, popping, preparing,
  writing, releasing, settling, counting, finalizing, exited, Worker,
}
use b2c_fast_copy.Engine.Steps.{acquire, claim, pop, settle, count}
use b2c_fast_copy.Engine.Worker.{dispatch}
use b2c_fast_copy.Engine.Worker.Frame.{
  read-Keeps, read_pc, prepare-Keeps, prepare_pc, write-Keeps, write_pc, finalize-Keeps,
}
use b2c_fast_copy.Engine.Worker.Conserve.{count-fits}
use b2c_fast_copy.Engine.Fair.{weight, left, queued, IsQuiet}

-- To a chunk, if one waits.
abbrev pub to_chunk : Pc → ℕ
to_chunk (popping last) = 1
to_chunk (returning false buf) = 2
to_chunk (claiming false buf) = 3
to_chunk (acquiring false) = 4
to_chunk looping = 5
to_chunk (returning true buf) = 6
to_chunk (finalizing f) = 6
to_chunk (claiming true buf) = 7
to_chunk (counting f) = 7
to_chunk (acquiring true) = 8
to_chunk _ = 0

-- To the free ring, if no chunk waits but a job does.
abbrev pub to_buffer : Pc → ℕ
to_buffer (acquiring last) = 1
to_buffer (popping false) = 2
to_buffer looping = 3
to_buffer (popping true) = 4
to_buffer (returning true buf) = 4
to_buffer (finalizing f) = 4
to_buffer (returning false buf) = 5
to_buffer (counting f) = 5
to_buffer _ = 0

-- To the end, if nothing remains.
abbrev pub to_exit : Pc → ℕ
to_exit looping = 1
to_exit (popping true) = 2
to_exit (returning true buf) = 2
to_exit (finalizing f) = 2
to_exit (counting f) = 3
to_exit (returning false buf) = 3
to_exit (claiming true buf) = 3
to_exit (claiming false buf) = 4
to_exit (acquiring true) = 4
to_exit (acquiring false) = 5
to_exit (popping false) = 5
to_exit _ = 0

abbrev pub claims : Pc → ℕ
claims (claiming last buf) = 1
claims _ = 0

abbrev pub returns : Pc → ℕ
returns (returning last buf) = 1
returns _ = 0

abbrev pub exits : Pc → ℕ
exits exited = 1
exits _ = 0

module _ {W : Type 0} (sys : Os W) where
  -- Nobody shuts the rings down, a buffer is given back unread only when no job is left, and a worker
  -- leaves only when nothing remains.
  pub record IsOrderly (s : Shared W) (pc : Pc) (t : Shared W) (pc' : Pc) : Type 0 where
    pub fewer : left t ≤ left s
    pub running : t.rings.is_shutdown ≡ s.rings.is_shutdown
    pub unread : 0 < left t → returns pc' ≤ returns pc
    pub leaves : 0 < t.remaining → exits pc' ≤ exits pc

  pub dispatch-IsOrderly :
      (target idx : ℕ) (pc : Pc) (w : Worker) (sh : Shared W)
      → sh.cursor + 1 < 2 ^ 64
      → let (t, v) = dispatch sys target idx pc w sh in IsOrderly sh pc t v.pc
  unfolding dispatch release_free push_filled acquire claim pop settle count
  dispatch-IsOrderly target idx looping w sh u = ground arith
  dispatch-IsOrderly target idx (acquiring last) w sh u = elim (acquire_free_cases sh.rings) [
    | inl e ↦ ground arith
    | inr (buf, rest, free, e) ↦ ground arith
  ]
  dispatch-IsOrderly target idx (claiming last buf) w sh u =
      elim (Option-cases (get_elem? sh.jobs sh.cursor)) [
        | inl e ↦
            ground (
              arith,
              drop_end sh.jobs sh.cursor e,
              drop_past sh.jobs sh.cursor,
              count-fits sh.cursor,
            )
        | inr (j, e) ↦ ground (arith, drop_next sh.jobs sh.cursor j e, count-fits sh.cursor)
      ]
  dispatch-IsOrderly target idx (returning last buf) w sh u = ground arith
  dispatch-IsOrderly target idx (reading buf job) w sh u =
      ground (arith, read-Keeps sys sh w.src buf job, read_pc sys sh w.src buf job)
  dispatch-IsOrderly target idx (pushing c) w sh u = ground arith
  dispatch-IsOrderly target idx (popping last) w sh u = elim (pop_filled_cases sh.rings) [
    | inl (empty, e) ↦ ground arith
    | inr (c, rest, filled, e) ↦ ground arith
  ]
  dispatch-IsOrderly target idx (preparing c) w sh u =
      ground (arith, prepare-Keeps sys sh c, prepare_pc sys sh c)
  dispatch-IsOrderly target idx (writing c) w sh u =
      ground (arith, write-Keeps sys sh w.dst c, write_pc sys sh w.dst c)
  dispatch-IsOrderly target idx (releasing buf after) w sh u = ground arith
  dispatch-IsOrderly target idx (settling after) w sh u = ground arith
  dispatch-IsOrderly target idx (counting f) w sh u = ground arith
  dispatch-IsOrderly target idx (finalizing f) w sh u = ground (arith, finalize-Keeps sys sh f)
  dispatch-IsOrderly target idx exited w sh u = ground arith

  -- Where a chunk waits, a quiet step brings a worker nearer to it.
  pub toward_chunk :
      (target idx : ℕ) (pc : Pc) (w : Worker) (sh : Shared W)
      → 0 < queued sh
      → 0 < sh.remaining
      → exits pc ≡ 0
      → let (t, v) = dispatch sys target idx pc w sh in
        IsQuiet sh pc t v.pc → to_chunk v.pc < to_chunk pc
  unfolding dispatch release_free push_filled acquire claim pop settle count
  toward_chunk target idx (acquiring false) w sh some_chunk remains here quiet =
      elim (acquire_free_cases sh.rings) [
        | inl e ↦ ground arith
        | inr (buf, rest, free, e) ↦ ground arith
      ]
  toward_chunk target idx (acquiring true) w sh some_chunk remains here quiet =
      elim (acquire_free_cases sh.rings) [
        | inl e ↦ ground arith
        | inr (buf, rest, free, e) ↦ ground arith
      ]
  toward_chunk target idx (popping last) w sh some_chunk remains here quiet =
      elim (pop_filled_cases sh.rings) [
        | inl (empty, e) ↦ ground arith
        | inr (c, rest, filled, e) ↦ ground arith
      ]
  toward_chunk target idx pc w sh some_chunk remains here quiet = ground arith

  -- Where a job waits and the rings are open, a quiet step brings a worker nearer to the free ring; there
  -- it takes a buffer, or finds none.
  pub toward_buffer :
      (target idx : ℕ) (pc : Pc) (w : Worker) (sh : Shared W)
      → queued sh ≡ 0
      → 0 < left sh
      → 0 < sh.remaining
      → sh.rings.is_shutdown ≡ false
      → exits pc ≡ 0
      → let (t, v) = dispatch sys target idx pc w sh in
        IsQuiet sh pc t v.pc
        → (to_buffer v.pc < to_buffer pc) ⊎ (claims v.pc ≡ 1) ⊎ (length sh.rings.free ≡ 0)
  unfolding dispatch release_free push_filled acquire acquire_free claim pop settle count
  toward_buffer target idx (acquiring false) w sh none_queued some_job remains running here quiet =
      ground arith
  toward_buffer target idx (acquiring true) w sh none_queued some_job remains running here quiet =
      ground arith
  toward_buffer target idx (claiming last buf) w sh none_queued some_job remains running here
        quiet =
      elim (Option-cases (get_elem? sh.jobs sh.cursor)) [
        | inl e ↦ ground (arith, drop_end sh.jobs sh.cursor e)
        | inr (j, e) ↦ ground arith
      ]
  toward_buffer target idx (popping false) w sh none_queued some_job remains running here quiet =
      elim (pop_filled_cases sh.rings) [
        | inl (empty, e) ↦ ground arith
        | inr (c, rest, filled, e) ↦ ground arith
      ]
  toward_buffer target idx (popping true) w sh none_queued some_job remains running here quiet =
      elim (pop_filled_cases sh.rings) [
        | inl (empty, e) ↦ ground arith
        | inr (c, rest, filled, e) ↦ ground arith
      ]
  toward_buffer target idx pc w sh none_queued some_job remains running here quiet = ground arith

  -- With a buffer in hand and a job to take, no step is quiet.
  pub claims-loud :
      (target idx : ℕ) (pc : Pc) (w : Worker) (sh : Shared W)
      → claims pc ≡ 1
      → 0 < left sh
      → let (t, v) = dispatch sys target idx pc w sh in IsQuiet sh pc t v.pc → ◌≡◌ {A = ℕ} 1 0
  unfolding dispatch claim
  claims-loud target idx (claiming last buf) w sh has some_job quiet =
      elim (Option-cases (get_elem? sh.jobs sh.cursor)) [
        | inl e ↦ ground (arith, drop_end sh.jobs sh.cursor e)
        | inr (j, e) ↦ ground arith
      ]
  claims-loud target idx pc w sh has some_job quiet = ground arith

  -- Where nothing remains, a step brings a worker nearer to the end.
  pub toward_exit :
      (target idx : ℕ) (pc : Pc) (w : Worker) (sh : Shared W)
      → queued sh ≡ 0
      → left sh ≡ 0
      → sh.remaining ≡ 0
      → weight pc ≡ 0
      → to_exit (dispatch sys target idx pc w sh).1.pc ≤ to_exit pc - 1
  unfolding dispatch release_free push_filled acquire claim pop settle count
  toward_exit target idx (acquiring false) w sh none_queued none_left ended light =
      elim (acquire_free_cases sh.rings) [
        | inl e ↦ ground arith
        | inr (buf, rest, free, e) ↦ ground arith
      ]
  toward_exit target idx pc w sh none_queued none_left ended light = ground arith
