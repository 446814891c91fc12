-- ===== src/Engine/Content/Turn.antt =====
-- A step of a worker, of any kind, keeps what a copy says of the shared data and of the worker.
pub mod Carrying
pub mod Calls
pub mod Arrival
use b2c_fast_copy.Base.{
  ℕ, zero, suc, ◌+◌, ◌%◌, ◌^◌, ◌≤◌, ◌<◌, ◌≡◌, ◌≢◌, ◌⊎◌, inl, inr, refl, sym, ap, subst, ◌∙◌, Bool,
  true, false, Option, none, some, List, [], ◌∷◌, ◌++◌, length, length-append, arith, Bool-cases,
  Option-cases, ◌==◌, All, All-append, All-get_elem?, get_elem?, total, if◌then◌else◌,
}
use native.Mathlib.Nat.{mod-eq_of_lt}
use b2c_fast_copy.Device.{round_up}
use b2c_fast_copy.Win.Defs.{FilePath, Os}
use b2c_fast_copy.Win.FileSystem.{Content, IsFileSystem}
use b2c_fast_copy.Rings.{
  Chunk, acquire_free, release_free, push_filled, pop_filled, acquire_free_cases, pop_filled_cases,
}
use b2c_fast_copy.Engine.Defs.{
  Shared, Job, Pc, After, early, counted, looping, acquiring, claiming, returning, reading, pushing,
  popping, preparing, writing, releasing, settling, counting, finalizing, exited, Worker, update,
}
use b2c_fast_copy.Engine.Steps.{after_read, acquire, claim, pop, settle, count}
use b2c_fast_copy.Engine.Read.{read}
use b2c_fast_copy.Engine.Write.{prepare, write, finalize}
use b2c_fast_copy.Engine.Worker.{dispatch, step}
use b2c_fast_copy.Engine.Worker.Frame.{
  acquire_cases, pop_cases, Keeps, chunk_of, read-Keeps, read_pc, prepare-Keeps, prepare_pc,
  write-Keeps, write_pc, finalize-Keeps,
}
use b2c_fast_copy.Engine.Worker.Conserve.{holds, buf_weight, ringed}
use b2c_fast_copy.Engine.Sound.Exclusive.{is_buf}
use b2c_fast_copy.Engine.Content.Defs.{
  Copy, IsCopyable, IsJob, IsJobOf, IsLoaded, IsCarrying, IsSourced,
}
use b2c_fast_copy.Engine.Content.Data.{read-bytes}
use b2c_fast_copy.Engine.Content.Effect.{
  Effect, read-Effect, prepare-Effect, write-Effect, finalize-Effect, read-memory, prepare-memory,
  write-memory, finalize-memory, prepare_prepared,
}
use b2c_fast_copy.Engine.Content.Steps.{
  IsLoaded-memory, read-IsSourced, prepare-IsSourced, write-IsSourced, finalize-IsSourced,
}

-- The buffer of a worker that reads is not in the filled ring.
abbrev pub IsAlone : {W : Type 0} → Shared W → Pc → Type 0
IsAlone sh (reading buf job) = total (buf_weight (is_buf buf)) sh.rings.filled ≡ 0
IsAlone sh _ = Unit

module _ {W : Type 0} (sys : Os W) (content : W → FilePath → Content)
    (laws : IsFileSystem sys content) (c : Copy) (ok : IsCopyable c) where
  -- A ring operation or a count changes neither tasks nor files.
  pub dispatch-IsSourced :
      (target idx : ℕ) (pc : Pc) (w : Worker) (sh : Shared W)
      → IsAlone sh pc
      → IsCarrying c sh pc
      → IsSourced content c sh
      → IsSourced content c (dispatch sys target idx pc w sh).0
  unfolding dispatch claim settle count release_free push_filled
  dispatch-IsSourced target idx looping w sh a k s = s
  dispatch-IsSourced target idx (acquiring last) w sh a k s = elim (acquire_cases sh last) [
    | inl e ↦ rw e (record {
      tasks = s.tasks;
      aligned = s.aligned;
      jobs = s.jobs;
      sources = s.sources;
      ring = s.ring;
    })
    | inr (buf, rest, free, e) ↦ rw e (record {
      tasks = s.tasks;
      aligned = s.aligned;
      jobs = s.jobs;
      sources = s.sources;
      ring = s.ring;
    })
  ]
  dispatch-IsSourced target idx (claiming last buf) w sh a k s = record {
    tasks = s.tasks;
    aligned = s.aligned;
    jobs = s.jobs;
    sources = s.sources;
    ring = s.ring;
  }
  dispatch-IsSourced target idx (returning last buf) w sh a k s = record {
    tasks = s.tasks;
    aligned = s.aligned;
    jobs = s.jobs;
    sources = s.sources;
    ring = s.ring;
  }
  dispatch-IsSourced target idx (reading buf job) w sh a k s =
      read-IsSourced sys content laws c ok sh w.src buf job a s
  dispatch-IsSourced target idx (pushing ch) w sh a k s = record {
    tasks = s.tasks;
    aligned = s.aligned;
    jobs = s.jobs;
    sources = s.sources;
    ring = All-append (IsLoaded c sh.memory) sh.rings.filled (ch ∷ []) s.ring (k, tt);
  }
  dispatch-IsSourced target idx (popping last) w sh a k s = elim (pop_cases sh last) [
    | inl (empty, e) ↦ rw e (record {
      tasks = s.tasks;
      aligned = s.aligned;
      jobs = s.jobs;
      sources = s.sources;
      ring = s.ring;
    })
    | inr (ch, rest, filled, e) ↦ rw e (record {
      tasks = s.tasks;
      aligned = s.aligned;
      jobs = s.jobs;
      sources = s.sources;
      ring = (rw filled at s.ring).1;
    })
  ]
  dispatch-IsSourced target idx (preparing ch) w sh a k s =
      prepare-IsSourced sys content laws c ok sh ch k.job.known s
  dispatch-IsSourced target idx (writing ch) w sh a k s =
      write-IsSourced sys content laws c ok sh w.dst ch k.0.job.known s
  dispatch-IsSourced target idx (releasing buf after) w sh a k s = record {
    tasks = s.tasks;
    aligned = s.aligned;
    jobs = s.jobs;
    sources = s.sources;
    ring = s.ring;
  }
  dispatch-IsSourced target idx (settling after) w sh a k s = record {
    tasks = s.tasks;
    aligned = s.aligned;
    jobs = s.jobs;
    sources = s.sources;
    ring = s.ring;
  }
  dispatch-IsSourced target idx (counting f) w sh a k s = record {
    tasks = λ g. ground (arith, s.tasks g, s.tasks f);
    aligned = s.aligned;
    jobs = s.jobs;
    sources = s.sources;
    ring = s.ring;
  }
  dispatch-IsSourced target idx (finalizing f) w sh a k s =
      finalize-IsSourced sys content laws c ok sh f k s
  dispatch-IsSourced target idx exited w sh a k s = s
