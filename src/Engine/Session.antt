-- ===== src/Engine/Session.antt =====
-- `Copier::run` of crates/b2c-engine/src/engine.rs: a whole copy, from the plan to its outcome.
pub mod Stops
pub mod Single
pub mod Parts
pub mod Dealt
pub mod Complete
pub mod Fair
use b2c_fast_copy.Base.{
  ℕ, ◌+◌, ◌-◌, ◌%◌, ◌^◌, Bool, true, false, Option, none, some, List, [], ◌∷◌, ◌++◌, map, length,
  ltb, ◌==◌, if◌then◌else◌,
}
use b2c_fast_copy.Win.Defs.{FilePath, Error, Result, ok, err, Reply, Os}
use b2c_fast_copy.Win.File
use b2c_fast_copy.Win.Std.{Std}
use b2c_fast_copy.Arena
use b2c_fast_copy.Arena.{Arena, Memory, Allocation}
use b2c_fast_copy.Stats.{Stats, count_up}
use b2c_fast_copy.Scanner.{FileTask, Plan, file_count}
use b2c_fast_copy.Engine.Defs.{Message}
use b2c_fast_copy.Engine.Worker
use b2c_fast_copy.Engine.Worker.{Pipeline}
use b2c_fast_copy.Engine.Bulk.{Setup, start}
use b2c_fast_copy.Engine.Copier.{Copier, setup_of}
use b2c_fast_copy.Engine.Claims.{Pool}
use b2c_fast_copy.Engine.Small.{Line, Small, run_small}
use b2c_fast_copy.Engine.Verify.{Hasher, Verdict, Verified, run_verify}

-- The time that a run takes is left out.
pub record Outcome : Type 0 where
  pub files : ℕ
  pub files_expected : ℕ
  pub bytes : ℕ
  pub errors : List Line
  pub arena_bytes : ℕ
  pub large_pages : Bool
  pub verified : ℕ

-- `Outcome::default`.
abbrev pub no_outcome : Outcome
no_outcome = record {
  files = 0;
  files_expected = 0;
  bytes = 0;
  errors = [];
  arena_bytes = 0;
  large_pages = false;
  verified = 0;
}

-- The errors that end a run.
pub data Failure : Type 0 where
  not_scanned : Failure
  too_large : (free needed : ℕ) → Failure
  no_directory : (path : FilePath) (code : ℕ) → Failure
  not_writable : (probe : FilePath) (error : Error) → Failure
  no_arena : Failure
  panicked : Failure

-- `Result<Outcome>`
pub data Ended : Type 0 where
  finished : Outcome → Ended
  stopped : Failure → Ended

-- What a run changes: the state of the operating system, and the counters of the copier.
pub record Session (W : Type 0) : Type 0 where
  pub os : W
  pub stats : Stats

-- What a run is given from outside: the calls of the system and of the libraries, the path of the probe
-- in a directory, what the arena holds at first, and the fuel for hashing.
pub record Rig (W H : Type 0) : Type 0 where
  pub sys : Os W
  pub fs : Std W
  pub hasher : Hasher H
  pub memory : Memory
  pub probe_in : FilePath → FilePath
  pub arena_bytes : ℕ → ℕ → ℕ
  pub fuel : ℕ

-- The order in which threads move, in the three parts of a run.
pub record Schedules : Type 0 where
  pub bulk : List (ℕ × ℕ)
  pub small : List ℕ
  pub verify : List ℕ

abbrev pub dir_or : List FilePath → FilePath → FilePath
dir_or [] dst = dst
dir_or (d ∷ ds) dst = d

module _ {W H : Type 0} (rig : Rig W H) (c : Copier) where
  -- The loop over the directories of the plan stops at the first that cannot be made.
  unfoldable pub make_dirs : List FilePath → W → W × Option Failure
  make_dirs [] w = (w, none)
  make_dirs (d ∷ ds) w =
      let (w', made) = rig.fs.create_dir_all w d in
      let rest = make_dirs ds w' in
      elim made [
        | Reply.done _ ↦ rest
        | Reply.failed code ↦ (w', some (Failure.no_directory d code))
      ]

  abbrev pub probe_of : Plan → FilePath
  probe_of plan = rig.probe_in (dir_or plan.dirs c.dst)

  unfoldable pub preflight_destination : Plan → W → W × Option Failure
  preflight_destination plan w =
      let (w', opened) =
        if c.opts.unbuffered
        then File.create_write_unbuffered rig.sys w (probe_of plan)
        else File.create_write_buffered rig.sys w (probe_of plan) in
      elim opened [
        | ok _ ↦ ((rig.fs.remove_file w' (probe_of plan)).0, none)
        | err e ↦ (w', some (Failure.not_writable (probe_of plan) e))
      ]

  -- The set-up with the buffers of the arena that was made.
  abbrev pub setup_with : Plan → Arena → Setup
  setup_with plan arena = record (setup_of c plan.bulk) { buffers = arena.count }

  unfoldable pub bulk_copy : Plan → Arena → List (ℕ × ℕ) → Session W → Pipeline W
  bulk_copy plan arena schedule s =
      Worker.run rig.sys (start (setup_with plan arena) s.stats rig.arena_bytes s.os) schedule

  unfoldable pub allocate : Allocation
  allocate = Arena.new rig.memory c.arena_bytes c.block_size c.privs.lock_memory

  -- What `run_bulk` adds to the outcome. `bytes_written` is compared with its value before.
  unfoldable pub bulk_outcome : Arena → Pipeline W → (before : ℕ) → Outcome → Outcome
  bulk_outcome arena p before o = record o {
    bytes = count_up o.bytes ((p.shared.stats.bytes_written + 2 ^ 64 - before) % 2 ^ 64);
    errors = o.errors ++ map Line.bulk p.shared.errors;
    arena_bytes = Arena.total_bytes arena;
    large_pages = arena.large_pages;
  }

  abbrev pub run_bulk :
      Plan → List (ℕ × ℕ) → Session W → Outcome → Allocation → Session W × Outcome × Option Failure
  run_bulk plan schedule s o (Allocation.made arena) =
      let p = bulk_copy plan arena schedule s in
      (
        record { os = p.shared.os; stats = p.shared.stats },
        bulk_outcome arena p s.stats.bytes_written o,
        none,
      )
  run_bulk plan schedule s o Allocation.refused = (s, o, some Failure.no_arena)
  run_bulk plan schedule s o Allocation.panicked = (s, o, some Failure.panicked)

  -- The bulk copy, unless there is nothing to copy.
  abbrev pub bulk_part :
      Plan → List (ℕ × ℕ) → Session W → Outcome → Session W × Outcome × Option Failure
  bulk_part plan schedule s o =
      if length plan.bulk == 0 then (s, o, none) else run_bulk plan schedule s o allocate

  abbrev pub small_pool : Plan → List ℕ → Session W → Pool FileTask (Reply ℕ) (Small W)
  small_pool plan schedule s = run_small rig.fs c.workers plan.small s.stats s.os schedule

  -- The small files, unless there are none.
  unfoldable pub small_part : Plan → List ℕ → Session W → Outcome → Session W × Outcome
  small_part plan schedule s o =
      if length plan.small == 0
      then (s, o)
      else (let end = (small_pool plan schedule s).shared in
          (
            record { os = end.os; stats = end.stats },
            record o { bytes = count_up o.bytes end.bytes; errors = o.errors ++ end.errors },
          ))

  abbrev pub verify_pool : Plan → List ℕ → Session W → Pool FileTask Verdict Verified
  verify_pool plan schedule s = run_verify rig.fs rig.hasher rig.fuel s.os c.workers plan schedule

  -- The counts of the files, and the verification if it is asked for.
  unfoldable pub conclude : Plan → List ℕ → Session W → Outcome → Outcome
  conclude plan schedule s o =
      let counted = record o { files = s.stats.files_done; files_expected = file_count plan } in
      if c.opts.verify
      then (let end = (verify_pool plan schedule s).shared in
          record counted { verified = end.ok; errors = o.errors ++ end.bad })
      else counted

  -- The copy, once the destination is known to be writable.
  unfoldable pub copy_plan : Plan → Schedules → Session W → Session W × Ended
  copy_plan plan schedules s =
      let (s1, o1, failure) = bulk_part plan schedules.bulk s no_outcome in
      elim failure [
        | some f ↦ (s1, stopped f)
        | none ↦
            let (s2, o2) = small_part plan schedules.small s1 o1 in
            (s2, finished (conclude plan schedules.verify s2 o2))
      ]

  -- The directories and the probe come before any data moves.
  unfoldable pub prepare_tree : Plan → W → W × Option Failure
  prepare_tree plan w =
      let (w1, failure) = make_dirs plan.dirs w in
      elim failure [ some f ↦ (w1, some f) | none ↦ preflight_destination plan w1 ]

  unfoldable pub copy_tree : Plan → Schedules → Session W → Session W × Ended
  copy_tree plan schedules s =
      let (w, failure) = prepare_tree plan s.os in
      elim failure [
        | some f ↦ (record s { os = w }, stopped f)
        | none ↦ copy_plan plan schedules (record s { os = w })
      ]

  abbrev pub with_totals : Plan → Session W → Session W
  with_totals plan s = record s {
    stats = record s.stats { bytes_total = plan.total_bytes; files_total = file_count plan };
  }

  abbrev pub dry_outcome : Plan → Outcome
  dry_outcome plan = record no_outcome {
    files = file_count plan;
    files_expected = file_count plan;
    bytes = plan.total_bytes;
  }

  -- `run`, once `scan` has given its plan.
  unfoldable pub run : Option Plan → Schedules → Session W → Session W × Ended
  run none schedules s = (s, stopped Failure.not_scanned)
  run (some plan) schedules s =
      if ltb c.dst_dev.volume.free_bytes plan.total_bytes
      then (
        with_totals plan s,
        stopped (Failure.too_large c.dst_dev.volume.free_bytes plan.total_bytes),
      )
      else if c.opts.dry_run
      then (with_totals plan s, finished (dry_outcome plan))
      else copy_tree plan schedules (with_totals plan s)
