-- ===== src/Engine/Small.antt =====
-- `run_small` of crates/b2c-engine/src/engine.rs: small files go through the platform's copy, one after
-- the other on each thread.
pub mod Copies
use b2c_fast_copy.Base.{ℕ, List, [], ◌∷◌, ◌++◌, length, ltb, min, if◌then◌else◌}
use b2c_fast_copy.Win.Defs.{FilePath, Reply}
use b2c_fast_copy.Win.Std.{Std}
use b2c_fast_copy.Stats.{Stats, count_up, add_read, add_written}
use b2c_fast_copy.Scanner.{FileTask}
use b2c_fast_copy.Engine.Defs.{Message}
use b2c_fast_copy.Engine.Claims.{Pool, start_pool, run}

-- A line of the error list of a run: of the bulk copy, of the small files, or of the verification.
pub data Line : Type 0 where
  bulk : Message → Line
  not_copied : (src : FilePath) (code : ℕ) → Line
  mismatch : (dst : FilePath) → Line
  unreadable : (dst : FilePath) → Line

-- What the threads share, with the state of the operating system.
pub record Small (W : Type 0) : Type 0 where
  pub bytes : ℕ
  pub stats : Stats
  pub errors : List Line
  pub os : W

abbrev pub count_copied : Stats → ℕ → Stats
count_copied stats n =
    let moved = add_read (add_written stats n) n in
    record moved {
      files_done = count_up moved.files_done 1;
      small_files_done = count_up moved.small_files_done 1;
    }

module _ {W : Type 0} where
  -- The arms of the `match` on the outcome of `std::fs::copy`.
  unfoldable pub tell : FileTask → Reply ℕ → Small W → Small W
  unfolding add_read add_written
  tell t (Reply.done n) s = record s { bytes = count_up s.bytes n; stats = count_copied s.stats n }
  tell t (Reply.failed code) s = record s {
    stats = record s.stats { errors = count_up s.stats.errors 1 };
    errors = if ltb (length s.errors) 64 then s.errors ++ not_copied t.src code ∷ [] else s.errors;
  }

  unfoldable pub copy : Std W → FileTask → Small W → Small W × Reply ℕ
  copy fs t s = let (w, reply) = fs.copy s.os t.src t.dst in (record s { os = w }, reply)

  unfoldable pub run_small :
      Std W
      → (workers : ℕ) → List FileTask
      → Stats
      → W
      → (schedule : List ℕ) → Pool FileTask (Reply ℕ) (Small W)
  run_small fs workers small stats os schedule =
      run small (copy fs) tell
        (start_pool (min workers 16) (record { bytes = 0; stats = stats; errors = []; os = os }))
        schedule
