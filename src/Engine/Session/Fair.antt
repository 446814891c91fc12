-- ===== src/Engine/Session/Fair.antt =====
-- The threads of a run end, in schedules that let every thread move.
use b2c_fast_copy.Base.{ℕ, ◌+◌, ◌*◌, ◌%◌, ◌^◌, ◌≤◌, ◌<◌, ◌≡◌, min, List, length, flat, All}
use b2c_fast_copy.Win.FileSystem.{Content}
use b2c_fast_copy.Win.Defs.{FilePath}
use b2c_fast_copy.Arena.{Arena, Allocation}
use b2c_fast_copy.Scanner.{Plan}
use b2c_fast_copy.Engine.Jobs.{plan_jobs}
use b2c_fast_copy.Engine.Copier.{Copier, setup_of}
use b2c_fast_copy.Engine.Claims.Ends
use b2c_fast_copy.Engine.Small.{copy, tell, run_small}
use b2c_fast_copy.Engine.Fair.Rounds.{IsRound}
use b2c_fast_copy.Engine.Fair.Ends.{run-ends}
use b2c_fast_copy.Engine.Session.{Session, Rig, setup_with, bulk_copy, allocate}
use b2c_fast_copy.Engine.Session.Complete.{HasEnded, prepared}

module _ {W H : Type 0} (rig : Rig W H) (c : Copier) (content : W → FilePath → Content) where
  -- A schedule in rounds: in each round of the bulk copy, and in each of the small files, every thread has a
  -- turn. There are enough of them, and fewer than 2 ^ 64 turns in all.
  pub record IsFair (plan : Plan) (bulk : List (List (ℕ × ℕ))) (small : List (List ℕ))
      : Type 0 where
    pub bulk_rounds : All (IsRound c.workers) bulk
    pub bulk_enough : 72 * length (plan_jobs c.block_size 0 plan.bulk) + 5 ≤ length bulk
    pub few : length (flat bulk) < 2 ^ 64
    pub small_rounds : All (Ends.IsRound (min c.workers 16)) small
    pub small_enough : 3 * length plan.small + min c.workers 16 ≤ length small

  -- The threads of the bulk copy and of the small files have ended after every fair schedule, whatever the
  -- calls of the system answer. This holds for at least one worker, fewer than 2 ^ 64 jobs and an arena with a
  -- buffer.
  pub fair-HasEnded :
      (plan : Plan) (s : Session W) (bulk : List (List (ℕ × ℕ))) (small : List (List ℕ))
      (verify : List ℕ)
      → 0 < c.workers
      → length (plan_jobs c.block_size 0 plan.bulk) < 2 ^ 64
      → ((arena : Arena) → allocate rig c ≡ Allocation.made arena → 0 < arena.count % 2 ^ 32)
      → IsFair plan bulk small
      → HasEnded rig c content plan
          (record { bulk = flat bulk; small = flat small; verify = verify })
          s
  unfolding bulk_copy setup_of run_small
  fair-HasEnded plan s bulk small verify some_worker fits some_buffer fair = record {
    few = fair.few;
    bulk = λ arena made.
        run-ends rig.sys (setup_with rig c plan arena) (prepared rig c content plan s).stats
          rig.arena_bytes (prepared rig c content plan s).os bulk some_worker
          (some_buffer arena made) fits fair.few fair.bulk_rounds fair.bulk_enough;
    small =
        Ends.run-IsLeft plan.small (copy rig.fs) tell (min c.workers 16) _ small fair.small_rounds
          fair.small_enough;
  }
