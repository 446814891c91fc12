-- ===== src/Tests/Runs.antt =====
-- The theorems on bulk copies, at the copy of one small file.
use b2c_fast_copy.Base.{
  ℕ, ◌%◌, ◌^◌, ◌<◌, ◌≡◌, ◌≢◌, ◌⊎◌, inr, refl, false, some, List, [], ◌∷◌, length, drop, arith,
  total, All, flat, zero, suc,
}
use b2c_fast_copy.Rings
use b2c_fast_copy.Rings.{acquire_free}
use b2c_fast_copy.Stats.{no_stats}
use b2c_fast_copy.Engine.Defs.{Worker, looping, claiming, exited}
use b2c_fast_copy.Engine.Jobs.{chunk_count, file_jobs, plan_jobs}
use b2c_fast_copy.Engine.Jobs.Cover.{covers, plan_jobs-cover}
use b2c_fast_copy.Engine.Jobs.Shape.{IsPlanned, plan_jobs-IsPlanned}
use b2c_fast_copy.Engine.Steps.{acquire}
use b2c_fast_copy.Engine.Worker.{Pipeline, dispatch, step, turn, run}
use b2c_fast_copy.Engine.Worker.Conserve.{ringed}
use b2c_fast_copy.Engine.Bulk.{start, start_shared}
use b2c_fast_copy.Engine.Sound.{IsSound, held_by, busy_at, reach-IsSound}
use b2c_fast_copy.Engine.Sound.Exclusive.{is_buf, buffer_of, run-exclusive}
use b2c_fast_copy.Engine.Sound.Progress.{one, IsTaking, run-can_move, fall_through}
use b2c_fast_copy.Engine.Content.Start.{run-copies}
use b2c_fast_copy.Engine.Closing.Finish.{run-finishes}
use b2c_fast_copy.Engine.Closing.Done.{run-counts}
use b2c_fast_copy.Engine.Fair.Rounds.{IsRound}
use b2c_fast_copy.Engine.Fair.Ends.{run-ends}
use b2c_fast_copy.Tests.Disk.{Disk, disk, content, disk-IsFileSystem}
use b2c_fast_copy.Tests.Copies.{
  one_file, setup, disk_0, memory_0, rounds, finished, finished_lem, setup-IsReady,
  setup-IsCopyable,
}

run-copies_example : (finished.shared.os (2 ∷ [])).byte 2 ≡ (disk_0 (1 ∷ [])).byte 2
run-copies_example =
    run-copies disk content disk-IsFileSystem setup no_stats memory_0 disk_0 (rounds 30)
      (omega arith) setup-IsReady setup-IsCopyable finished_lem.0 finished_lem.1 0 2 (omega arith)
      (omega arith)

run-finishes_example :
    ((finished.shared.os (2 ∷ [])).size ≡ 3)
    × ((k : ℕ) → k < 3 → (finished.shared.os (2 ∷ [])).byte k ≡ (disk_0 (1 ∷ [])).byte k)
run-finishes_example =
    run-finishes disk content disk-IsFileSystem setup no_stats memory_0 disk_0 (rounds 30)
      (omega arith) setup-IsReady setup-IsCopyable finished_lem.0 finished_lem.1 finished_lem.2 0
      (omega arith)

-- Each round gives both workers a turn.
abbrev pub alternating : ℕ → List (List (ℕ × ℕ))
alternating zero = []
alternating (suc n) = ((1, 0) ∷ (1, 1) ∷ []) ∷ alternating n

pub alternating-IsRound : (n : ℕ) → All (IsRound 2) (alternating n)
alternating-IsRound zero = tt
alternating-IsRound (suc n) = (λ i lt. ground arith, alternating-IsRound n)

run-ends_example :
    let p = run disk (start setup no_stats memory_0 disk_0) (flat (alternating 149)) in
    (p.shared.remaining ≡ 0) × All (λ (w : Worker). w.pc ≡ exited) p.workers
unfolding plan_jobs file_jobs chunk_count
run-ends_example =
    run-ends disk setup no_stats memory_0 disk_0 (alternating 149) (omega arith) (omega arith)
      (omega arith) (omega arith) (alternating-IsRound 149) (omega arith)

run-counts_example : (finished.shared.stats.files_done ≡ 1) × (finished.shared.stats.errors ≡ 0)
run-counts_example =
    run-counts disk content disk-IsFileSystem setup no_stats memory_0 disk_0 (rounds 30)
      (omega arith) setup-IsReady setup-IsCopyable (omega arith) finished_lem.0 finished_lem.1
      finished_lem.2

few_jobs : length (plan_jobs setup.block_size 0 setup.bulk) < 2 ^ 64
unfolding plan_jobs file_jobs chunk_count
few_jobs = omega arith

reach-IsSound_example : IsSound (setup.buffers % 2 ^ 32) 0 finished
reach-IsSound_example =
    reach-IsSound disk setup no_stats memory_0 disk_0 (rounds 30) (omega arith) few_jobs

-- Both workers read at first, and each has taken a buffer.
abbrev both_read : List (ℕ × ℕ)
both_read = (2, 0) ∷ (2, 0) ∷ (2, 1) ∷ (2, 1) ∷ []

abbrev reader_with : ℕ → Worker
reader_with buf = record { pc = claiming false buf; src = []; dst = [] }

run-exclusive_example :
    (1 < setup.buffers % 2 ^ 32)
    × (ringed (is_buf 1) (run disk (start setup no_stats memory_0 disk_0) both_read).shared ≡ 0)
    × (buffer_of (claiming false 0) ≢ some 1)
unfolding run turn step dispatch acquire acquire_free start start_shared Rings.new plan_jobs
run-exclusive_example =
    run-exclusive disk setup no_stats memory_0 disk_0 both_read 0 1 1 (reader_with 1)
      (reader_with 0) (omega arith) few_jobs refl refl (omega arith) refl

-- At the start two jobs wait, and two buffers are free.
abbrev begun : Pipeline Disk
begun = start setup no_stats memory_0 disk_0

run-can_move_example :
    (0 < total (held_by one) begun.workers)
    ⊎ (0 < total busy_at begun.workers)
    ⊎ (0 < length begun.shared.rings.filled)
    ⊎ ((0 < length (drop begun.shared.cursor begun.shared.jobs))
        × (0 < total one begun.shared.rings.free))
unfolding run start start_shared plan_jobs file_jobs chunk_count
run-can_move_example =
    run-can_move disk setup no_stats memory_0 disk_0 [] (omega arith) few_jobs (omega arith)
      (omega arith)

-- A worker that is told to write finds nothing, and reads.
fall_through_example :
    IsTaking disk 0 0 5 (begun.shared, record { pc = looping; src = []; dst = [] })
unfolding start start_shared Rings.new plan_jobs file_jobs chunk_count
fall_through_example =
    fall_through disk 0 0 begun.shared (record { pc = looping; src = []; dst = [] }) refl
      (omega arith) refl (inr (omega arith, omega arith))

plan_jobs-cover_example : total (covers 0 2) (plan_jobs 2 0 (one_file ∷ [])) ≡ 1
plan_jobs-cover_example =
    plan_jobs-cover 2 (omega arith) (omega arith) 0 (one_file ∷ []) 0 one_file 2 (omega arith) refl
      (omega arith)

plan_jobs-IsPlanned_example : All (IsPlanned 2 1 0 (one_file ∷ [])) (plan_jobs 2 0 (one_file ∷ []))
plan_jobs-IsPlanned_example =
    plan_jobs-IsPlanned 2 1 (omega arith) (2, refl) (omega arith) (omega arith) 0 (one_file ∷ [])
      (omega arith)
