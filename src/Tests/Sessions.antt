-- ===== src/Tests/Sessions.antt =====
-- The theorems on whole runs, for the plan of Tests/Plans.antt.
use b2c_fast_copy.Base.{
  ℕ, flat, ◌%◌, ◌+◌, ◌^◌, ◌<◌, ◌≡◌, ◌≢◌, refl, subst, false, some, [], ◌∷◌, ◌++◌, length, arith,
  All,
}
use b2c_fast_copy.Win.Defs.{FilePath}
use b2c_fast_copy.Arena.{Arena, Memory}
use b2c_fast_copy.Stats.{no_stats}
use b2c_fast_copy.Engine.Copier.{Copier}
use b2c_fast_copy.Engine.Session.{Failure, finished, stopped, run}
use b2c_fast_copy.Engine.Session.Stops.{run_stopped}
use b2c_fast_copy.Engine.Session.Parts.{AreCopied}
use b2c_fast_copy.Engine.Session.Complete.{HasEnded, prepared, run_complete}
use b2c_fast_copy.Arena
use b2c_fast_copy.Arena.{total_bytes}
use b2c_fast_copy.Device.{round_up}
use b2c_fast_copy.Win.File.{
  overlapped, open_read_unbuffered, open_read_buffered, create_write_unbuffered,
  create_write_buffered, open_write_unbuffered, open_existing_write, read_at, write_at, set_len,
  preallocate, set_valid_data, set_times,
}
use b2c_fast_copy.Rings
use b2c_fast_copy.Rings.{acquire_free, release_free, push_filled, pop_filled}
use b2c_fast_copy.Stats.{add_read, add_written}
use b2c_fast_copy.Scanner.{file_count}
use b2c_fast_copy.Engine.Defs.{fail, exited, Worker}
use b2c_fast_copy.Engine.Jobs.{chunk_count, file_jobs, plan_jobs}
use b2c_fast_copy.Engine.Steps.{fail_entry, acquire, claim, pop, settle, count}
use b2c_fast_copy.Engine.Read.{open_source, load, read}
use b2c_fast_copy.Engine.Write.{
  open_dest, create_dest, reserve, create_and_size, prepare_destination, prepare, store, write,
  carry_times, trim, finalize,
}
use b2c_fast_copy.Engine.Worker
use b2c_fast_copy.Engine.Worker.{dispatch, step}
use b2c_fast_copy.Engine.Bulk.{start_shared, start}
use b2c_fast_copy.Engine.Copier.{setup_of}
use b2c_fast_copy.Engine.Claims
use b2c_fast_copy.Engine.Small.{copy, tell, run_small}
use b2c_fast_copy.Engine.Session.{
  copy_tree, prepare_tree, make_dirs, preflight_destination, copy_plan, allocate, conclude,
  bulk_copy, bulk_outcome, small_part,
}
use b2c_fast_copy.Engine.Session.Fair.{fair-HasEnded}
use b2c_fast_copy.Tests.Runs.{alternating, alternating-IsRound}
use b2c_fast_copy.Tests.Pools.{turns, turns-IsRound}
use b2c_fast_copy.Tests.Disk.{content, disk-IsFileSystem, std-IsStd}
use b2c_fast_copy.Tests.Copies.{disk_0}
use b2c_fast_copy.Engine.Session.Single.{IsAlone, run-IsAlone}
use b2c_fast_copy.Tests.Scans.{options, single, single_lem}
use b2c_fast_copy.Tests.Plans.{
  rig, device, copier, plan, schedules, begun, outcome, plan-IsSuitable,
}

pub outcome_lem : (run rig copier (some plan) schedules begun).1 ≡ finished outcome
unfolding run copy_tree prepare_tree make_dirs preflight_destination copy_plan allocate conclude
    bulk_copy bulk_outcome small_part run_small copy tell Claims.run Claims.turn Arena.new
    total_bytes setup_of file_count Worker.run Worker.turn step dispatch acquire claim pop settle
    count open_source load read open_dest create_dest reserve create_and_size prepare_destination
    prepare store write carry_times trim finalize start start_shared plan_jobs file_jobs chunk_count
    Rings.new acquire_free release_free push_filled pop_filled fail fail_entry add_read add_written
    round_up read_at write_at set_len preallocate set_valid_data set_times create_write_buffered
    create_write_unbuffered open_read_buffered open_read_unbuffered open_write_unbuffered
    open_existing_write overlapped
outcome_lem = refl

abbrev arena : Arena
arena = record { base = 4096; block = 2; count = 4; large_pages = false }

pub plan-HasEnded : HasEnded rig copier content plan schedules begun
unfolding run copy_tree prepare_tree make_dirs preflight_destination copy_plan allocate conclude
    bulk_copy bulk_outcome small_part run_small copy tell Claims.run Claims.turn Arena.new
    total_bytes setup_of file_count Worker.run Worker.turn step dispatch acquire claim pop settle
    count open_source load read open_dest create_dest reserve create_and_size prepare_destination
    prepare store write carry_times trim finalize start start_shared plan_jobs file_jobs chunk_count
    Rings.new acquire_free release_free push_filled pop_filled fail fail_entry add_read add_written
    round_up read_at write_at set_len preallocate set_valid_data set_times create_write_buffered
    create_write_unbuffered open_read_buffered open_read_unbuffered open_write_unbuffered
    open_existing_write overlapped
plan-HasEnded = record {
  few = omega arith;
  bulk = λ a made.
      let same : arena ≡ a = cc in
      subst
        (λ (b : Arena).
          let p =
            bulk_copy rig copier plan b schedules.bulk (prepared rig copier content plan begun) in
          (p.shared.remaining ≡ 0) × All (λ (w : Worker). w.pc ≡ exited) p.workers)
        same (refl, (refl, (refl, tt)));
  small = (refl, (refl, tt));
}

fair-HasEnded_example :
    HasEnded rig copier content plan
      (record { bulk = flat (alternating 149); small = flat (turns 5); verify = [] })
      begun
unfolding plan_jobs file_jobs chunk_count allocate Arena.new
fair-HasEnded_example =
    fair-HasEnded rig copier content plan begun (alternating 149) (turns 5) [] (omega arith)
      (omega arith)
      (λ a made.
        let same : arena ≡ a = cc in subst (λ (b : Arena). 0 < b.count % 2 ^ 32) same (omega arith))
      (record {
        bulk_rounds = alternating-IsRound 149;
        bulk_enough = omega arith;
        few = omega arith;
        small_rounds = turns-IsRound 5;
        small_enough = omega arith;
      })

run_complete_example :
    (◌≡◌ {A = ℕ} 2 2)
    × (2 ≡ length plan.bulk + length plan.small)
    × AreCopied content
        (plan.bulk ++ plan.small)
        disk_0
        (run rig copier (some plan) schedules begun).0.os
run_complete_example =
    run_complete rig copier content disk-IsFileSystem std-IsStd plan schedules begun plan-IsSuitable
      plan-HasEnded outcome refl outcome_lem refl

-- The same copy on a disk with too little space.
abbrev cramped : Copier
cramped = record copier {
  dst_dev = record device {
    volume = record {
      root = [];
      bytes_per_sector = 512;
      bytes_per_cluster = 4096;
      free_bytes = 5;
      disks = [];
    };
  };
}

run_stopped_example :
    ((run rig cramped (some plan) schedules begun).0.stats
      ≡ record no_stats { bytes_total = 6; files_total = 2 })
    × ((q : FilePath)
        → q ≢ 9 ∷ 6 ∷ []
        → content (run rig cramped (some plan) schedules begun).0.os q ≡ content disk_0 q)
unfolding run file_count
run_stopped_example =
    run_stopped rig cramped content disk-IsFileSystem std-IsStd plan schedules begun
      (Failure.too_large 5 6) refl

-- Twelve bytes, where five are free.
run-IsAlone_example :
    IsAlone options (1 ∷ []) (2 ∷ []) false 12 single
    × ((run rig cramped (some single) schedules begun).1 ≢ stopped (Failure.too_large 5 12))
run-IsAlone_example =
    run-IsAlone rig cramped options (1 ∷ []) (2 ∷ []) false 12 single schedules begun 5 12
      single_lem
