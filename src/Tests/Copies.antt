-- ===== src/Tests/Copies.antt =====
-- A bulk copy of one small file on the disk of whole files.
use b2c_fast_copy.Base.{
  All, ℕ, zero, suc, ◌+◌, ◌*◌, ◌≡◌, refl, true, false, List, [], ◌∷◌, length, arith,
}
use b2c_fast_copy.Device.{round_up}
use b2c_fast_copy.Win.File.{
  overlapped, open_read_unbuffered, open_read_buffered, create_write_unbuffered,
  create_write_buffered, open_write_unbuffered, open_existing_write, read_at, write_at, set_len,
  preallocate, set_valid_data, set_times,
}
use b2c_fast_copy.Rings.{new, acquire_free, release_free, push_filled, pop_filled}
use b2c_fast_copy.Stats.{no_stats, add_read, add_written}
use b2c_fast_copy.Scanner.{FileTask}
use b2c_fast_copy.Engine.Defs.{fail, exited, Worker}
use b2c_fast_copy.Engine.Jobs.{chunk_count, file_jobs, plan_jobs}
use b2c_fast_copy.Engine.Steps.{fail_entry, acquire, claim, pop, settle, count}
use b2c_fast_copy.Engine.Read.{open_source, load, read}
use b2c_fast_copy.Engine.Write.{
  open_dest, create_dest, reserve, create_and_size, prepare_destination, prepare, store, write,
  carry_times, trim, finalize,
}
use b2c_fast_copy.Engine.Worker.{Pipeline, dispatch, step, turn, run}
use b2c_fast_copy.Engine.Bulk.{Setup, start_shared, start, align_of}
use b2c_fast_copy.Engine.Content.Defs.{IsCopyable}
use b2c_fast_copy.Engine.Content.Start.{IsReady, copy_of}
use b2c_fast_copy.Tests.Disk.{Disk, disk, content}

abbrev pub one_file : FileTask
one_file = record { src = 1 ∷ []; dst = 2 ∷ []; size = 3 }

-- Blocks of two bytes, two buffers and two workers.
abbrev pub setup : Setup
setup = record {
  bulk = one_file ∷ [];
  block_size = 2;
  src_alignment = 4096;
  dst_alignment = 4096;
  unbuffered = false;
  fast_preallocate = true;
  manage_volume = false;
  buffers = 2;
  workers = 2;
}

-- Every file has three bytes at first, which its name tells.
abbrev pub disk_0 : Disk
disk_0 path = record { size = 3; byte = λ k. 10 * length path + k + 7 }

abbrev pub memory_0 : ℕ → ℕ → ℕ
memory_0 b k = 99

abbrev pub rounds : ℕ → List (ℕ × ℕ)
rounds zero = []
rounds (suc n) = (1, 0) ∷ (1, 1) ∷ rounds n

abbrev pub finished : Pipeline Disk
finished = run disk (start setup no_stats memory_0 disk_0) (rounds 30)

-- No chunk remains, no error is recorded, and both workers have left.
pub finished_lem :
    (finished.shared.remaining ≡ 0)
    × (finished.shared.errors ≡ [])
    × All (λ (w : Worker). w.pc ≡ exited) finished.workers
unfolding run turn step dispatch acquire claim pop settle count open_source load read open_dest
    create_dest reserve create_and_size prepare_destination prepare store write carry_times trim
    finalize start start_shared plan_jobs file_jobs chunk_count new acquire_free release_free
    push_filled pop_filled fail fail_entry add_read add_written round_up read_at write_at set_len
    preallocate set_valid_data set_times create_write_buffered create_write_unbuffered
    open_read_buffered open_read_unbuffered open_write_unbuffered open_existing_write overlapped
finished_lem = (refl, refl, (refl, (refl, tt)))

pub setup-IsReady : IsReady setup
unfolding align_of plan_jobs file_jobs chunk_count
setup-IsReady = record {
  some_block = omega arith;
  narrow = omega arith;
  aligned = omega arith;
  whole = (2, refl);
  few = omega arith;
  countable = omega arith;
}

pub setup-IsCopyable : IsCopyable (copy_of content setup disk_0)
unfolding align_of
setup-IsCopyable = record {
  apart = λ f g hf hg e.
      let a : f ≡ 0 = omega arith in let b : g ≡ 0 = omega arith in ground (arith, rw (a, b) at e);
  distinct = λ f g hf hg ne e. ne (omega arith);
  sized = λ f h. let a : f ≡ 0 = omega arith in rw a refl;
  small = λ f h. let a : f ≡ 0 = omega arith in rw a (omega arith);
}
