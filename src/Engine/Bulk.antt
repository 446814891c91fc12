-- ===== src/Engine/Bulk.antt =====
-- The set-up of `run_bulk` in crates/b2c-engine/src/engine.rs: from a plan to the shared data and the
-- workers at the start.
use b2c_fast_copy.Base.{ℕ, zero, suc, Bool, ◌&&◌, List, [], ◌∷◌, length, max, if◌then◌else◌}
use b2c_fast_copy.Rings
use b2c_fast_copy.Stats.{Stats}
use b2c_fast_copy.Scanner.{FileTask}
use b2c_fast_copy.Engine.Defs.{Entry, Shared, Worker, looping}
use b2c_fast_copy.Engine.Jobs.{plan_jobs, entry_of}
use b2c_fast_copy.Engine.Worker.{Pipeline}

-- What `run_bulk` takes from the copier, its options and privileges, and the arena.
pub record Setup : Type 0 where
  pub bulk : List FileTask
  pub block_size : ℕ
  pub src_alignment : ℕ
  pub dst_alignment : ℕ
  pub unbuffered : Bool
  pub fast_preallocate : Bool
  pub manage_volume : Bool
  pub buffers : ℕ
  pub workers : ℕ

-- Sector alignment binds unbuffered I/O only.
unfoldable pub align_of : Setup → ℕ
align_of s = if s.unbuffered then max s.src_alignment s.dst_alignment else 1

-- The vector of entries by index. No job names an index past its end.
abbrev pub entry_at : (block : ℕ) → List FileTask → ℕ → Entry
entry_at block [] i = entry_of block (record { src = []; dst = []; size = 0 })
entry_at block (t ∷ ts) zero = entry_of block t
entry_at block (t ∷ ts) (suc i) = entry_at block ts i

abbrev pub idle_workers : ℕ → List Worker
idle_workers zero = []
idle_workers (suc n) = record { pc = looping; src = []; dst = [] } ∷ idle_workers n

-- `memory` is what the arena holds at first, and `os` the state of the operating system.
unfoldable pub start_shared : {W : Type 0} → Setup → Stats → (ℕ → ℕ → ℕ) → W → Shared W
unfolding align_of
start_shared s stats memory os =
    let jobs = plan_jobs s.block_size 0 s.bulk in
    record {
      entries = entry_at s.block_size s.bulk;
      jobs = jobs;
      cursor = 0;
      remaining = length jobs;
      memory = memory;
      rings = Rings.new s.buffers;
      stats = stats;
      align = align_of s;
      unbuffered = s.unbuffered;
      use_valid_data = s.manage_volume && (s.fast_preallocate && s.unbuffered);
      errors = [];
      os = os;
    }

unfoldable pub start : {W : Type 0} → Setup → Stats → (ℕ → ℕ → ℕ) → W → Pipeline W
unfolding start_shared
start s stats memory os = record {
  shared = start_shared s stats memory os;
  workers = idle_workers s.workers;
}
