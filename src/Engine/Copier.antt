-- ===== src/Engine/Copier.antt =====
-- `Copier::new` of crates/b2c-engine/src/engine.rs: the parameters of a copy, from the options and the
-- two devices.
pub mod Ready
use b2c_fast_copy.Base.{ℕ, ◌+◌, ◌*◌, ◌/◌, ◌^◌, Bool, Option, none, some, List, max, min}
use b2c_fast_copy.Win.Defs.{FilePath}
use b2c_fast_copy.Win.Privileges.{Privileges}
use b2c_fast_copy.Device.{DeviceProfile, round_up, shares_spindle}
use b2c_fast_copy.Arena.{buffer_count}
use b2c_fast_copy.Scanner.{FileTask}
use b2c_fast_copy.Scheduler.{Limits, clamp}
use b2c_fast_copy.Engine.Bulk.{Setup}

pub record Options : Type 0 where
  pub arena_bytes : Option ℕ
  pub workers : Option ℕ
  pub block_size : Option ℕ
  pub queue_depth : Option ℕ
  pub small_threshold : ℕ
  pub excludes : List (List ℕ)
  pub verify : Bool
  pub dry_run : Bool
  pub unbuffered : Bool
  pub fast_preallocate : Bool

pub record Copier : Type 0 where
  pub src : FilePath
  pub dst : FilePath
  pub opts : Options
  pub privs : Privileges
  pub src_dev : DeviceProfile
  pub dst_dev : DeviceProfile
  pub block_size : ℕ
  pub arena_bytes : ℕ
  pub workers : ℕ
  pub limits : Limits

abbrev pub unwrap_or : Option ℕ → ℕ → ℕ
unwrap_or none d = d
unwrap_or (some n) d = n

-- `src` and `dst` are the absolute paths, `available` is the free memory, and `cpus` the number of
-- processors.
unfoldable pub new :
    (src dst : FilePath)
    → Options
    → Privileges
    → (src_dev dst_dev : DeviceProfile) → (available cpus : ℕ) → Copier
unfolding clamp
new src dst opts privs src_dev dst_dev available cpus =
    let chosen = unwrap_or opts.block_size (max src_dev.block_size dst_dev.block_size) in
    let workers = max (unwrap_or opts.workers (clamp (cpus * 2) 4 32)) 2 in
    record {
      src = src;
      dst = dst;
      opts = opts;
      privs = privs;
      src_dev = src_dev;
      dst_dev = dst_dev;
      block_size = round_up chosen (max src_dev.align dst_dev.align);
      arena_bytes = unwrap_or opts.arena_bytes (clamp (available / 4) (256 * 2 ^ 20) (8 * 2 ^ 30));
      workers = workers;
      limits = record {
        workers = workers;
        max_readers = min (unwrap_or opts.queue_depth src_dev.queue_depth) workers;
        max_writers = min (unwrap_or opts.queue_depth dst_dev.queue_depth) workers;
        same_spindle = shares_spindle src_dev dst_dev;
      };
    }

-- What `run_bulk` takes from the copier, with the buffers of the arena that it allocates.
unfoldable pub setup_of : Copier → List FileTask → Setup
setup_of c bulk = record {
  bulk = bulk;
  block_size = c.block_size;
  src_alignment = c.src_dev.align;
  dst_alignment = c.dst_dev.align;
  unbuffered = c.opts.unbuffered;
  fast_preallocate = c.opts.fast_preallocate;
  manage_volume = c.privs.manage_volume;
  buffers = buffer_count c.arena_bytes c.block_size;
  workers = c.workers;
}
