-- ===== src/Tests/Copiers.antt =====
-- The theorems on the parameters of a copier, between a solid state drive and a spinning one.
use b2c_fast_copy.Base.{◌+◌, ◌≤◌, ◌<◌, ◌≡◌, refl, true, false, none, some, [], ◌∷◌, arith}
use b2c_fast_copy.Win.Privileges.{no_privileges}
use b2c_fast_copy.Device.{DeviceClass, DeviceProfile, round_up}
use b2c_fast_copy.Device.Sectors.{Divides}
use b2c_fast_copy.Engine.Jobs.{chunk_count, file_jobs, plan_jobs}
use b2c_fast_copy.Engine.Content.Start.{IsReady}
use b2c_fast_copy.Engine.Copier.{Options, Copier, new, setup_of}
use b2c_fast_copy.Engine.Copier.Ready.{new_enough, new-Divides, new-IsReady}
use b2c_fast_copy.Tests.Copies.{one_file}

abbrev options : Options
options = record {
  arena_bytes = some 10_000;
  workers = some 1;
  block_size = some 5000;
  queue_depth = none;
  small_threshold = 0;
  excludes = [];
  verify = false;
  dry_run = false;
  unbuffered = true;
  fast_preallocate = true;
}

abbrev solid : DeviceProfile
solid = record {
  class = DeviceClass.ssd;
  block_size = 65_536;
  queue_depth = 16;
  align = 4096;
  volume = record {
    root = [];
    bytes_per_sector = 512;
    bytes_per_cluster = 4096;
    free_bytes = 0;
    disks = 0 ∷ [];
  };
}

abbrev spinning : DeviceProfile
spinning = record {
  class = DeviceClass.hdd;
  block_size = 65_536;
  queue_depth = 1;
  align = 65_536;
  volume = record {
    root = [];
    bytes_per_sector = 512;
    bytes_per_cluster = 4096;
    free_bytes = 0;
    disks = 1 ∷ [];
  };
}

abbrev copier : Copier
copier = new (1 ∷ []) (2 ∷ []) options no_privileges solid spinning 1_000_000 2

block_size_lem : copier.block_size ≡ 65_536
unfolding new round_up
block_size_lem = refl

new_enough_example :
    (2 ≤ copier.limits.workers)
    × (copier.limits.workers ≡ copier.workers)
    × (copier.limits.max_readers ≤ copier.workers)
    × (copier.limits.max_writers ≤ copier.workers)
    × (4 ≤ (setup_of copier (one_file ∷ [])).buffers)
new_enough_example =
    new_enough (1 ∷ []) (2 ∷ []) options no_privileges solid spinning 1_000_000 2 (one_file ∷ [])

new-IsReady_example : IsReady (setup_of copier (one_file ∷ []))
unfolding new round_up plan_jobs file_jobs chunk_count
new-IsReady_example =
    new-IsReady (1 ∷ []) (2 ∷ []) options no_privileges solid spinning 1_000_000 2 (one_file ∷ [])
      (omega arith) (omega arith) (omega arith) (omega arith) (omega arith) (omega arith)
      (omega arith)

new-Divides_example :
    Divides 4096 copier.block_size
    × Divides 65_536 copier.block_size
    × (5000 ≤ copier.block_size)
    × (copier.block_size < 5000 + 65_536)
new-Divides_example =
    new-Divides (1 ∷ []) (2 ∷ []) options no_privileges solid spinning 1_000_000 2 (12, refl)
      (16, refl) (omega arith)
