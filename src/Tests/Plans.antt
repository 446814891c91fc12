-- ===== src/Tests/Plans.antt =====
-- A plan of one bulk file and one small one to run, on the disk of Tests/Disk.antt.
use b2c_fast_copy.Base.{
  ℕ, zero, suc, ◌^◌, ◌<◌, ◌≡◌, ◌≢◌, refl, true, false, some, none, List, [], ◌∷◌, ◌++◌, arith,
  get_elem?,
}
use b2c_fast_copy.Win.Privileges.{no_privileges}
use b2c_fast_copy.Device.{DeviceClass, DeviceProfile}
use b2c_fast_copy.Arena.{Arena, Memory}
use b2c_fast_copy.Stats.{no_stats}
use b2c_fast_copy.Scanner.{FileTask, Plan}
use b2c_fast_copy.Engine.Copier.{Copier}
use b2c_fast_copy.Engine.Session.{Outcome, Session, Rig, Schedules}
use b2c_fast_copy.Engine.Session.Complete.{IsSuitable}
use b2c_fast_copy.Arena
use b2c_fast_copy.Arena.{total_bytes}
use b2c_fast_copy.Engine.Jobs.{chunk_count, file_jobs, plan_jobs}
use b2c_fast_copy.Engine.Bulk.{align_of}
use b2c_fast_copy.Engine.Copier.{setup_of}
use b2c_fast_copy.Engine.Small.Copies.{IsApart}
use b2c_fast_copy.Engine.Session.{allocate}
use b2c_fast_copy.Tests.Disk.{Disk, disk, content, std, keeper}
use b2c_fast_copy.Tests.Copies.{one_file, disk_0, memory_0, rounds}

abbrev pub rig : Rig Disk (List ℕ)
rig = record {
  sys = disk;
  fs = std;
  hasher = keeper;
  memory = record { alloc = λ size large. some 4096; large_page_minimum = 0 };
  probe_in = λ d. 9 ∷ d;
  arena_bytes = memory_0;
  fuel = 10;
}

abbrev pub device : DeviceProfile
device = record {
  class = DeviceClass.ssd;
  block_size = 2;
  queue_depth = 2;
  align = 1;
  volume = record {
    root = [];
    bytes_per_sector = 512;
    bytes_per_cluster = 4096;
    free_bytes = 100;
    disks = [];
  };
}

abbrev pub copier : Copier
copier = record {
  src = 5 ∷ [];
  dst = 6 ∷ [];
  opts = record {
    arena_bytes = some 8;
    workers = some 2;
    block_size = none;
    queue_depth = none;
    small_threshold = 4;
    excludes = [];
    verify = false;
    dry_run = false;
    unbuffered = false;
    fast_preallocate = true;
  };
  privs = no_privileges;
  src_dev = device;
  dst_dev = device;
  block_size = 2;
  arena_bytes = 8;
  workers = 2;
  limits = record { workers = 2; max_readers = 2; max_writers = 2; same_spindle = false };
}

abbrev pub plan : Plan
plan = record {
  dirs = (6 ∷ []) ∷ [];
  bulk = one_file ∷ [];
  small = record { src = 3 ∷ []; dst = 4 ∷ []; size = 3 } ∷ [];
  total_bytes = 6;
  skipped_links = 0;
}

abbrev pub schedules : Schedules
schedules = record { bulk = rounds 30; small = 0 ∷ 0 ∷ 0 ∷ 0 ∷ 1 ∷ []; verify = [] }

abbrev pub begun : Session Disk
begun = record { os = disk_0; stats = no_stats }

abbrev pub outcome : Outcome
outcome = record {
  files = 2;
  files_expected = 2;
  bytes = 6;
  errors = [];
  arena_bytes = 8;
  large_pages = false;
  verified = 0;
}

plan-IsApart : IsApart (plan.bulk ++ plan.small)
plan-IsApart = record {
  apart = λ i j t u et eu e. apart i j t u et eu e;
  distinct = λ i j t u et eu ne e. distinct i j t u et eu ne e;
}
  where
    apart :
        (i j : ℕ) (t u : FileTask)
        → get_elem? (plan.bulk ++ plan.small) i ≡ some t
        → get_elem? (plan.bulk ++ plan.small) j ≡ some u
        → t.src ≢ u.dst
    apart zero zero t u et eu e = cc
    apart zero (suc zero) t u et eu e = cc
    apart (suc zero) zero t u et eu e = cc
    apart (suc zero) (suc zero) t u et eu e = cc
    apart (suc (suc i)) j t u et eu e = cc
    apart i (suc (suc j)) t u et eu e = cc

    distinct :
        (i j : ℕ) (t u : FileTask)
        → get_elem? (plan.bulk ++ plan.small) i ≡ some t
        → get_elem? (plan.bulk ++ plan.small) j ≡ some u
        → i ≢ j
        → t.dst ≢ u.dst
    distinct zero zero t u et eu ne e = ne refl
    distinct zero (suc zero) t u et eu ne e = cc
    distinct (suc zero) zero t u et eu ne e = cc
    distinct (suc zero) (suc zero) t u et eu ne e = ne refl
    distinct (suc (suc i)) j t u et eu ne e = cc
    distinct i (suc (suc j)) t u et eu ne e = cc

pub plan-IsSuitable : IsSuitable rig copier content plan begun
unfolding allocate Arena.new align_of setup_of plan_jobs file_jobs chunk_count
plan-IsSuitable = record {
  apart = plan-IsApart;
  probe = λ i t at e. probe i t at e;
  sized = λ i t at. sized i t at;
  ready = λ arena made. record {
    some_block = omega arith;
    narrow = omega arith;
    aligned = omega arith;
    whole = (2, refl);
    few = omega arith;
    countable = omega arith;
  };
  some_worker = omega arith;
  unused = refl;
  countable = omega arith;
}
  where
    probe :
        (i : ℕ) (t : FileTask) → get_elem? (plan.bulk ++ plan.small) i ≡ some t → t.src ≢ 9 ∷ 6 ∷ []
    probe zero t at e = cc
    probe (suc zero) t at e = cc
    probe (suc (suc i)) t at e = cc

    sized :
        (i : ℕ) (t : FileTask)
        → get_elem? plan.bulk i ≡ some t
        → ((content begun.os t.src).size ≡ t.size) × (t.size < 2 ^ 64)
    sized zero t at = ground arith
    sized (suc i) t at = absurd (cc)
