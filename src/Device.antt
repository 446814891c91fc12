-- ===== src/Device.antt =====
-- crates/b2c-engine/src/device.rs, and `VolumeInfo` of crates/b2c-engine/src/win/volume.rs: device
-- classes, the parameters that follow from them, and alignment.
pub mod Align
pub mod Sectors
use b2c_fast_copy.Base.{
  ℕ, ◌+◌, ◌-◌, ◌*◌, ◌/◌, ◌%◌, ◌^◌, ◌≡◌, Bool, true, false, ◌||◌, Option, none, some, List, [], ◌∷◌,
  max, min, ltb, ◌==◌, if◌then◌else◌,
}

-- `usize::div_ceil`, for a positive divisor.
abbrev pub div_ceil : ℕ → ℕ → ℕ
div_ceil v to = (v + to - 1) / to

-- The product is one of `usize`, which wraps.
unfoldable pub round_up : ℕ → ℕ → ℕ
round_up v to = if to == 0 then v else div_ceil v to * to % 2 ^ 64

pub data DeviceClass : Type 0 where
  nvme ssd hdd unknown : DeviceClass

-- Spinning media must not be asked for concurrency.
unfoldable pub seeks : DeviceClass → Bool
seeks DeviceClass.hdd = true
seeks _ = false

pub record VolumeInfo : Type 0 where
  pub root : List ℕ
  pub bytes_per_sector : ℕ
  pub bytes_per_cluster : ℕ
  pub free_bytes : ℕ
  pub disks : List ℕ

-- `VolumeInfo::alignment`.
unfoldable pub alignment : VolumeInfo → ℕ
alignment v = max (max v.bytes_per_cluster v.bytes_per_sector) 4096

pub record DeviceProfile : Type 0 where
  pub class : DeviceClass
  pub block_size : ℕ
  pub queue_depth : ℕ
  pub align : ℕ
  pub volume : VolumeInfo

-- `STORAGE_BUS_TYPE` of an NVMe drive.
abbrev pub bus_nvme : ℕ
bus_nvme = 17

-- What `classify` asks about a physical disk, which win/volume.rs answers: the seek-penalty query, the
-- bus type query, and whether the median random read of `probe_random_read_ms` took longer than
-- `SEEK_LATENCY_THRESHOLD_MS`.
pub record Queries : Type 0 where
  pub seek_penalty : ℕ → Option Bool
  pub bus_type : ℕ → Option ℕ
  pub slow_random_read : ℕ → Option Bool

solid_state_class : Queries → ℕ → DeviceClass
solid_state_class q disk = elim (q.bus_type disk) [
  | some bus ↦ if bus == bus_nvme then DeviceClass.nvme else DeviceClass.ssd
  | none ↦ DeviceClass.ssd
]

-- The `None` arm of `seek_penalty`: time the device instead.
classify_by_probe : Queries → ℕ → DeviceClass
unfolding solid_state_class
classify_by_probe q disk = elim (q.slow_random_read disk) [
  | some slow ↦ if slow then DeviceClass.hdd else solid_state_class q disk
  | none ↦ DeviceClass.unknown
]

classify_disk : Queries → ℕ → DeviceClass
unfolding solid_state_class classify_by_probe
classify_disk q disk = elim (q.seek_penalty disk) [
  | some penalty ↦ if penalty then DeviceClass.hdd else solid_state_class q disk
  | none ↦ classify_by_probe q disk
]

classify_disks : Queries → List ℕ → DeviceClass
unfolding classify_disk
classify_disks q [] = DeviceClass.unknown
classify_disks q (disk ∷ rest) = classify_disk q disk

unfoldable pub classify : Queries → VolumeInfo → DeviceClass
unfolding classify_disks
classify q vol = classify_disks q vol.disks

-- The starting block size of each class; `4 << 20` is `4 * 2 ^ 20`.
abbrev pub block_of : DeviceClass → ℕ
block_of DeviceClass.nvme = 4 * 2 ^ 20
block_of DeviceClass.ssd = 2 * 2 ^ 20
block_of DeviceClass.hdd = 8 * 2 ^ 20
block_of DeviceClass.unknown = 2 * 2 ^ 20

abbrev pub depth_of : DeviceClass → ℕ
depth_of DeviceClass.nvme = 32
depth_of DeviceClass.ssd = 12
depth_of DeviceClass.hdd = 2
depth_of DeviceClass.unknown = 8

-- `profile`, after `volume::for_path` has found the volume.
unfoldable pub profile : Queries → VolumeInfo → DeviceProfile
profile q vol =
    let class = classify q vol in
    record {
      class = class;
      block_size = round_up (block_of class) (alignment vol);
      queue_depth = depth_of class;
      align = alignment vol;
      volume = vol;
    }

unfoldable pub contains : List ℕ → ℕ → Bool
contains [] d = false
contains (x ∷ xs) d = x == d || contains xs d

shares_disk : List ℕ → List ℕ → Bool
shares_disk [] others = false
shares_disk (d ∷ ds) others = contains others d || shares_disk ds others

unfoldable pub shares_spindle : DeviceProfile → DeviceProfile → Bool
unfolding contains shares_disk
shares_spindle a b = shares_disk a.volume.disks b.volume.disks
