-- ===== src/Win/Volume.antt =====
-- crates/b2c-engine/src/win/volume.rs: the volume of a path, the physical disks behind it, and what can
-- be asked about a disk.
pub mod Disks
pub mod Probe
pub mod Text
pub mod Geometry
use b2c_fast_copy.Base.{
  ℕ, zero, suc, ◌+◌, ◌-◌, ◌*◌, ◌/◌, ◌%◌, ◌^◌, min, max, Bool, true, false, not, ◌||◌, ◌&&◌, Option,
  none, some, List, [], ◌∷◌, ◌++◌, length, get_elem?, drop, ltb, ◌==◌, if◌then◌else◌,
}
use mathlib.Core.Option
use b2c_fast_copy.Win.Defs.{
  FilePath, Context, resolve_volume, query_geometry, Result, ok, err, Overlapped, Reply,
}
use b2c_fast_copy.Win.File.{access_read, no_buffering, overlapped, to_result}
use b2c_fast_copy.Win.Paths.{backslash, wide, wide_path, starts_with, verbatim, device}
use b2c_fast_copy.Device.{VolumeInfo, Queries}
use b2c_fast_copy.Scheduler.Floats.{Float}

-- What `DeviceIoControl` gives: its result, the number of bytes, and the buffer by index.
pub record Answer : Type 0 where
  pub ok : ℕ
  pub returned : ℕ
  pub out : ℕ → ℕ

-- The calls of the system. `create_file` gives a handle, `control` takes the code of the query, the
-- property asked for and the size of the buffer. `read` tells whether the read succeeded and how many
-- milliseconds it took, `length_info` gives 0 for a length that is not positive, and `now` is the time since 1970 in nanoseconds, if it is not before.
pub record VolumeCalls (F : Type 0) : Type 0 where
  pub create_file : List ℕ → (access flags : ℕ) → ℕ
  pub control : (handle code property size : ℕ) → Answer
  pub length_info : (handle : ℕ) → Reply ℕ
  pub read : (handle round : ℕ) → Overlapped → ℕ × F
  pub now : Option ℕ
  pub volume_path_name : List ℕ → Reply (List ℕ)
  pub disk_free_space : List ℕ → Reply (ℕ × ℕ)
  pub free_bytes : List ℕ → ℕ

-- `STORAGE_PROPERTY_ID`, `IOCTL_VOLUME_GET_VOLUME_DISK_EXTENTS` and `IOCTL_STORAGE_QUERY_PROPERTY`.
abbrev storage_device_property : ℕ
storage_device_property = 0

abbrev seek_penalty_property : ℕ
seek_penalty_property = 7

abbrev pub get_disk_extents : ℕ
get_disk_extents = 0x0056_0000

abbrev query_property : ℕ
query_property = 0x002D_1400

-- `INVALID_HANDLE_VALUE`, the handle -1.
abbrev invalid_handle : ℕ
invalid_handle = 2 ^ 64 - 1

-- The number of reads of a probe.
abbrev reads : ℕ
reads = 16

-- `u32::from_ne_bytes`, the least byte first.
abbrev pub u32_at : (ℕ → ℕ) → ℕ → ℕ
u32_at out k = out k + out (k + 1) * 2 ^ 8 + out (k + 2) * 2 ^ 16 + out (k + 3) * 2 ^ 24

-- The units before the first NUL. Text is kept as its UTF-16 units.
unfoldable pub from_wide : List ℕ → List ℕ
from_wide [] = []
from_wide (c ∷ cs) = let rest = from_wide cs in if c == 0 then [] else c ∷ rest

-- The decimal digits of a number, at most `fuel` of them: a u32 has at most ten.
abbrev decimal : (fuel n : ℕ) → List ℕ
decimal zero n = []
decimal (suc fuel) n =
    let front = decimal fuel (n / 10) in
    if ltb n 10 then (48 + n) ∷ [] else front ++ (48 + n % 10) ∷ []

-- `\\.\PhysicalDrive` with the number of the disk.
abbrev drive_path : ℕ → List ℕ
drive_path disk =
    device
    ++ 80 ∷ 104 ∷ 121 ∷ 115 ∷ 105 ∷ 99 ∷ 97 ∷ 108 ∷ 68 ∷ 114 ∷ 105 ∷ 118 ∷ 101 ∷ []
    ++ decimal 10 disk

abbrev is_nil : List ℕ → Bool
is_nil [] = true
is_nil (c ∷ cs) = false

-- `trim_end_matches` of a backslash.
abbrev pub trim_end : List ℕ → List ℕ
trim_end [] = []
trim_end (c ∷ cs) = let rest = trim_end cs in if c == backslash && is_nil rest then [] else c ∷ rest

-- The root without the prefix that it may have.
abbrev bare : List ℕ → List ℕ
bare root = if starts_with verbatim root || starts_with device root then drop 4 root else root

-- `\\.\H:` for a volume with the root `H:\`.
unfoldable pub device_path : List ℕ → List ℕ
device_path root = device ++ trim_end (bare root)

-- The disk numbers of `left` extents from the `i`th on. An entry takes 24 bytes, after 8 of the header.
unfoldable pub extents : (ℕ → ℕ) → (left i : ℕ) → List ℕ
extents out zero i = []
extents out (suc left) i =
    let off = 8 + i * 24 in
    let rest = extents out left (i + 1) in if ltb 1024 (off + 4) then [] else u32_at out off ∷ rest

abbrev pub insert : ℕ → List ℕ → List ℕ
insert d [] = d ∷ []
insert d (e ∷ es) = let rest = insert d es in if ltb e d then e ∷ rest else d ∷ e ∷ es

-- `sort_unstable`: equal numbers cannot be told apart.
abbrev pub sort : List ℕ → List ℕ
sort [] = []
sort (d ∷ ds) = insert d (sort ds)

-- `Vec::dedup`
abbrev pub dedup : List ℕ → List ℕ
dedup [] = []
dedup (d ∷ []) = d ∷ []
dedup (d ∷ e ∷ es) = let rest = dedup (e ∷ es) in if d == e then rest else d ∷ rest

-- The answer to `IOCTL_VOLUME_GET_VOLUME_DISK_EXTENTS`, read.
unfoldable pub disks_in : Answer → List ℕ
disks_in a =
    if a.ok == 0 || ltb a.returned 8
    then []
    else dedup (sort (extents a.out (min (u32_at a.out 0) 16) 0))

-- The bytes from `at` on, if the answer is that long.
abbrev answer_u32 : Answer → (at needed : ℕ) → Option ℕ
answer_u32 a at needed = if a.ok == 0 || ltb a.returned needed then none else some (u32_at a.out at)

-- The next seed, and the place of a read in the span: `& !4095` clears the lowest 12 bits.
abbrev next_seed : ℕ → ℕ
next_seed seed = (seed * 6364136223846793005 % 2 ^ 64 + 1442695040888963407) % 2 ^ 64

unfoldable pub span_of : (len : ℕ) → ℕ
span_of len = len - 2 ^ 20

unfoldable pub offset_of : (span seed : ℕ) → ℕ
offset_of span seed = seed / 2 ^ 16 % max span 1 / 4096 * 4096

-- `| 1` sets the lowest bit.
abbrev first_seed : Option ℕ → ℕ
first_seed (some nanos) = nanos % 2 ^ 64 / 2 * 2 + 1
first_seed none = 0x9E37_79B9_7F4A_7C15

-- A handle that is invalid or null is none.
abbrev valid : ℕ → Option ℕ
valid h = if h == invalid_handle || h == 0 then none else some h

module _ {F : Type 0} (calls : VolumeCalls F) where
  unfoldable pub open_device : List ℕ → Option ℕ
  open_device path = valid (calls.create_file (wide path) 0 0)

  unfoldable pub disks_for_volume : List ℕ → List ℕ
  disks_for_volume root = elim (open_device (device_path root)) [
    | none ↦ []
    | some dev ↦ disks_in (calls.control dev get_disk_extents 0 1024)
  ]

  -- `saturating_mul` on u32.
  unfoldable pub for_path : (lossy : List ℕ → List ℕ) → FilePath → Result VolumeInfo
  for_path lossy path = elim (calls.volume_path_name (wide_path lossy path)) [
    | Reply.failed code ↦ err (record { ctx = resolve_volume; code = code })
    | Reply.done buf ↦
        let root = from_wide buf in
        elim (calls.disk_free_space (wide root)) [
          | Reply.failed code ↦ err (record { ctx = query_geometry; code = code })
          | Reply.done (spc, bps) ↦ ok (record {
            root = root;
            bytes_per_sector = max bps 512;
            bytes_per_cluster = max (min (spc * bps) (2 ^ 32 - 1)) (max bps 512);
            free_bytes = calls.free_bytes (wide root);
            disks = disks_for_volume root;
          })
        ]
  ]

  unfoldable pub bus_type : ℕ → Option ℕ
  bus_type disk = elim (open_device (drive_path disk)) [
    | none ↦ none
    | some dev ↦ answer_u32 (calls.control dev query_property storage_device_property 512) 28 32
  ]

  unfoldable pub seek_penalty : ℕ → Option Bool
  seek_penalty disk = elim (open_device (drive_path disk)) [
    | none ↦ none
    | some dev ↦
        let a = calls.control dev query_property seek_penalty_property 16 in
        if a.ok == 0 || ltb a.returned 9 then none else some (not (a.out 8 == 0))
  ]

  -- The times of the reads that succeed.
  unfoldable pub samples : (dev span : ℕ) → (left seed : ℕ) → List F
  unfolding offset_of
  samples dev span zero seed = []
  samples dev span (suc left) seed =
      let seed' = next_seed seed in
      let (succeeded, elapsed) = calls.read dev left (overlapped (offset_of span seed')) in
      let rest = samples dev span left seed' in if succeeded == 0 then rest else elapsed ∷ rest

module _ {F : Type 0} (fl : Float F) where
  abbrev insert_time : F → List F → List F
  insert_time t [] = t ∷ []
  insert_time t (u ∷ us) =
      let rest = insert_time t us in if fl.less u t then u ∷ rest else t ∷ u ∷ us

  abbrev pub sort_times : List F → List F
  sort_times [] = []
  sort_times (t ∷ ts) = insert_time t (sort_times ts)

  -- The median, if half of the reads succeed.
  unfoldable pub median : List F → Option F
  median ts =
      if ltb (length ts) (reads / 2) then none else get_elem? (sort_times ts) (length ts / 2)

module _ {F : Type 0} (calls : VolumeCalls F) (fl : Float F) where
  unfoldable pub probe_random_read_ms : ℕ → Option F
  probe_random_read_ms disk =
      elim (valid (calls.create_file (wide (drive_path disk)) access_read no_buffering)) [
        | none ↦ none
        | some dev ↦ elim (calls.length_info dev) [
          | Reply.failed code ↦ none
          | Reply.done len ↦
              let ts = samples calls dev (span_of len) reads (first_seed calls.now) in
              if len == 0 then none else median fl ts
        ]
      ]

  -- What `classify` asks, with the threshold of 3.0 ms.
  unfoldable pub queries : Queries
  queries = record {
    seek_penalty = seek_penalty calls;
    bus_type = bus_type calls;
    slow_random_read = λ disk. Option.map (fl.less (fl.decimal 30 1)) (probe_random_read_ms disk);
  }
