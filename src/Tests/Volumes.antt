-- ===== src/Tests/Volumes.antt =====
-- The theorems on volumes, for a volume on the disks 3 and 1.
use b2c_fast_copy.Base.{ℕ, ◌+◌, ◌≤◌, ◌≡◌, refl, some, List, [], ◌∷◌, arith, ◌==◌, if◌then◌else◌}
use b2c_fast_copy.Win.Defs.{Reply, ok}
use b2c_fast_copy.Win.File.{position, overlapped}
use b2c_fast_copy.Win.Paths.{encode, wide_path, is_canonical}
use b2c_fast_copy.Device.{VolumeInfo, alignment, contains}
use b2c_fast_copy.Device.Sectors.{Divides}
use b2c_fast_copy.Win.Volume.{
  VolumeCalls, from_wide, device_path, disks_in, extents, open_device, disks_for_volume, span_of,
  offset_of, for_path, get_disk_extents,
}
use b2c_fast_copy.Win.Volume.Disks.{lies_on, IsAscending, disks_for_volume-lies_on}
use b2c_fast_copy.Win.Volume.Probe.{offset_of-inside}
use b2c_fast_copy.Win.Volume.Geometry.{IsGeometry, for_path-alignment}

-- `H:\` and `\\?\H:\`
abbrev root : List ℕ
root = 72 ∷ 58 ∷ 92 ∷ []

-- Two extents, on the disks 3 and 1.
abbrev calls : VolumeCalls ℕ
calls = record {
  create_file = λ path access flags. 5;
  control = λ h code property size. record {
    ok = 1;
    returned = 56;
    out = λ k. if k == 0 then 2 else if k == 8 then 3 else if k == 32 then 1 else 0;
  };
  length_info = λ h. Reply.done 1_000_000_000;
  read = λ h round ov. (1, 9);
  now = some 12345;
  volume_path_name = λ path. Reply.done (72 ∷ 58 ∷ 92 ∷ 0 ∷ 7 ∷ []);
  disk_free_space = λ r. Reply.done (8, 512);
  free_bytes = λ r. 100;
}

disks_for_volume-lies_on_example :
    IsAscending (disks_for_volume calls root)
    × (contains (disks_for_volume calls root) 3
        ≡ lies_on (calls.control 5 get_disk_extents 0 1024).out 2 3)
unfolding open_device
disks_for_volume-lies_on_example =
    disks_for_volume-lies_on calls root 5 3 refl (λ e. absurd (omega (arith, e))) (omega arith)

offset_of-inside_example :
    Divides 4096 (position (overlapped (offset_of (span_of 1_000_000_000) 987_654_321_987)))
    × (position (overlapped (offset_of (span_of 1_000_000_000) 987_654_321_987)) + 4096
        ≤ 1_000_000_000)
offset_of-inside_example =
    offset_of-inside 1_000_000_000 987_654_321_987 (omega arith) (omega arith)

abbrev found : VolumeInfo
found = record {
  root = root;
  bytes_per_sector = 512;
  bytes_per_cluster = 4096;
  free_bytes = 100;
  disks = 1 ∷ 3 ∷ [];
}

found_lem : for_path calls (λ p. p) root ≡ ok found
unfolding for_path wide_path encode is_canonical from_wide disks_for_volume open_device device_path
    disks_in extents
found_lem = refl

for_path-alignment_example :
    Divides 512 (alignment found) × Divides 4096 (alignment found) × Divides 4096 (alignment found)
for_path-alignment_example =
    for_path-alignment calls (λ p. p) root found (λ r spc bps e. geometry spc bps e) found_lem
  where
    geometry :
        (spc bps : ℕ)
        → ◌≡◌ {A = Reply (ℕ × ℕ)} (Reply.done (8, 512)) (Reply.done (spc, bps))
        → IsGeometry spc bps
    geometry spc bps e =
        let a : spc ≡ 8 = cc in
        let b : bps ≡ 512 = cc in
        record { sectors = (3, a); sector = (9, b); cluster = rw (a, b) (omega arith) }
