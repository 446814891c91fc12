-- ===== src/Win/Volume/Geometry.antt =====
-- The geometry that `for_path` finds.
use b2c_fast_copy.Base.{ℕ, ◌+◌, ◌-◌, ◌*◌, ◌^◌, ◌<◌, ◌≡◌, refl, subst, max, min, List, arith}
use b2c_fast_copy.Win.Defs.{FilePath, Reply, ok}
use b2c_fast_copy.Win.Paths.{wide, wide_path}
use b2c_fast_copy.Device.{VolumeInfo, alignment}
use b2c_fast_copy.Device.Sectors.{
  Divides, IsPowerOfTwo, pow_add, max-IsPowerOfTwo, alignment-Divides,
}
use b2c_fast_copy.Win.Volume.{VolumeCalls, from_wide, for_path}

-- What is relied on in `GetDiskFreeSpaceW`: sectors per cluster and bytes per sector are powers of two,
-- and a cluster has fewer than 2 ^ 32 bytes.
pub record IsGeometry (spc bps : ℕ) : Type 0 where
  pub sectors : IsPowerOfTwo spc
  pub sector : IsPowerOfTwo bps
  pub cluster : spc * bps < 2 ^ 32

IsPowerOfTwo-mul : (a b : ℕ) → IsPowerOfTwo a → IsPowerOfTwo b → IsPowerOfTwo (a * b)
IsPowerOfTwo-mul a b (i, e) (j, f) = (j + i, rw (e, f, pow_add j i) refl)

module _ {F : Type 0} (calls : VolumeCalls F) (lossy : List ℕ → List ℕ) where
  -- The alignment of a volume that `for_path` finds is a multiple of its sector size, of its cluster size
  -- and of 4096 bytes, when what the system reports `IsGeometry`.
  pub for_path-alignment :
      (path : FilePath) (v : VolumeInfo)
      → ((root : List ℕ) (spc bps : ℕ)
          → calls.disk_free_space root ≡ Reply.done (spc, bps)
          → IsGeometry spc bps)
      → for_path calls lossy path ≡ ok v
      → Divides v.bytes_per_sector (alignment v)
        × Divides v.bytes_per_cluster (alignment v)
        × Divides 4096 (alignment v)
  unfolding for_path
  for_path-alignment path v laws is = by_root (calls.volume_path_name (wide_path lossy path)) refl
    where
      Goal : Type 0
      Goal =
          Divides v.bytes_per_sector (alignment v)
          × Divides v.bytes_per_cluster (alignment v)
          × Divides 4096 (alignment v)

      by_space :
          (buf : List ℕ) (r : Reply (ℕ × ℕ))
          → calls.volume_path_name (wide_path lossy path) ≡ Reply.done buf
          → calls.disk_free_space (wide (from_wide buf)) ≡ r
          → Goal
      by_space buf (Reply.failed code) e f = absurd (let g = rw (for_path, e, f) at is in cc)
      by_space buf (Reply.done (spc, bps)) e f =
          let ok_geometry = laws (wide (from_wide buf)) spc bps f in
          let g = rw (for_path, e, f) at is in
          let sector : max bps 512 ≡ v.bytes_per_sector = cc in
          let cluster : max (min (spc * bps) (2 ^ 32 - 1)) (max bps 512) ≡ v.bytes_per_cluster =
            cc in
          let short : min (spc * bps) (2 ^ 32 - 1) ≡ spc * bps =
            omega (arith, ok_geometry.cluster) in
          let sector_power = max-IsPowerOfTwo bps 512 ok_geometry.sector (9, refl) in
          alignment-Divides v (subst IsPowerOfTwo sector sector_power) (
            subst IsPowerOfTwo cluster (
              rw short (
                max-IsPowerOfTwo (spc * bps) (max bps 512)
                  (IsPowerOfTwo-mul spc bps ok_geometry.sectors ok_geometry.sector) sector_power)))

      by_root : (r : Reply (List ℕ)) → calls.volume_path_name (wide_path lossy path) ≡ r → Goal
      by_root (Reply.failed code) e = absurd (let g = rw (for_path, e) at is in cc)
      by_root (Reply.done buf) e =
          by_space buf (calls.disk_free_space (wide (from_wide buf))) e refl
