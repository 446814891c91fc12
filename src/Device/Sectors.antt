-- ===== src/Device/Sectors.antt =====
-- One alignment serves both the sectors and the clusters of a volume, when these sizes are powers of
-- two.
use native.Mathlib.Nat.{pow-suc, pow-le-pow_right, one-le-pow}
use native.Mathlib.Decide.{dec_le}
use b2c_fast_copy.Base.{ℕ, zero, suc, ◌+◌, ◌-◌, ◌*◌, ◌^◌, ◌≤◌, ◌≡◌, refl, ap, max, arith}
use b2c_fast_copy.Device.{VolumeInfo, alignment}

abbrev pub Divides : ℕ → ℕ → Type 0
Divides d m = (q : ℕ) × (m ≡ q * d)

abbrev pub IsPowerOfTwo : ℕ → Type 0
IsPowerOfTwo v = (k : ℕ) × (v ≡ 2 ^ k)

pub pow_add : (i k : ℕ) → 2 ^ (i + k) ≡ 2 ^ k * 2 ^ i
pow_add i zero = ground arith
pow_add i (suc k) =
    let e : i + suc k ≡ suc (i + k) = omega arith in
    rw (e, pow-suc 2 (i + k), pow-suc 2 k, pow_add i k) (omega arith)

pub Divides-trans : (a b c : ℕ) → Divides a b → Divides b c → Divides a c
Divides-trans a b c (q, e) (r, f) = (r * q, grind arith)

-- the smaller of two powers of two divides the larger
pub Divides-of_le : (a b : ℕ) → IsPowerOfTwo a → IsPowerOfTwo b → a ≤ b → Divides a b
Divides-of_le a b (i, e) (j, f) h = elim (dec_le i j) [
  | yes le ↦ (
    2 ^ (j - i),
    rw (e, f) (let s : j ≡ i + (j - i) = omega arith in rw (← pow_add) (ap (λ (t : ℕ). 2 ^ t) s)),
  )
  | no gt ↦ absurd (
      omega (
        arith,
        pow-le-pow_right {n = 2} (omega arith) {i = suc j} {j = i} (omega arith),
        pow-suc 2 j,
        one-le-pow j 2 (omega arith),
      ))
]

pub max-Divides :
    (a b : ℕ) → IsPowerOfTwo a → IsPowerOfTwo b → Divides a (max a b) × Divides b (max a b)
max-Divides a b p q = elim (dec_le a b) [
  | yes le ↦ let e : max a b ≡ b = omega arith in rw e (Divides-of_le a b p q le, (1, omega arith))
  | no gt ↦
      let e : max a b ≡ a = omega arith in
      rw e ((1, omega arith), Divides-of_le b a q p (omega arith))
]

pub max-IsPowerOfTwo : (a b : ℕ) → IsPowerOfTwo a → IsPowerOfTwo b → IsPowerOfTwo (max a b)
max-IsPowerOfTwo a b p q = elim (dec_le a b) [
  | yes le ↦ let e : max a b ≡ b = omega arith in rw e q
  | no gt ↦ let e : max a b ≡ a = omega arith in rw e p
]

pub alignment-IsPowerOfTwo :
    (v : VolumeInfo)
    → IsPowerOfTwo v.bytes_per_sector
    → IsPowerOfTwo v.bytes_per_cluster
    → IsPowerOfTwo (alignment v)
unfolding alignment
alignment-IsPowerOfTwo v s c =
    max-IsPowerOfTwo (max v.bytes_per_cluster v.bytes_per_sector) 4096
      (max-IsPowerOfTwo v.bytes_per_cluster v.bytes_per_sector c s) (12, refl)

-- The alignment of a volume is a multiple of its sector size, of its cluster size and of 4096 bytes,
-- when the sector and cluster sizes are powers of two.
pub alignment-Divides :
    (v : VolumeInfo)
    → IsPowerOfTwo v.bytes_per_sector
    → IsPowerOfTwo v.bytes_per_cluster
    → Divides v.bytes_per_sector (alignment v)
      × Divides v.bytes_per_cluster (alignment v)
      × Divides 4096 (alignment v)
unfolding alignment
alignment-Divides v s c =
    (Divides-trans _ _ _ inner.1 outer.0, Divides-trans _ _ _ inner.0 outer.0, outer.1)
  where
    inner :
        Divides v.bytes_per_cluster (max v.bytes_per_cluster v.bytes_per_sector)
        × Divides v.bytes_per_sector (max v.bytes_per_cluster v.bytes_per_sector)
    inner = max-Divides v.bytes_per_cluster v.bytes_per_sector c s

    outer :
        Divides (max v.bytes_per_cluster v.bytes_per_sector) (alignment v)
        × Divides 4096 (alignment v)
    outer =
        max-Divides _ 4096 (max-IsPowerOfTwo v.bytes_per_cluster v.bytes_per_sector c s) (12, refl)
