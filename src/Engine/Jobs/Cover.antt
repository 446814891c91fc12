-- ===== src/Engine/Jobs/Cover.antt =====
-- Which bytes the jobs of a plan cover.
use b2c_fast_copy.Base.{
  ℕ, zero, suc, ◌+◌, ◌*◌, ◌^◌, ◌≤◌, ◌<◌, ◌≡◌, ◌≢◌, refl, ◌&&◌, some, List, [], ◌∷◌, max, arith, leb,
  ltb, ◌==◌, if◌then◌else◌, total, total-append, get_elem?, length,
}
use b2c_fast_copy.Device.{div_ceil}
use b2c_fast_copy.Device.Align.{div_ceil-IsLeastMultiple}
use b2c_fast_copy.Scanner.{FileTask}
use b2c_fast_copy.Engine.Defs.{Job}
use b2c_fast_copy.Engine.Jobs.{chunk_count, file_jobs, plan_jobs}

-- 1 if the job copies the byte at position `p` of file `f`.
abbrev pub covers : (f p : ℕ) → Job → ℕ
covers f p j = if j.file == f && (leb j.offset p && ltb p (j.offset + j.len)) then 1 else 0

-- position `p` lies in blocks `c` to `c + n`
abbrev within : (block c n p : ℕ) → ℕ
within block c n p = if leb (c * block) p && ltb p ((c + n) * block) then 1 else 0

next_block : (block c : ℕ) → (c + 1) * block ≡ c * block + block
next_block block c = grind arith

last_block : (block c n : ℕ) → (c + 1 + n) * block ≡ (c + suc n) * block
last_block block c n = let e : c + 1 + n ≡ c + suc n = omega arith in rw e

grow_block : (block c n : ℕ) → (c + 1) * block ≤ (c + 1 + n) * block
grow_block block c n = grind arith

module _ (size block : ℕ) (pos : 0 < block) (narrow : block < 2 ^ 32) where
  file_jobs-cover :
      (i p : ℕ)
      → i < 2 ^ 32
      → p < size
      → (c n : ℕ) → total (covers i p) (file_jobs i size block c n) ≡ within block c n p
  unfolding file_jobs
  file_jobs-cover i p small inside c zero = grind arith
  file_jobs-cover i p small inside c (suc n) = ground (
    arith,
    file_jobs-cover i p small inside (c + 1) n,
    next_block block c,
    last_block block c n,
    grow_block block c n,
  )

  -- the blocks of a file reach its end
  chunk_count_reach : (p : ℕ) → p < size → p < (0 + chunk_count size block) * block
  unfolding chunk_count
  chunk_count_reach p h =
      reach (div_ceil size block) (ground (arith, (div_ceil-IsLeastMultiple size block pos).above))
    where
      reach : (d : ℕ) → size ≤ d * block → p < (0 + max d 1) * block
      reach zero m = absurd (omega arith)
      reach (suc d) m = let e : 0 + max (suc d) 1 ≡ suc d = omega arith in rw e (omega arith)

  pub own-cover :
      (i p : ℕ)
      → i < 2 ^ 32
      → p < size
      → total (covers i p) (file_jobs i size block 0 (chunk_count size block)) ≡ 1
  own-cover i p small h =
      ground (arith, file_jobs-cover i p small h 0 (chunk_count size block), chunk_count_reach p h)

-- the jobs of another file cover nothing of this one
other-cover :
    (size block f i p : ℕ)
    → i < 2 ^ 32
    → i ≢ f
    → (c n : ℕ) → total (covers f p) (file_jobs i size block c n) ≡ 0
unfolding file_jobs
other-cover size block f i p small ne c zero = refl
other-cover size block f i p small ne c (suc n) =
    ground (arith, other-cover size block f i p small ne (c + 1) n)

module _ (block : ℕ) (pos : 0 < block) (narrow : block < 2 ^ 32) where
  earlier-cover :
      (f p i : ℕ) (ts : List FileTask)
      → f < i
      → i + length ts ≤ 2 ^ 32
      → total (covers f p) (plan_jobs block i ts) ≡ 0
  unfolding plan_jobs
  earlier-cover f p i [] lt fits = refl
  earlier-cover f p i (t ∷ ts) lt fits = omega (
    arith,
    total-append (covers f p) (file_jobs i t.size block 0 (chunk_count t.size block))
        (plan_jobs block (i + 1) ts),
    other-cover t.size block f i p (omega arith) (omega arith) 0 (chunk_count t.size block),
    earlier-cover f p (i + 1) ts (omega arith) (omega arith),
  )

  -- The jobs that `run_bulk` plans cover each byte of each bulk file exactly once, for a block size that
  -- is positive and fits in 32 bits and at most 2 ^ 32 files.
  pub plan_jobs-cover :
      (i : ℕ) (ts : List FileTask) (k : ℕ) (t : FileTask) (p : ℕ)
      → i + length ts ≤ 2 ^ 32
      → get_elem? ts k ≡ some t
      → p < t.size
      → total (covers (i + k) p) (plan_jobs block i ts) ≡ 1
  unfolding plan_jobs
  plan_jobs-cover i [] k t p fits at inside = cc
  plan_jobs-cover i (u ∷ us) zero t p fits at inside =
      let e : i + 0 ≡ i = omega arith in
      let same : u ≡ t = cc in
      rw
        (
          e,
          total-append (covers i p) (file_jobs i u.size block 0 (chunk_count u.size block))
              (plan_jobs block (i + 1) us),
        )
        (omega (
          arith,
          own-cover u.size block pos narrow i p (omega arith) (rw same inside),
          earlier-cover i p (i + 1) us (omega arith) (omega arith),
        ))
  plan_jobs-cover i (u ∷ us) (suc k) t p fits at inside =
      let e : i + suc k ≡ i + 1 + k = omega arith in
      rw
        (
          e,
          total-append (covers (i + 1 + k) p)
              (file_jobs i u.size block 0 (chunk_count u.size block)) (plan_jobs block (i + 1) us),
        )
        (omega (
          arith,
          other-cover u.size block (i + 1 + k) i p (omega arith) (omega arith) 0
              (chunk_count u.size block),
          plan_jobs-cover (i + 1) us k t p (omega arith) at inside,
        ))
