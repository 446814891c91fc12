-- ===== src/Engine/Jobs/Shape.antt =====
-- The jobs of a plan as pieces of their files.
use b2c_fast_copy.Base.{
  ℕ, zero, suc, ◌+◌, ◌-◌, ◌*◌, ◌%◌, ◌^◌, ◌≤◌, ◌<◌, ◌≡◌, ◌⊎◌, inl, inr, refl, List, [], ◌∷◌, min,
  arith, All, All-append, length, get_elem?, some, ◌∙◌,
}
use native.Mathlib.Nat.{mod-eq_of_lt, mod-le, mul-le-mul_right}
use native.Mathlib.Decide.{dec_lt}
use b2c_fast_copy.Device.{div_ceil, round_up}
use b2c_fast_copy.Device.Align.{
  IsLeastMultiple, div_ceil-IsLeastMultiple, div_ceil-le, round_up-IsLeastMultiple,
}
use b2c_fast_copy.Device.Sectors.{Divides}
use b2c_fast_copy.Scanner.{FileTask}
use b2c_fast_copy.Engine.Defs.{Job}
use b2c_fast_copy.Engine.Jobs.{chunk_count, file_jobs, plan_jobs}

-- Rounding up does not pass a multiple.
pub round_up-le : (v to m : ℕ) → 0 < to → Divides to m → v ≤ m → round_up v to ≤ m
unfolding round_up
round_up-le v to m pos (p, e) le =
    ground (arith, div_ceil-le v to p pos (omega arith), mod-le (div_ceil v to * to) (2 ^ 64))

-- What `IsJob` asks of a piece of a file.
pub record IsPiece (size block align offset len : ℕ) : Type 0 where
  pub inside : offset + len ≤ size
  pub padding : (round_up len align ≡ len) ⊎ (offset + len ≡ size)
  pub fits : round_up len align ≤ block
  pub above : len ≤ round_up len align

-- A job of a list of files from index `i` on is a piece of the file that it names.
abbrev pub IsPlanned : (block align i : ℕ) → List FileTask → Job → Type 0
IsPlanned block align i ts j =
    (k : ℕ) × (t : FileTask) × (j.file ≡ i + k)
    × (get_elem? ts k ≡ some t)
    × IsPiece t.size block align j.offset j.len

module _ (block align : ℕ) (pos : 0 < align) (whole : Divides align block) (some_block : 0 < block)
    (narrow : block < 2 ^ 32) where
  -- What fits in a block is rounded up without wrapping.
  padded : (v : ℕ) → v ≤ block → IsLeastMultiple v align (round_up v align)
  padded v le =
      round_up-IsLeastMultiple v align whole.0 pos (omega (arith, whole.1)) (omega (arith, whole.1))

  piece :
      (size c : ℕ)
      → c * block ≤ size
      → IsPiece size block align (c * block) (min (size - c * block) block % 2 ^ 32)
  piece size c le = elim (dec_lt (size - c * block) block) [
    | yes short ↦
        let e : min (size - c * block) block % 2 ^ 32 ≡ size - c * block =
          let m : min (size - c * block) block ≡ size - c * block = omega arith in
          rw m (mod-eq_of_lt (omega arith)) in
        rw e (record {
          inside = omega arith;
          padding = inr (omega arith);
          fits = round_up-le _ align block pos whole (omega arith);
          above = (padded (size - c * block) (omega arith)).above;
        })
    | no long ↦
        let e : min (size - c * block) block % 2 ^ 32 ≡ block =
          let m : min (size - c * block) block ≡ block = omega arith in
          rw m (mod-eq_of_lt narrow) in
        rw e (record {
          inside = omega arith;
          padding = inl (
              omega (
                arith,
                round_up-le block align block pos whole (omega arith),
                (padded block (omega arith)).above,
              ));
          fits = round_up-le _ align block pos whole (omega arith);
          above = (padded block (omega arith)).above;
        })
  ]

  -- A block below the count starts within the file.
  starts : (size c : ℕ) → c < chunk_count size block → c * block ≤ size
  unfolding chunk_count
  starts size zero lt = omega arith
  starts size (suc c) lt =
      let r = div_ceil-IsLeastMultiple size block some_block in
      let m : (suc c + 1) * block ≤ div_ceil size block * block =
        mul-le-mul_right block (omega arith) in
      grind (arith, r.tight)

  file_jobs-IsPlanned :
      (i : ℕ) (t : FileTask) (ts : List FileTask)
      → i < 2 ^ 32
      → (c n : ℕ) → c + n ≤ chunk_count t.size block
      → All (IsPlanned block align i (t ∷ ts)) (file_jobs i t.size block c n)
  unfolding file_jobs
  file_jobs-IsPlanned i t ts small c zero fits = tt
  file_jobs-IsPlanned i t ts small c (suc n) fits = (
    (
      0,
      t,
      mod-eq_of_lt small ∙ (omega arith),
      refl,
      piece t.size c (starts t.size c (omega arith)),
    ),
    file_jobs-IsPlanned i t ts small (c + 1) n (omega arith),
  )

  -- Seen from one file earlier.
  earlier-IsPlanned :
      (i : ℕ) (t : FileTask) (ts : List FileTask) (js : List Job)
      → All (IsPlanned block align (i + 1) ts) js
      → All (IsPlanned block align i (t ∷ ts)) js
  earlier-IsPlanned i t ts [] h = tt
  earlier-IsPlanned i t ts (j ∷ js) h =
      let (k, u, file, at, shape) = h.0 in
      ((suc k, u, omega (arith, file), at, shape), earlier-IsPlanned i t ts js h.1)

  -- Every job that `run_bulk` plans names a file of the plan, lies inside it and, padded to the sector
  -- alignment, fits in a block; the padding is none, or lies past the end of the file. This holds for a
  -- positive block size below 2 ^ 32 that the alignment divides, and at most 2 ^ 32 files.
  pub plan_jobs-IsPlanned :
      (i : ℕ) (ts : List FileTask)
      → i + length ts ≤ 2 ^ 32
      → All (IsPlanned block align i ts) (plan_jobs block i ts)
  unfolding plan_jobs
  plan_jobs-IsPlanned i [] fits = tt
  plan_jobs-IsPlanned i (t ∷ ts) fits =
      All-append (IsPlanned block align i (t ∷ ts))
        (file_jobs i t.size block 0 (chunk_count t.size block)) _
        (file_jobs-IsPlanned i t ts (omega arith) 0 (chunk_count t.size block) (omega arith))
        (earlier-IsPlanned i t ts (plan_jobs block (i + 1) ts)
          (plan_jobs-IsPlanned (i + 1) ts (omega arith)))
