-- ===== src/Engine/Jobs.antt =====
-- The planning loop of `run_bulk`: each bulk file becomes a row of jobs, one to a block.
pub mod Cover
pub mod Shape
use b2c_fast_copy.Base.{
  ℕ, zero, suc, ◌+◌, ◌-◌, ◌*◌, ◌%◌, ◌^◌, Bool, true, false, List, [], ◌∷◌, ◌++◌, min, max,
}
use b2c_fast_copy.Device.{div_ceil}
use b2c_fast_copy.Scanner.{FileTask}
use b2c_fast_copy.Engine.Defs.{Job, Entry}

unfoldable pub chunk_count : (size block : ℕ) → ℕ
chunk_count size block = max (div_ceil size block) 1

-- Job `c` of a file; the casts to u32 wrap.
abbrev pub job_of : (i size block c : ℕ) → Job
job_of i size block c = record {
  file = i % 2 ^ 32;
  offset = c * block;
  len = min (size - c * block) block % 2 ^ 32;
}

-- The jobs of one file from job `c` on, `n` of them.
unfoldable pub file_jobs : (i size block c n : ℕ) → List Job
file_jobs i size block c zero = []
file_jobs i size block c (suc n) = job_of i size block c ∷ file_jobs i size block (c + 1) n

unfoldable pub plan_jobs : (block i : ℕ) → List FileTask → List Job
unfolding file_jobs chunk_count
plan_jobs block i [] = []
plan_jobs block i (t ∷ ts) =
    file_jobs i t.size block 0 (chunk_count t.size block) ++ plan_jobs block (i + 1) ts

abbrev pub entry_of : (block : ℕ) → FileTask → Entry
entry_of block t = record {
  task = t;
  chunks = chunk_count t.size block;
  done = 0;
  prepared = false;
  master = false;
  failed = false;
}
