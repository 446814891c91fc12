-- ===== src/Engine/Closing.antt =====
-- Which chunks of a file are still due, and when the file has been closed off by `finalize`.
pub mod Step
pub mod Turn
pub mod Run
pub mod Finish
pub mod Counted
pub mod Done
use b2c_fast_copy.Base.{ℕ, ◌+◌, ◌<◌, ◌≡◌, ◌⊎◌, true, List, length, drop, total, ◌==◌, if◌then◌else◌}
use b2c_fast_copy.Win.Defs.{FilePath}
use b2c_fast_copy.Win.FileSystem.{Content}
use b2c_fast_copy.Rings.{Chunk}
use b2c_fast_copy.Engine.Defs.{
  Shared, Job, early, counted, Pc, reading, pushing, preparing, writing, releasing, settling,
  counting, finalizing, Worker,
}

-- 1 for a job or a chunk of file `f`.
abbrev pub job_in : (f : ℕ) → Job → ℕ
job_in f j = if j.file == f then 1 else 0

abbrev pub chunk_in : (f : ℕ) → Chunk → ℕ
chunk_in f c = if c.file == f then 1 else 0

-- 1 for a worker with a chunk of file `f` that is to be counted.
abbrev pub due : (f : ℕ) → Pc → ℕ
due f (reading buf job) = job_in f job
due f (pushing c) = chunk_in f c
due f (preparing c) = chunk_in f c
due f (writing c) = chunk_in f c
due f (releasing buf (counted g)) = if g == f then 1 else 0
due f (settling (counted g)) = if g == f then 1 else 0
due f (counting g) = if g == f then 1 else 0
due f _ = 0

abbrev pub due_by : (f : ℕ) → Worker → ℕ
due_by f w = due f w.pc

-- 1 for a worker that is about to finalize file `f`.
abbrev pub closing : (f : ℕ) → Pc → ℕ
closing f (finalizing g) = if g == f then 1 else 0
closing f _ = 0

abbrev pub closing_by : (f : ℕ) → Worker → ℕ
closing_by f w = closing f w.pc

-- The chunks of file `f` that wait, as jobs or in the filled ring.
abbrev pub queued : {W : Type 0} → (f : ℕ) → Shared W → ℕ
queued f sh = total (job_in f) (drop sh.cursor sh.jobs) + total (chunk_in f) sh.rings.filled

-- A worker past the write has its file prepared.
abbrev pub IsPosted : {W : Type 0} → Shared W → Pc → Type 0
IsPosted sh (releasing buf (counted g)) = (sh.entries g).prepared ≡ true
IsPosted sh (settling (counted g)) = (sh.entries g).prepared ≡ true
IsPosted sh (counting g) = (sh.entries g).prepared ≡ true
IsPosted sh (finalizing g) = (sh.entries g).prepared ≡ true
IsPosted sh _ = Unit

module _ {W : Type 0} (content : W → FilePath → Content) (dst : FilePath) (size f : ℕ) where
  -- The chunks of a file are counted or still due, `due` of them with workers; once all are counted, a
  -- worker is about to finalize the file, or the file has its size.
  abbrev pub IsBalanced : (due closing : ℕ) → Shared W → Type 0
  IsBalanced due closing sh =
      ((sh.entries f).done + queued f sh + due ≡ (sh.entries f).chunks)
      × ((sh.entries f).done ≡ (sh.entries f).chunks
          → (0 < closing) ⊎ ((content sh.os dst).size ≡ size))

  abbrev pub Closes : (due closing : ℕ) → Shared W → Type 0
  Closes due closing sh = (0 < length sh.errors) ⊎ IsBalanced due closing sh
