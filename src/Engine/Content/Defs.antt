-- ===== src/Engine/Content/Defs.antt =====
-- The state of a bulk copy seen as a copy: which bytes have arrived, and which are on their way.
use b2c_fast_copy.Base.{
  ℕ, ◌+◌, ◌^◌, ◌≤◌, ◌<◌, ◌≡◌, ◌≢◌, ◌⊎◌, true, some, All, total, length, drop, get_elem?,
}
use b2c_fast_copy.Device.{round_up}
use b2c_fast_copy.Win.Defs.{FilePath}
use b2c_fast_copy.Win.FileSystem.{Content}
use b2c_fast_copy.Rings.{Chunk}
use b2c_fast_copy.Scanner.{FileTask}
use b2c_fast_copy.Engine.Defs.{
  Shared, Job, After, early, counted, Pc, reading, pushing, preparing, writing, releasing, settling,
  counting, finalizing, Worker,
}
use b2c_fast_copy.Engine.Jobs.Cover.{covers}
use b2c_fast_copy.Engine.Worker.{Pipeline}

-- The files of a copy by index, with the content of each source.
pub record Copy : Type 0 where
  pub count : ℕ
  pub task : ℕ → FileTask
  pub source : ℕ → Content
  pub align : ℕ

-- Sources and destinations are different files, two destinations are different files, and the sources
-- have the sizes that the scan found.
pub record IsCopyable (c : Copy) : Type 0 where
  pub apart : (f g : ℕ) → f < c.count → g < c.count → (c.task f).src ≢ (c.task g).dst
  pub distinct : (f g : ℕ) → f < c.count → g < c.count → f ≢ g → (c.task f).dst ≢ (c.task g).dst
  pub sized : (f : ℕ) → f < c.count → (c.source f).size ≡ (c.task f).size
  pub small : (f : ℕ) → f < c.count → (c.task f).size < 2 ^ 64

-- A job lies in its file, and what the padding adds to it lies past the end.
pub record IsJob (c : Copy) (file offset len : ℕ) : Type 0 where
  pub known : file < c.count
  pub inside : offset + len ≤ (c.task file).size
  pub padding : (round_up len c.align ≡ len) ⊎ (offset + len ≡ (c.task file).size)
  pub narrow : round_up len c.align < 2 ^ 32
  pub above : len ≤ round_up len c.align

abbrev pub IsJobOf : Copy → Job → Type 0
IsJobOf c j = IsJob c j.file j.offset j.len

-- The buffer of a chunk holds the bytes of its piece of the source.
pub record IsLoaded (c : Copy) (memory : ℕ → ℕ → ℕ) (chunk : Chunk) : Type 0 where
  pub job : IsJob c chunk.file chunk.offset chunk.len
  pub padded : chunk.padded ≡ round_up chunk.len c.align
  pub bytes :
      (k : ℕ) → k < chunk.len → memory chunk.buf k ≡ (c.source chunk.file).byte (chunk.offset + k)

abbrev pub IsAfter : Copy → After → Type 0
IsAfter c early = Unit
IsAfter c (counted f) = f < c.count

module _ {W : Type 0} (c : Copy) where
  -- What the local variables of a worker say.
  abbrev pub IsCarrying : Shared W → Pc → Type 0
  IsCarrying sh (reading buf job) = IsJobOf c job
  IsCarrying sh (pushing chunk) = IsLoaded c sh.memory chunk
  IsCarrying sh (preparing chunk) = IsLoaded c sh.memory chunk
  IsCarrying sh (writing chunk) =
      IsLoaded c sh.memory chunk × ((sh.entries chunk.file).prepared ≡ true)
  IsCarrying sh (releasing buf after) = IsAfter c after
  IsCarrying sh (settling after) = IsAfter c after
  IsCarrying sh (counting f) = f < c.count
  IsCarrying sh (finalizing f) = f < c.count
  IsCarrying sh _ = Unit

-- 1 if a piece of a file covers position `p` of file `f`.
abbrev pub job_at : (f p : ℕ) → Job → ℕ
job_at f p j = covers f p j

abbrev pub chunk_at : (f p : ℕ) → Chunk → ℕ
chunk_at f p c = covers f p (record { file = c.file; offset = c.offset; len = c.len })

abbrev pub carried : (f p : ℕ) → Pc → ℕ
carried f p (reading buf job) = job_at f p job
carried f p (pushing c) = chunk_at f p c
carried f p (preparing c) = chunk_at f p c
carried f p (writing c) = chunk_at f p c
carried f p _ = 0

abbrev pub carried_by : (f p : ℕ) → Worker → ℕ
carried_by f p w = carried f p w.pc

-- How many jobs that cover the position wait, as jobs or as chunks.
abbrev pub pending : {W : Type 0} → (f p : ℕ) → Shared W → ℕ
pending f p sh = total (job_at f p) (drop sh.cursor sh.jobs) + total (chunk_at f p) sh.rings.filled

module _ {W : Type 0} (content : W → FilePath → Content) (c : Copy) where
  -- The byte stands at the destination.
  abbrev pub Stands : (f p : ℕ) → Shared W → Type 0
  Stands f p sh =
      ((sh.entries f).prepared ≡ true)
      × ((content sh.os (c.task f).dst).byte p ≡ (c.source f).byte p)

  -- A byte is on its way or stands at the destination, or an error is recorded.
  abbrev pub Arrives : (f p : ℕ) → (carried : ℕ) → Shared W → Type 0
  Arrives f p n sh = (0 < length sh.errors) ⊎ (0 < pending f p sh + n) ⊎ Stands f p sh

  -- What the shared data says of the copy.
  pub record IsSourced (sh : Shared W) : Type 0 where
    pub tasks : (f : ℕ) → (sh.entries f).task ≡ c.task f
    pub aligned : sh.align ≡ c.align
    pub jobs : All (IsJobOf c) sh.jobs
    pub sources : (f : ℕ) → f < c.count → content sh.os (c.task f).src ≡ c.source f
    pub ring : All (IsLoaded c sh.memory) sh.rings.filled

  -- A copy under way.
  pub record IsCopying (p : Pipeline W) : Type 0 where
    pub sourced : IsSourced p.shared
    pub workers : (i : ℕ) (w : Worker) → get_elem? p.workers i ≡ some w → IsCarrying c p.shared w.pc
    pub arrives :
        (f k : ℕ)
        → f < c.count
        → k < (c.task f).size
        → Arrives f k (total (carried_by f k) p.workers) p.shared
