-- ===== src/Engine/Closing/Finish.antt =====
-- The start of a bulk copy, and its end.
use b2c_fast_copy.Base.{
  ℕ, zero, suc, ◌+◌, ◌%◌, ◌^◌, ◌≤◌, ◌<◌, ◌≡◌, inl, inr, refl, sym, ◌∙◌, false, List, [], ◌∷◌,
  length, arith, total, total-append, total-le-length, All, drop, ◌==◌, if◌then◌else◌,
}
use native.Mathlib.Nat.{mod-eq_of_lt}
use b2c_fast_copy.Win.Defs.{FilePath, Os}
use b2c_fast_copy.Win.FileSystem.{Content, IsFileSystem}
use b2c_fast_copy.Rings
use b2c_fast_copy.Stats.{Stats}
use b2c_fast_copy.Scanner.{FileTask}
use b2c_fast_copy.Engine.Defs.{exited, Worker}
use b2c_fast_copy.Engine.Jobs.{chunk_count, file_jobs, plan_jobs}
use b2c_fast_copy.Engine.Worker.{Pipeline, run}
use b2c_fast_copy.Engine.Bulk.{Setup, entry_at, idle_workers, start_shared, start}
use b2c_fast_copy.Engine.Sound.{IsSound, start-IsSound, reach-IsSound}
use b2c_fast_copy.Engine.Content.Defs.{Copy, IsCopyable}
use b2c_fast_copy.Engine.Content.Start.{IsReady, copy_of, idle-looping, start-IsCopying, run-copies}
use b2c_fast_copy.Engine.Closing.{job_in, chunk_in, due_by, closing_by, queued}
use b2c_fast_copy.Engine.Closing.Run.{IsClosing, run-IsClosing}

-- The jobs of one file are its own, and as many as its chunks.
file_jobs-total :
    (i size block f c n : ℕ)
    → i < 2 ^ 32
    → total (job_in f) (file_jobs i size block c n) ≡ (if i == f then n else 0)
unfolding file_jobs
file_jobs-total i size block f c zero small = ground arith
file_jobs-total i size block f c (suc n) small =
    ground (arith, file_jobs-total i size block f (c + 1) n small, mod-eq_of_lt small)

earlier-total :
    (block f i : ℕ) (ts : List FileTask)
    → f < i
    → i + length ts ≤ 2 ^ 32
    → total (job_in f) (plan_jobs block i ts) ≡ 0
unfolding plan_jobs
earlier-total block f i [] lt fits = refl
earlier-total block f i (t ∷ ts) lt fits = ground (
  arith,
  total-append (job_in f) (file_jobs i t.size block 0 (chunk_count t.size block))
      (plan_jobs block (i + 1) ts),
  file_jobs-total i t.size block f 0 (chunk_count t.size block) (omega arith),
  earlier-total block f (i + 1) ts (omega arith) (omega arith),
)

plan_jobs-total :
    (block i : ℕ) (ts : List FileTask) (k : ℕ)
    → i + length ts ≤ 2 ^ 32
    → k < length ts
    → total (job_in (i + k)) (plan_jobs block i ts) ≡ (entry_at block ts k).chunks
unfolding plan_jobs
plan_jobs-total block i [] k fits lt = absurd (omega arith)
plan_jobs-total block i (t ∷ ts) zero fits lt = ground (
  arith,
  total-append (job_in (i + 0)) (file_jobs i t.size block 0 (chunk_count t.size block))
      (plan_jobs block (i + 1) ts),
  file_jobs-total i t.size block (i + 0) 0 (chunk_count t.size block) (omega arith),
  earlier-total block (i + 0) (i + 1) ts (omega arith) (omega arith),
)
plan_jobs-total block i (t ∷ ts) (suc k) fits lt =
    let e : i + 1 + k ≡ i + suc k = omega arith in
    let later = plan_jobs-total block (i + 1) ts k (omega arith) (omega arith) in
    ground (
      arith,
      total-append (job_in (i + suc k)) (file_jobs i t.size block 0 (chunk_count t.size block))
          (plan_jobs block (i + 1) ts),
      file_jobs-total i t.size block (i + suc k) 0 (chunk_count t.size block) (omega arith),
      rw e at later,
    )

pub some_chunk : (block : ℕ) (ts : List FileTask) (k : ℕ) → 0 < (entry_at block ts k).chunks
unfolding chunk_count
some_chunk block [] k = omega arith
some_chunk block (t ∷ ts) zero = omega arith
some_chunk block (t ∷ ts) (suc k) = some_chunk block ts k

pub fresh :
    (block : ℕ) (ts : List FileTask) (k : ℕ)
    → ((entry_at block ts k).done ≡ 0) × ((entry_at block ts k).prepared ≡ false)
fresh block [] k = (refl, refl)
fresh block (t ∷ ts) zero = (refl, refl)
fresh block (t ∷ ts) (suc k) = fresh block ts k

-- No worker is in the middle of a chunk or of a file at the start, or once all have left.
idle-due : (f n : ℕ) → total (due_by f) (idle_workers n) ≡ 0
idle-due f zero = refl
idle-due f (suc n) = omega (arith, idle-due f n)

pub exited-due :
    (f : ℕ) (ws : List Worker)
    → All (λ (w : Worker). w.pc ≡ exited) ws
    → (total (due_by f) ws ≡ 0) × (total (closing_by f) ws ≡ 0)
exited-due f [] h = (refl, refl)
exited-due f (w ∷ ws) h =
    let rest = exited-due f ws h.1 in
    (omega (arith, rest.0, due_none w h.0), omega (arith, rest.1, closing_none w h.0))
  where
    due_none : (v : Worker) → v.pc ≡ exited → due_by f v ≡ 0
    due_none v e = rw e refl

    closing_none : (v : Worker) → v.pc ≡ exited → closing_by f v ≡ 0
    closing_none v e = rw e refl

module _ {W : Type 0} (sys : Os W) (content : W → FilePath → Content)
    (laws : IsFileSystem sys content) (s : Setup) (ready : IsReady s) (os : W)
    (ok : IsCopyable (copy_of content s os)) where
  pub start-IsClosing :
      (stats : Stats) (memory : ℕ → ℕ → ℕ)
      → IsClosing content (copy_of content s os) (start s stats memory os)
  unfolding start start_shared Rings.new
  start-IsClosing stats memory = record {
    posted = λ i w e. rw (idle-looping content s ready os s.workers i w e) tt;
    mastered = λ g e. absurd (ground (arith, e, (fresh s.block_size s.bulk g).1));
    countable = λ f lt. omega (
      arith,
      all f lt,
      total-le-length (job_in f) (plan_jobs s.block_size 0 s.bulk) (λ j. ground arith),
      ready.countable,
    );
    closes = λ f lt. inr (
      omega (arith, all f lt, idle-due f s.workers, (fresh s.block_size s.bulk f).0),
      λ e.
          absurd
            (omega (arith, e, some_chunk s.block_size s.bulk f, (fresh s.block_size s.bulk f).0)),
    );
  }
    where
      all :
          (f : ℕ)
          → f < length s.bulk
          → total (job_in f) (plan_jobs s.block_size 0 s.bulk)
            ≡ (entry_at s.block_size s.bulk f).chunks
      all f lt =
          let z : 0 + f ≡ f = omega arith in
          let h = plan_jobs-total s.block_size 0 s.bulk f (omega (arith, ready.few)) lt in rw z at h

-- Where no chunk remains, none of a file is queued.
pub none_queued :
    {W : Type 0} (capacity turns : ℕ) (p : Pipeline W) (f : ℕ)
    → IsSound capacity turns p
    → p.shared.remaining ≡ 0
    → queued f p.shared ≡ 0
none_queued capacity turns p f sound done = omega (
  arith,
  sound.accounted,
  total-le-length (job_in f) (drop p.shared.cursor p.shared.jobs) (λ j. ground arith),
  total-le-length (chunk_in f) p.shared.rings.filled (λ ch. ground arith),
)

module _ {W : Type 0} (sys : Os W) (content : W → FilePath → Content)
    (laws : IsFileSystem sys content) where
  -- When a bulk copy has no chunk left, all workers have left and no error is recorded, each destination
  -- is its source: it has the length of the source, no padding left, and the same bytes, in whatever
  -- order the workers moved. This holds for fewer than 2 ^ 64 turns, a disk that follows
  -- `IsFileSystem`, a block size and a plan that are `IsReady`, and sources and destinations that are
  -- `IsCopyable`.
  pub run-finishes :
      (s : Setup) (stats : Stats) (memory : ℕ → ℕ → ℕ) (os : W) (ts : List (ℕ × ℕ))
      → length ts < 2 ^ 64
      → IsReady s
      → IsCopyable (copy_of content s os)
      → let c = copy_of content s os in
        let p = run sys (start s stats memory os) ts in
        p.shared.remaining ≡ 0
        → p.shared.errors ≡ []
        → All (λ (w : Worker). w.pc ≡ exited) p.workers
        → (f : ℕ) → f < c.count
        → ((content p.shared.os (c.task f).dst).size ≡ (c.source f).size)
          × ((k : ℕ)
              → k < (c.source f).size
              → (content p.shared.os (c.task f).dst).byte k ≡ (c.source f).byte k)
  run-finishes s stats memory os ts few ready ok done clean left f known = (
    size,
    λ k inside.
        run-copies sys content laws s stats memory os ts few ready ok done clean f k known
          (omega (arith, ok.sized f known)),
  )
    where
      c : Copy
      c = copy_of content s os

      p : Pipeline W
      p = run sys (start s stats memory os) ts

      end : IsClosing content c p
      end =
          run-IsClosing sys content laws c ok (s.buffers % 2 ^ 32) (start s stats memory os) ts
            (start-IsSound s stats memory os (length ts) few ready.countable)
            (start-IsCopying content s ready os stats memory)
            (start-IsClosing sys content laws s ready os ok stats memory)

      none : queued f p.shared ≡ 0
      none =
          none_queued (s.buffers % 2 ^ 32) 0 p f
            (reach-IsSound sys s stats memory os ts few ready.countable) done

      size : (content p.shared.os (c.task f).dst).size ≡ (c.source f).size
      size = elim (end.closes f known) [
        | inl failed ↦ absurd (ground (arith, clean))
        | inr (sum, closed) ↦
            let idle = exited-due f p.workers left in
            elim (closed (omega (arith, sum, none, idle.0))) [
              | inl some_worker ↦ absurd (omega (arith, idle.1))
              | inr is ↦ is ∙ sym (ok.sized f known)
            ]
      ]
