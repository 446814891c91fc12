-- ===== src/Engine/Content/Steps.antt =====
-- A step of a worker keeps what a copy says of the shared data and of the worker.
use b2c_fast_copy.Base.{ℕ, ◌<◌, ◌≡◌, ◌≢◌, ap, ◌∙◌, List, [], ◌∷◌, arith, All, total}
use b2c_fast_copy.Win.Defs.{FilePath, Os}
use b2c_fast_copy.Win.FileSystem.{Content, IsFileSystem}
use b2c_fast_copy.Rings.{Chunk}
use b2c_fast_copy.Engine.Defs.{Shared, Job}
use b2c_fast_copy.Engine.Read.{read}
use b2c_fast_copy.Engine.Write.{prepare, write, finalize}
use b2c_fast_copy.Engine.Worker.Frame.{
  Keeps, read-Keeps, prepare-Keeps, write-Keeps, finalize-Keeps,
}
use b2c_fast_copy.Engine.Worker.Conserve.{buf_weight}
use b2c_fast_copy.Engine.Sound.Exclusive.{is_buf}
use b2c_fast_copy.Engine.Content.Defs.{Copy, IsCopyable, IsLoaded, IsSourced}
use b2c_fast_copy.Engine.Content.Calls.{read-keeps, prepare-other, write-other, finalize-other}
use b2c_fast_copy.Engine.Content.Effect.{
  Effect, read-Effect, prepare-Effect, write-Effect, finalize-Effect, read-memory, prepare-memory,
  write-memory, finalize-memory,
}

-- The buffer of a loaded chunk is not touched: it stays loaded.
pub IsLoaded-memory :
    {c : Copy} {m m' : ℕ → ℕ → ℕ} {ch : Chunk}
    → m' ch.buf ≡ m ch.buf
    → IsLoaded c m ch
    → IsLoaded c m' ch
IsLoaded-memory e l = record {
  job = l.job;
  padded = l.padded;
  bytes = λ k h. ap (λ (g : ℕ → ℕ). g k) e ∙ l.bytes k h;
}

-- Chunks in the filled ring stay loaded when only a buffer that is not there is written.
All-IsLoaded :
    (c : Copy) (m m' : ℕ → ℕ → ℕ) (b : ℕ) (xs : List Chunk)
    → ((x : ℕ) → x ≢ b → m' x ≡ m x)
    → total (buf_weight (is_buf b)) xs ≡ 0
    → All (IsLoaded c m) xs
    → All (IsLoaded c m') xs
All-IsLoaded c m m' b [] same absent l = tt
All-IsLoaded c m m' b (x ∷ xs) same absent l = (
  IsLoaded-memory (same x.buf (ground arith)) l.0,
  All-IsLoaded c m m' b xs same (omega arith) l.1,
)

module _ {W : Type 0} (sys : Os W) (content : W → FilePath → Content)
    (laws : IsFileSystem sys content) (c : Copy) (ok : IsCopyable c) where
  -- A source is no destination.
  apart_from :
      (sh : Shared W) (f g : ℕ)
      → f < c.count
      → g < c.count
      → (sh.entries g).task ≡ c.task g
      → (c.task f).src ≢ (sh.entries g).task.dst
  apart_from sh f g hf hg e = rw e (ok.apart f g hf hg)

  pub read-IsSourced :
      (sh : Shared W) (hs : List ℕ) (buf : ℕ) (job : Job)
      → total (buf_weight (is_buf buf)) sh.rings.filled ≡ 0
      → IsSourced content c sh
      → IsSourced content c (read sys sh hs buf job).0
  read-IsSourced sh hs buf job absent s = record {
    tasks = λ f. effect.tasks f ∙ s.tasks f;
    aligned = effect.align ∙ s.aligned;
    jobs = rw keeps.jobs s.jobs;
    sources = λ f h. read-keeps sys content laws sh hs buf job (c.task f).src ∙ s.sources f h;
    ring =
        rw keeps.rings
          (All-IsLoaded c _ _ buf sh.rings.filled (read-memory sys sh hs buf job) absent s.ring);
  }
    where
      keeps : Keeps sh (read sys sh hs buf job).0
      keeps = read-Keeps sys sh hs buf job

      effect : Effect sh (read sys sh hs buf job).0
      effect = read-Effect sys sh hs buf job

  -- A step that leaves rings, buffers and sources alone.
  other-IsSourced :
      (s t : Shared W)
      → Keeps s t
      → Effect s t
      → t.memory ≡ s.memory
      → ((f : ℕ) → f < c.count → content t.os (c.task f).src ≡ content s.os (c.task f).src)
      → IsSourced content c s
      → IsSourced content c t
  other-IsSourced s t keeps effect memory same h = record {
    tasks = λ f. effect.tasks f ∙ h.tasks f;
    aligned = effect.align ∙ h.aligned;
    jobs = rw keeps.jobs h.jobs;
    sources = λ f lt. same f lt ∙ h.sources f lt;
    ring = rw (keeps.rings, memory) h.ring;
  }

  pub prepare-IsSourced :
      (sh : Shared W) (ch : Chunk)
      → ch.file < c.count
      → IsSourced content c sh
      → IsSourced content c (prepare sys sh ch).0
  prepare-IsSourced sh ch known s =
      other-IsSourced sh _ (prepare-Keeps sys sh ch) (prepare-Effect sys sh ch)
        (prepare-memory sys sh ch)
        (λ f lt.
          prepare-other sys content laws sh ch (c.task f).src
            (apart_from sh f ch.file lt known (s.tasks ch.file)))
        s

  pub write-IsSourced :
      (sh : Shared W) (hs : List ℕ) (ch : Chunk)
      → ch.file < c.count
      → IsSourced content c sh
      → IsSourced content c (write sys sh hs ch).0
  write-IsSourced sh hs ch known s =
      other-IsSourced sh _ (write-Keeps sys sh hs ch) (write-Effect sys sh hs ch)
        (write-memory sys sh hs ch)
        (λ f lt.
          write-other sys content laws sh hs ch (c.task f).src
            (apart_from sh f ch.file lt known (s.tasks ch.file)))
        s

  -- The file index of a worker that counts or finalizes is not bounded by its state alone: the
  -- destination is that of some task.
  pub finalize-IsSourced :
      (sh : Shared W) (g : ℕ)
      → g < c.count
      → IsSourced content c sh
      → IsSourced content c (finalize sys sh g)
  finalize-IsSourced sh g known s =
      other-IsSourced sh _ (finalize-Keeps sys sh g) (finalize-Effect sys sh g)
        (finalize-memory sys sh g)
        (λ f lt.
          finalize-other sys content laws sh g (c.task f).src
            (apart_from sh f g lt known (s.tasks g)))
        s
