-- ===== src/Engine/Content/Start.antt =====
-- The start of a bulk copy, and what every schedule leads to.
use b2c_fast_copy.Base.{
  ℕ, zero, suc, ◌+◌, ◌%◌, ◌^◌, ◌≤◌, ◌<◌, ◌≡◌, inl, inr, refl, ap, some, List, [], ◌∷◌, arith, All,
  drop, length, get_elem?, total, total_mono, total-le-length,
}
use b2c_fast_copy.Win.Defs.{FilePath, Os}
use b2c_fast_copy.Win.FileSystem.{Content, IsFileSystem}
use b2c_fast_copy.Rings
use b2c_fast_copy.Stats.{Stats}
use b2c_fast_copy.Scanner.{FileTask}
use b2c_fast_copy.Device.Sectors.{Divides}
use b2c_fast_copy.Engine.Defs.{Job, looping, Worker}
use b2c_fast_copy.Engine.Jobs.{plan_jobs}
use b2c_fast_copy.Engine.Jobs.Cover.{plan_jobs-cover}
use b2c_fast_copy.Engine.Jobs.Shape.{IsPlanned, plan_jobs-IsPlanned}
use b2c_fast_copy.Engine.Worker.{Pipeline, run}
use b2c_fast_copy.Engine.Bulk.{Setup, align_of, entry_at, idle_workers, start_shared, start}
use b2c_fast_copy.Engine.Sound.{IsSound, busy_at, start-IsSound, reach-IsSound}
use b2c_fast_copy.Engine.Content.Defs.{
  Copy, IsCopyable, IsJobOf, IsCopying, job_at, chunk_at, carried_by, pending,
}
use b2c_fast_copy.Engine.Content.Run.{run-IsCopying}

-- What the set-up of a bulk copy asks of the block size and of the number of files.
pub record IsReady (s : Setup) : Type 0 where
  pub some_block : 0 < s.block_size
  pub narrow : s.block_size < 2 ^ 32
  pub aligned : 0 < align_of s
  pub whole : Divides (align_of s) s.block_size
  pub few : length s.bulk ≤ 2 ^ 32
  pub countable : length (plan_jobs s.block_size 0 s.bulk) < 2 ^ 64

-- The copy that a set-up asks for, by what stands in the sources.
abbrev pub copy_of : {W : Type 0} → (W → FilePath → Content) → Setup → W → Copy
copy_of content s os = record {
  count = length s.bulk;
  task = λ f. (entry_at s.block_size s.bulk f).task;
  source = λ f. content os (entry_at s.block_size s.bulk f).task.src;
  align = align_of s;
}

pub entry_at-task :
    (block : ℕ) (ts : List FileTask) (k : ℕ) (t : FileTask)
    → get_elem? ts k ≡ some t
    → ((entry_at block ts k).task ≡ t) × (k < length ts)
entry_at-task block [] k t e = absurd (cc)
entry_at-task block (u ∷ us) zero t e = (cc, omega arith)
entry_at-task block (u ∷ us) (suc k) t e =
    let (same, lt) = entry_at-task block us k t e in (same, omega arith)

pub task_there :
    (block : ℕ) (ts : List FileTask) (k : ℕ)
    → k < length ts
    → get_elem? ts k ≡ some ((entry_at block ts k).task)
task_there block [] k lt = absurd (omega arith)
task_there block (u ∷ us) zero lt = refl
task_there block (u ∷ us) (suc k) lt = task_there block us k (omega arith)

idle-carried : (f p n : ℕ) → total (carried_by f p) (idle_workers n) ≡ 0
idle-carried f p zero = refl
idle-carried f p (suc n) = omega (arith, idle-carried f p n)

module _ {W : Type 0} (content : W → FilePath → Content) (s : Setup) (ready : IsReady s)
    (os : W) where
  IsJob_planned :
      (j : Job) → IsPlanned s.block_size (align_of s) 0 s.bulk j → IsJobOf (copy_of content s os) j
  IsJob_planned j (k, t, file, at, shape) =
      let (same, lt) = entry_at-task s.block_size s.bulk k t at in
      let own : j.file ≡ k = omega (arith, file) in
      let size : (entry_at s.block_size s.bulk j.file).task.size ≡ t.size =
        rw own (ap (λ (u : FileTask). u.size) same) in
      record {
        known = omega arith;
        inside = omega (arith, size, shape.inside);
        padding = ground (arith, size, shape.padding);
        narrow = omega (arith, shape.fits, ready.narrow);
        above = shape.above;
      }

  All-IsJob :
      (js : List Job)
      → All (IsPlanned s.block_size (align_of s) 0 s.bulk) js
      → All (IsJobOf (copy_of content s os)) js
  All-IsJob [] h = tt
  All-IsJob (j ∷ js) h = (IsJob_planned j h.0, All-IsJob js h.1)

  pub idle-looping :
      (n i : ℕ) (w : Worker)
      → get_elem? (idle_workers n) i ≡ some w
      → w ≡ record { pc = looping; src = []; dst = [] }
  idle-looping zero i w e = absurd (cc)
  idle-looping (suc n) zero w e = cc
  idle-looping (suc n) (suc i) w e = idle-looping n i w e

  pub start-IsCopying :
      (stats : Stats) (memory : ℕ → ℕ → ℕ)
      → IsCopying content (copy_of content s os) (start s stats memory os)
  unfolding start start_shared Rings.new
  start-IsCopying stats memory = record {
    sourced = record {
      tasks = λ f. refl;
      aligned = refl;
      jobs = All-IsJob _ (
          plan_jobs-IsPlanned s.block_size (align_of s) ready.aligned ready.whole ready.some_block
            ready.narrow 0 s.bulk (omega (arith, ready.few)));
      sources = λ f lt. refl;
      ring = tt;
    };
    workers = λ i w e. rw (idle-looping s.workers i w e) tt;
    arrives = λ f k known inside.
        let once =
          plan_jobs-cover s.block_size ready.some_block ready.narrow 0 s.bulk f
            (entry_at s.block_size s.bulk f).task k (omega (arith, ready.few))
            (task_there s.block_size s.bulk f known) inside in
        let z : 0 + f ≡ f = omega arith in inr (inl (omega (arith, rw z at once)));
  }

-- Where no chunk remains, none is pending or carried.
pub none_left :
    {W : Type 0} (capacity turns : ℕ) (p : Pipeline W) (f k : ℕ)
    → IsSound capacity turns p
    → p.shared.remaining ≡ 0
    → pending f k p.shared + total (carried_by f k) p.workers ≡ 0
none_left capacity turns p f k sound done = omega (
  arith,
  sound.accounted,
  total_mono (carried_by f k) busy_at p.workers carried-le,
  total-le-length (job_at f k) (drop p.shared.cursor p.shared.jobs) (λ j. ground arith),
  total-le-length (chunk_at f k) p.shared.rings.filled (λ ch. ground arith),
)
  where
    carried-le : (w : Worker) → carried_by f k w ≤ busy_at w
    carried-le w = ground arith

module _ {W : Type 0} (sys : Os W) (content : W → FilePath → Content)
    (laws : IsFileSystem sys content) where
  -- When a bulk copy has no chunk left and has recorded no error, each byte of each source stands at its
  -- destination, in whatever order the workers moved and whatever their numbers. This holds for
  -- fewer than 2 ^ 64 turns, a disk that follows `IsFileSystem`, a block size and a plan that are `IsReady`, and sources and
  -- destinations that are `IsCopyable`.
  pub run-copies :
      (s : Setup) (stats : Stats) (memory : ℕ → ℕ → ℕ) (os : W) (ts : List (ℕ × ℕ))
      → length ts < 2 ^ 64
      → IsReady s
      → IsCopyable (copy_of content s os)
      → let c = copy_of content s os in
        let sh = (run sys (start s stats memory os) ts).shared in
        sh.remaining ≡ 0
        → sh.errors ≡ []
        → (f k : ℕ) → f < c.count
        → k < (c.task f).size
        → (content sh.os (c.task f).dst).byte k ≡ (c.source f).byte k
  run-copies s stats memory os ts few ready ok done clean f k known inside =
      let sound = start-IsSound s stats memory os (length ts) few ready.countable in
      let p = run sys (start s stats memory os) ts in
      let end = reach-IsSound sys s stats memory os ts few ready.countable in
      let none = none_left (s.buffers % 2 ^ 32) 0 p f k end done in
      let copying =
        run-IsCopying sys content laws (copy_of content s os) ok (s.buffers % 2 ^ 32)
          (start s stats memory os) ts sound (start-IsCopying content s ready os stats memory) in
      elim (copying.arrives f k known inside) [
        | inl failed ↦ absurd (ground (arith, clean))
        | inr (inl work) ↦ absurd (omega arith)
        | inr (inr stands) ↦ stands.1
      ]
