-- ===== src/Engine/Closing/Done.antt =====
-- How many files a bulk copy counts as done.
use b2c_fast_copy.Base.{
  ℕ, zero, suc, ◌+◌, ◌%◌, ◌^◌, ◌<◌, ◌≡◌, ◌⊎◌, inl, inr, refl, ap, subst, true, false, some, List,
  [], ◌∷◌, length, arith, Option-cases, get_elem?, set, total, le-total, All,
}
use b2c_fast_copy.Win.Defs.{FilePath, Os}
use b2c_fast_copy.Win.FileSystem.{Content, IsFileSystem}
use b2c_fast_copy.Stats.{Stats}
use b2c_fast_copy.Scanner.{FileTask}
use b2c_fast_copy.Engine.Defs.{Pc, counting, finalizing, exited, Shared, Worker}
use b2c_fast_copy.Engine.Worker.{Pipeline, step, turn, run}
use b2c_fast_copy.Engine.Bulk.{Setup, entry_at, idle_workers, start_shared, start}
use b2c_fast_copy.Engine.Sound.{IsSound, turn-IsSound, start-IsSound, reach-IsSound}
use b2c_fast_copy.Engine.Content.Defs.{Copy, IsCopyable, IsCopying, IsCarrying}
use b2c_fast_copy.Engine.Content.Run.{turn-IsCopying}
use b2c_fast_copy.Engine.Content.Start.{IsReady, copy_of, start-IsCopying}
use b2c_fast_copy.Engine.Closing.{due_by, IsPosted}
use b2c_fast_copy.Engine.Closing.Run.{IsClosing, total-split, turn-IsClosing, run-IsClosing}
use b2c_fast_copy.Engine.Closing.Finish.{
  start-IsClosing, none_queued, exited-due, some_chunk, fresh,
}
use b2c_fast_copy.Engine.Closing.Counted.{
  closed_at, closed, last_step, last_step_by, IsCounted, dispatch-IsCounted,
}

module _ {W : Type 0} (sys : Os W) (content : W → FilePath → Content)
    (laws : IsFileSystem sys content) (c : Copy) (ok : IsCopyable c) (capacity base errs : ℕ)
    (few : base + c.count < 2 ^ 64) where
  abbrev Counts : Pipeline W → Type 0
  Counts p = IsCounted base errs c.count (total last_step_by p.workers) p.shared

  -- A chunk that is still to be counted keeps its file open.
  still_open :
      (p : Pipeline W) (idx : ℕ) (w : Worker) (g : ℕ)
      → get_elem? p.workers idx ≡ some w
      → w.pc ≡ counting g
      → g < c.count
      → IsClosing content c p
      → (0 < length p.shared.errors)
        ⊎ (closed_at p.shared g ≡ 0) × ((p.shared.entries g).done + 1 < 2 ^ 64)
  still_open p idx w g e at known h = elim (h.closes g known) [
    | inl failed ↦ inl failed
    | inr b ↦
        let held = le-total (due_by g) p.workers idx w e in
        let mine : due_by g w ≡ 1 = rw at (ground arith) in
        inr (ground (arith, b.0, held, mine), omega (arith, b.0, held, mine, h.countable g known))
  ]

  step-Counts :
      (p : Pipeline W) (target idx : ℕ) (w : Worker)
      → get_elem? p.workers idx ≡ some w
      → IsCopying content c p
      → IsClosing content c p
      → Counts p
      → let (sh, w') = step sys target idx w p.shared in
        Counts (record { shared = sh; workers = set p.workers idx w' })
  unfolding step
  step-Counts p target idx w e copying closing h =
      let w' : Worker = (step sys target idx w p.shared).1 in
      let (rest, last_0, last_1) = total-split last_step_by p.workers idx w w' e in
      rw last_1 (
        dispatch-IsCounted sys target idx w.pc w p.shared base errs c.count rest few
          (λ g at.
            let known = carried w.pc at (copying.workers idx w e) in
            (known, still_open p idx w g e at known closing))
          (λ g at. closing.mastered g (posted w.pc at (closing.posted idx w e))) (rw last_0 at h))
    where
      carried : {g : ℕ} (pc : Pc) → pc ≡ counting g → IsCarrying c p.shared pc → g < c.count
      carried pc at k = let q = subst (λ x. IsCarrying c p.shared x) at k in q

      posted :
          {g : ℕ} (pc : Pc)
          → pc ≡ finalizing g
          → IsPosted p.shared pc
          → (p.shared.entries g).prepared ≡ true
      posted pc at k = let q = subst (λ x. IsPosted p.shared x) at k in q

  run-Counts :
      (p : Pipeline W) (ts : List (ℕ × ℕ))
      → IsSound capacity (length ts) p
      → IsCopying content c p
      → IsClosing content c p
      → Counts p
      → Counts (run sys p ts)
  unfolding run turn
  run-Counts p [] sound copying closing h = h
  run-Counts p (t ∷ ts) sound copying closing h =
      run-Counts (turn sys p t) ts (turn-IsSound sys capacity p (length ts) t sound)
        (turn-IsCopying sys content laws c ok capacity p (length ts) t sound copying)
        (turn-IsClosing sys content laws c ok capacity p (length ts) t sound copying closing)
        (turned t)
    where
      turned : (t : ℕ × ℕ) → Counts (turn sys p t)
      turned (target, idx) = elim (Option-cases (get_elem? p.workers idx)) [
        | inl e ↦ rw (e, turn) h
        | inr (w, e) ↦ rw (e, turn) (step-Counts p target idx w e copying closing h)
      ]

none_closed :
    {W : Type 0} (sh : Shared W) (n : ℕ) → ((f : ℕ) → closed_at sh f ≡ 0) → closed sh n ≡ 0
none_closed sh zero h = refl
none_closed sh (suc n) h = omega (arith, h n, none_closed sh n h)

all_closed :
    {W : Type 0} (sh : Shared W) (n : ℕ) → ((f : ℕ) → f < n → closed_at sh f ≡ 1) → closed sh n ≡ n
all_closed sh zero h = refl
all_closed sh (suc n) h =
    omega (arith, h n (omega arith), all_closed sh n (λ f lt. h f (omega arith)))

-- No worker is about to finalize a file at the start, or once all have left.
idle-last : (n : ℕ) → total last_step_by (idle_workers n) ≡ 0
idle-last zero = refl
idle-last (suc n) = omega (arith, idle-last n)

exited-last :
    (ws : List Worker) → All (λ (w : Worker). w.pc ≡ exited) ws → total last_step_by ws ≡ 0
exited-last [] h = refl
exited-last (w ∷ ws) h = omega (arith, ap last_step h.0, exited-last ws h.1)

unmarked : (block : ℕ) (ts : List FileTask) (k : ℕ) → (entry_at block ts k).failed ≡ false
unmarked block [] k = refl
unmarked block (t ∷ ts) zero = refl
unmarked block (t ∷ ts) (suc k) = unmarked block ts k

module _ {W : Type 0} (sys : Os W) (content : W → FilePath → Content)
    (laws : IsFileSystem sys content) where
  -- When a bulk copy has no chunk left, all workers have left and no error is recorded, it has counted
  -- each of its files as done exactly once, and no error, in whatever order the workers moved. This holds for fewer than
  -- 2 ^ 64 turns, a disk that follows `IsFileSystem`, a block size and a plan that are `IsReady`, sources
  -- and destinations that are `IsCopyable`, and a count that stays below 2 ^ 64.
  pub run-counts :
      (s : Setup) (stats : Stats) (memory : ℕ → ℕ → ℕ) (os : W) (ts : List (ℕ × ℕ))
      → length ts < 2 ^ 64
      → IsReady s
      → IsCopyable (copy_of content s os)
      → stats.files_done + length s.bulk < 2 ^ 64
      → let p = run sys (start s stats memory os) ts in
        p.shared.remaining ≡ 0
        → p.shared.errors ≡ []
        → All (λ (w : Worker). w.pc ≡ exited) p.workers
        → (p.shared.stats.files_done ≡ stats.files_done + length s.bulk)
          × (p.shared.stats.errors ≡ stats.errors)
  unfolding start start_shared
  run-counts s stats memory os ts few ready ok fits done clean left = elim counted [
    | inl failed ↦ absurd (ground (arith, clean))
    | inr h ↦ (
      omega (arith, h.1, exited-last p.workers left, all_closed p.shared (length s.bulk) each),
      h.2,
    )
  ]
    where
      c : Copy
      c = copy_of content s os

      p : Pipeline W
      p = run sys (start s stats memory os) ts

      sound : IsSound (s.buffers % 2 ^ 32) (length ts) (start s stats memory os)
      sound = start-IsSound s stats memory os (length ts) few ready.countable

      copying : IsCopying content c (start s stats memory os)
      copying = start-IsCopying content s ready os stats memory

      closing : IsClosing content c (start s stats memory os)
      closing = start-IsClosing sys content laws s ready os ok stats memory

      untouched : (f : ℕ) → closed_at (start s stats memory os).shared f ≡ 0
      untouched f =
          ground (arith, some_chunk s.block_size s.bulk f, (fresh s.block_size s.bulk f).0)

      counted :
          IsCounted stats.files_done stats.errors
            (length s.bulk)
            (total last_step_by p.workers)
            p.shared
      counted =
          run-Counts sys content laws c ok (s.buffers % 2 ^ 32) stats.files_done stats.errors fits
            (start s stats memory os) ts sound copying closing
            (inr (
              unmarked s.block_size s.bulk,
              omega (
                arith,
                idle-last s.workers,
                none_closed (start s stats memory os).shared (length s.bulk) untouched,
              ),
              refl,
            ))

      end : IsClosing content c p
      end =
          run-IsClosing sys content laws c ok (s.buffers % 2 ^ 32) (start s stats memory os) ts
            sound copying closing

      each : (f : ℕ) → f < length s.bulk → closed_at p.shared f ≡ 1
      each f known = elim (end.closes f known) [
        | inl failed ↦ absurd (ground (arith, clean))
        | inr b ↦ ground (
          arith,
          b.0,
          (exited-due f p.workers left).0,
          none_queued (s.buffers % 2 ^ 32) 0 p f
              (reach-IsSound sys s stats memory os ts few ready.countable) done,
        )
      ]
