-- ===== src/Engine/Sound/Progress.antt =====
-- Why the workers do not get stuck while work remains.
use b2c_fast_copy.Base.{
  ℕ, zero, suc, ◌+◌, ◌%◌, ◌^◌, ◌≤◌, ◌<◌, ◌≡◌, refl, sym, subst, Bool-cases, ◌⊎◌, inl, inr, Bool,
  true, false, some, List, [], ◌∷◌, arith, total, total-le-length, length, drop, get_elem?,
  get_elem?-lt, ltb,
}
use b2c_fast_copy.Win.Defs.{Os}
use b2c_fast_copy.Rings.{Chunk, countdown, pop_filled, acquire_free, release_free}
use b2c_fast_copy.Stats.{Stats}
use b2c_fast_copy.Engine.Defs.{Shared, Job, looping, acquiring, popping, Worker}
use b2c_fast_copy.Engine.Jobs.{plan_jobs}
use b2c_fast_copy.Engine.Steps.{acquire, claim, pop}
use b2c_fast_copy.Engine.Worker.{dispatch, run}
use b2c_fast_copy.Engine.Worker.Frame.{acquire_cases, claim_cases}
use b2c_fast_copy.Engine.Worker.Conserve.{busy, buf_weight}
use b2c_fast_copy.Engine.Bulk.{Setup, start}
use b2c_fast_copy.Engine.Sound.{held_by, busy_at, reach-IsSound}

abbrev pub one : ℕ → ℕ
one b = 1

pub countdown-total : (n : ℕ) → total one (countdown n) ≡ n
countdown-total zero = refl
countdown-total (suc n) = omega (arith, countdown-total n)

-- The pipeline is never stuck: after any schedule of fewer than 2 ^ 64 turns of a copy with at least one
-- buffer and fewer than 2 ^ 64 jobs, while chunks remain, a worker has a buffer or a chunk in hand, or a
-- chunk waits for a writer, or a job waits and a buffer is free for it.
pub run-can_move :
    {W : Type 0} (sys : Os W) (s : Setup) (stats : Stats) (memory : ℕ → ℕ → ℕ) (os : W)
    (ts : List (ℕ × ℕ))
    → length ts < 2 ^ 64
    → length (plan_jobs s.block_size 0 s.bulk) < 2 ^ 64
    → 0 < s.buffers % 2 ^ 32
    → let p = run sys (start s stats memory os) ts in
      0 < p.shared.remaining
      → (0 < total (held_by one) p.workers)
        ⊎ (0 < total busy_at p.workers)
        ⊎ (0 < length p.shared.rings.filled)
        ⊎ ((0 < length (drop p.shared.cursor p.shared.jobs)) × (0 < total one p.shared.rings.free))
run-can_move sys s stats memory os ts few fits some_buffer left =
    let sound = reach-IsSound sys s stats memory os ts few fits in
    let all = sound.buffers one in
    let p = run sys (start s stats memory os) ts in
    ground (
      arith,
      sound.accounted,
      all,
      countdown-total (s.buffers % 2 ^ 32),
      total-le-length (buf_weight one) p.shared.rings.filled (λ c. omega arith),
    )

nonempty-cases :
    {A : Type 0} (xs : List A) → (xs ≡ []) ⊎ ((x : A) × (rest : List A) × (xs ≡ x ∷ rest))
nonempty-cases [] = inl refl
nonempty-cases (x ∷ xs) = inr (x, xs, refl)

module _ {W : Type 0} (sys : Os W) (target idx : ℕ) where
  -- One worker that moves alone.
  abbrev pub moves : ℕ → Shared W × Worker → Shared W × Worker
  moves zero c = c
  moves (suc n) (sh, w) = moves n (dispatch sys target idx w.pc w sh)

  -- A worker that takes a chunk or a job within `n` moves.
  abbrev pub IsTaking : ℕ → Shared W × Worker → Type 0
  IsTaking n c = (k : ℕ) × (k ≤ n) × (busy (moves k c).1.pc ≡ 1)

  weaker : (m n : ℕ) (c : Shared W × Worker) → m ≤ n → IsTaking m c → IsTaking n c
  weaker m n c le (k, few, taken) = (k, omega arith, taken)

  pop-takes :
      (sh : Shared W) (w : Worker) (last : Bool) (c : Chunk) (rest : List Chunk)
      → w.pc ≡ popping last
      → sh.rings.filled ≡ c ∷ rest
      → IsTaking 1 (sh, w)
  unfolding dispatch pop pop_filled
  pop-takes sh w last c rest is filled = (1, omega arith, rw is (rw (filled, dispatch) (refl)))

  acquire-takes :
      (sh : Shared W) (w : Worker) (last : Bool) (buf : ℕ) (rest : List ℕ) (job : Job)
      → w.pc ≡ acquiring last
      → sh.rings.is_shutdown ≡ false
      → sh.rings.free ≡ buf ∷ rest
      → get_elem? sh.jobs sh.cursor ≡ some job
      → IsTaking 2 (sh, w)
  unfolding dispatch acquire acquire_free claim
  acquire-takes sh w last buf rest job is running free at =
      (2, omega arith, rw is (rw (running, free, at) refl))

  -- A writer that finds nothing reads instead.
  pop-falls :
      (sh : Shared W) (w : Worker) (buf : ℕ) (rest : List ℕ) (job : Job)
      → w.pc ≡ popping false
      → sh.rings.is_shutdown ≡ false
      → sh.rings.filled ≡ []
      → sh.rings.free ≡ buf ∷ rest
      → get_elem? sh.jobs sh.cursor ≡ some job
      → IsTaking 3 (sh, w)
  unfolding dispatch pop pop_filled acquire acquire_free claim
  pop-falls sh w buf rest job is running empty free at =
      (3, omega arith, rw is (rw (empty, running, free, at) refl))

  -- A reader that finds no buffer or no job writes instead.
  acquire-falls :
      (sh : Shared W) (w : Worker) (c : Chunk) (rest : List Chunk)
      → w.pc ≡ acquiring false
      → sh.rings.filled ≡ c ∷ rest
      → IsTaking 4 (sh, w)
  unfolding dispatch pop pop_filled release_free
  acquire-falls sh w c rest is filled = elim (acquire_cases sh false) [
    | inl e ↦ (2, omega arith, rw is (rw e (rw filled refl)))
    | inr (buf, tail, free, e) ↦
        elim (claim_cases (record sh { rings = record sh.rings { free = tail } }) false buf) [
          | inl (end, e') ↦ (4, omega arith, rw is (rw e (rw e' (rw filled refl))))
          | inr (job, at, e') ↦ (2, omega arith, rw is (rw e (rw e' refl)))
        ]
  ]

  one_more :
      (n : ℕ) (sh t : Shared W) (w v : Worker)
      → dispatch sys target idx w.pc w sh ≡ (t, v)
      → IsTaking n (t, v)
      → IsTaking (n + 1) (sh, w)
  one_more n sh t w v e (k, le, taken) =
      (suc k, omega arith, subst (λ x. busy (moves k x).1.pc ≡ 1) (sym e) taken)

  starts_reading :
      (sh : Shared W) (w : Worker)
      → w.pc ≡ looping
      → 0 < sh.remaining
      → ltb idx target ≡ true
      → dispatch sys target idx w.pc w sh ≡ (sh, record w { pc = acquiring false })
  unfolding dispatch
  starts_reading sh w is left reads = rw is (ground arith)

  starts_writing :
      (sh : Shared W) (w : Worker)
      → w.pc ≡ looping
      → 0 < sh.remaining
      → ltb idx target ≡ false
      → dispatch sys target idx w.pc w sh ≡ (sh, record w { pc = popping false })
  unfolding dispatch
  starts_writing sh w is left writes = rw is (ground arith)

  ready :
      (sh : Shared W)
      → sh.rings.filled ≡ []
      → ((0 < length sh.rings.filled) ⊎ ((0 < length sh.rings.free) × (sh.cursor < length sh.jobs)))
      → (buf : ℕ) × (rest : List ℕ) × (job : Job) × (sh.rings.free ≡ buf ∷ rest)
        × (get_elem? sh.jobs sh.cursor ≡ some job)
  ready sh empty (inl waits) = absurd (ground arith)
  ready sh empty (inr (free, jobs)) = elim (nonempty-cases sh.rings.free) [
    | inl none_free ↦ absurd (ground arith)
    | inr (buf, rest, e) ↦
        let (job, at) = get_elem?-lt sh.jobs sh.cursor jobs in (buf, rest, job, e, at)
  ]

  -- Neither role leaves a worker without work that can be had: while chunks remain and the rings are not
  -- shut down, a worker that looks for work, with either target, takes a chunk or a job within five moves
  -- of its own, if a chunk waits, or a job waits and a buffer is free.
  pub fall_through :
      (sh : Shared W) (w : Worker)
      → w.pc ≡ looping
      → 0 < sh.remaining
      → sh.rings.is_shutdown ≡ false
      → ((0 < length sh.rings.filled) ⊎ ((0 < length sh.rings.free) × (sh.cursor < length sh.jobs)))
      → IsTaking 5 (sh, w)
  fall_through sh w is left running work = elim (Bool-cases (ltb idx target)) [
    | inl reads ↦
        one_more 4 sh sh w _ (starts_reading sh w is left reads)
          (elim (nonempty-cases sh.rings.filled) [
            | inl empty ↦
                let (buf, tail, job, free, at) = ready sh empty work in
                weaker 2 4 _ (omega arith)
                  (acquire-takes sh _ false buf tail job refl running free at)
            | inr (c, rest, filled) ↦ acquire-falls sh _ c rest refl filled
          ])
    | inr writes ↦
        one_more 4 sh sh w _ (starts_writing sh w is left writes)
          (elim (nonempty-cases sh.rings.filled) [
            | inl empty ↦
                let (buf, tail, job, free, at) = ready sh empty work in
                weaker 3 4 _ (omega arith) (pop-falls sh _ buf tail job refl running empty free at)
            | inr (c, rest, filled) ↦
                weaker 1 4 _ (omega arith) (pop-takes sh _ false c rest refl filled)
          ])
  ]
