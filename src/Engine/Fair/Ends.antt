-- ===== src/Engine/Fair/Ends.antt =====
-- A bulk copy in which every worker keeps getting turns comes to an end.
use b2c_fast_copy.Base.{
  ℕ, zero, suc, ◌+◌, ◌*◌, ◌-◌, ◌%◌, ◌^◌, ◌≤◌, ◌<◌, ◌≡◌, refl, inl, inr, sym, ap, subst, ◌∙◌, List,
  [], ◌∷◌, ◌++◌, arith, length, length-append, get_elem?, get_elem?-lt, get_elem?-le, some, flat,
  total, le-total, All, All-of,
}
use mathlib.Core.List.{append_assoc}
use native.Mathlib.Decide.{dec_lt}
use b2c_fast_copy.Win.Defs.{Os}
use b2c_fast_copy.Rings
use b2c_fast_copy.Stats.{Stats}
use b2c_fast_copy.Engine.Defs.{exited, Worker}
use b2c_fast_copy.Engine.Jobs.{plan_jobs}
use b2c_fast_copy.Engine.Bulk.{Setup, idle_workers, start_shared, start}
use b2c_fast_copy.Engine.Worker.{Pipeline, run}
use b2c_fast_copy.Engine.Sound.{start-IsSound}
use b2c_fast_copy.Engine.Fair.{weight_at, effort}
use b2c_fast_copy.Engine.Fair.Paths.{to_exit}
use b2c_fast_copy.Engine.Fair.Turns.{
  returns_at, exits_at, IsSteady, run-IsSteady, run-effort, run-append,
}
use b2c_fast_copy.Engine.Fair.Nearer.{approach}
use b2c_fast_copy.Engine.Fair.Ways.{to_exit_bound, at_exit, NothingWaits, Never, exit-IsApproach}
use b2c_fast_copy.Engine.Fair.Rounds.{
  IsRound, named_in, effort_bound, remaining_bound, run-workers, nine_rounds,
}

flat-append : {A : Type 0} (xss yss : List (List A)) → flat (xss ++ yss) ≡ flat xss ++ flat yss
flat-append [] yss = refl
flat-append (xs ∷ xss) yss =
    ap (λ z. xs ++ z) (flat-append xss yss) ∙ sym (append_assoc xs (flat xss) (flat yss))

-- The first `n` of a list, the next, and the rest.
record IsSplit {A : Type 0} (n : ℕ) (xs : List A) : Type 0 where
  front : List A
  next : A
  back : List A
  whole : xs ≡ front ++ next ∷ back
  counted : length front ≡ n
  rest : length back + n + 1 ≡ length xs

split : {A : Type 0} (n : ℕ) (xs : List A) → n < length xs → IsSplit n xs
split n [] lt = absurd (omega (arith, lt))
split zero (x ∷ xs) lt = record {
  front = [];
  next = x;
  back = xs;
  whole = refl;
  counted = refl;
  rest = omega arith;
}
split (suc n) (x ∷ xs) lt =
    let r = split n xs (omega (arith, lt)) in
    record {
      front = x ∷ r.front;
      next = r.next;
      back = r.back;
      whole = ap (λ z. x ∷ z) r.whole;
      counted = omega (arith, r.counted);
      rest = omega (arith, r.rest);
    }

-- Cut into the first `n` with the next, and the rest.
flat-split :
    {A : Type 0} (n : ℕ) (xss : List (List A)) (r : IsSplit n xss)
    → flat xss ≡ (flat r.front ++ r.next) ++ flat r.back
flat-split n xss r =
    ap flat r.whole
    ∙ flat-append r.front (r.next ∷ r.back)
    ∙ sym (append_assoc (flat r.front) r.next (flat r.back))

All-split : {A : Type 0} (P : A → Type 0) (xs ys : List A) → All P (xs ++ ys) → All P xs × All P ys
All-split P [] ys h = (tt, h)
All-split P (x ∷ xs) ys h = let r = All-split P xs ys h.1 in ((h.0, r.0), r.1)

module _ {W : Type 0} (sys : Os W) (capacity : ℕ) (some_buffer : 0 < capacity) where
  -- Nine rounds for each step of the work that is left do all of it.
  runs_dry :
      (e : ℕ) (p : Pipeline W) (m : ℕ) (rs : List (List (ℕ × ℕ)))
      → effort p ≤ e
      → 9 * e ≤ length rs
      → 0 < length p.workers
      → length (flat rs) ≤ m
      → All (IsRound (length p.workers)) rs
      → IsSteady capacity m p
      → effort (run sys p (flat rs)) ≡ 0
  runs_dry zero p m rs small enough some_worker le rounds s =
      omega (arith, small, run-effort sys capacity p m (flat rs) le s)
  runs_dry (suc e) p m rs small enough some_worker le rounds s =
      elim (dec_lt 0 p.shared.remaining) [
        | no ended ↦ omega (
          arith,
          effort_bound sys capacity p m s,
          ended,
          run-effort sys capacity p m (flat rs) le s,
        )
        | yes remains ↦
            let r = split 8 rs (omega (arith, enough)) in
            let ts = flat r.front ++ r.next in
            let all =
              All-split (IsRound (length p.workers)) r.front (r.next ∷ r.back)
                (subst (All (IsRound (length p.workers))) r.whole rounds) in
            let cut = flat-split 8 rs r in
            let size = length-append ts (flat r.back) in
            let long = ap (length {A = ℕ × ℕ}) cut in
            let less =
              nine_rounds sys capacity p m r.front r.next some_buffer some_worker r.counted
                (omega (arith, size, long, le)) all.0 all.1.0 s remains in
            let same = run-workers sys capacity p ts in
            rw (cut, run-append sys capacity p ts (flat r.back))
              (runs_dry e (run sys p ts) (length (flat r.back)) r.back (omega (arith, less, small))
                (omega (arith, enough, r.rest)) (omega (arith, same, some_worker)) (omega arith)
                (subst (λ n. All (IsRound n) r.back) (sym same) all.1.1)
                (run-IsSteady sys capacity p m (length (flat r.back)) ts
                  (omega (arith, size, long, le)) s))
      ]

  -- Five more rounds take every worker out of its loop.
  workers_leave :
      (p : Pipeline W) (m : ℕ) (rs : List (List (ℕ × ℕ)))
      → effort p ≡ 0
      → length rs ≡ 5
      → length (flat rs) ≤ m
      → All (IsRound (length p.workers)) rs
      → IsSteady capacity m p
      → All (λ (w : Worker). w.pc ≡ exited) (run sys p (flat rs)).workers
  workers_leave p m rs spent five le rounds s = All-of _ q.workers (λ i u at. leaves i u at)
    where
      q : Pipeline W
      q = run sys p (flat rs)

      idle : NothingWaits p
      idle = (omega (arith, spent), omega (arith, spent), remaining_bound sys capacity p m s spent)

      spent' : effort q ≡ 0
      spent' = omega (arith, spent, run-effort sys capacity p m (flat rs) le s)

      leaves : (i : ℕ) (u : Worker) → get_elem? q.workers i ≡ some u → u.pc ≡ exited
      leaves i u at =
          let same = run-workers sys capacity p (flat rs) in
          let here : i < length p.workers = omega (arith, same, get_elem?-le q.workers i u at) in
          let (v, before) = get_elem?-lt p.workers i here in
          elim (approach sys capacity i to_exit NothingWaits Never (exit-IsApproach sys capacity i)
            rs p m le s (named_in (length p.workers) i rs here rounds)
            (inr (idle, v, before, omega (arith, five, to_exit_bound v.pc)))) [
              | inl less ↦ absurd (omega (arith, spent, less))
              | inr (inl never) ↦ absurd (omega (arith, never))
              | inr (inr (cond, w, there, near)) ↦
                  let e : w ≡ u = cc in
                  at_exit u.pc (rw e at near)
                    (omega (arith, spent', le-total weight_at q.workers i u at))
            ]

idle-returns : (n : ℕ) → total returns_at (idle_workers n) ≡ 0
idle-returns zero = refl
idle-returns (suc n) = omega (arith, idle-returns n)

idle-exits : (n : ℕ) → total exits_at (idle_workers n) ≡ 0
idle-exits zero = refl
idle-exits (suc n) = omega (arith, idle-exits n)

idle-weights : (n : ℕ) → total weight_at (idle_workers n) ≡ 0
idle-weights zero = refl
idle-weights (suc n) = omega (arith, idle-weights n)

idle-length : (n : ℕ) → length (idle_workers n) ≡ n
idle-length zero = refl
idle-length (suc n) = omega (arith, idle-length n)

-- A bulk copy ends: after 72 rounds for each job, and five more, in each of which every worker has a turn,
-- no chunk remains and all workers have left, whatever the order of the turns within a round, the targets of
-- the scheduler and the answers of the system, errors included. This holds for at least one worker and one
-- buffer, fewer than 2 ^ 64 jobs and fewer than 2 ^ 64 turns.
pub run-ends :
    {W : Type 0} (sys : Os W) (s : Setup) (stats : Stats) (memory : ℕ → ℕ → ℕ) (os : W)
    (rs : List (List (ℕ × ℕ)))
    → 0 < s.workers
    → 0 < s.buffers % 2 ^ 32
    → length (plan_jobs s.block_size 0 s.bulk) < 2 ^ 64
    → length (flat rs) < 2 ^ 64
    → All (IsRound s.workers) rs
    → 72 * length (plan_jobs s.block_size 0 s.bulk) + 5 ≤ length rs
    → let p = run sys (start s stats memory os) (flat rs) in
      (p.shared.remaining ≡ 0) × All (λ (w : Worker). w.pc ≡ exited) p.workers
unfolding start start_shared Rings.new
run-ends sys s stats memory os rs some_worker some_buffer fits few rounds enough =
    let p = start s stats memory os in
    let capacity = s.buffers % 2 ^ 32 in
    let jobs = length (plan_jobs s.block_size 0 s.bulk) in
    let steady : IsSteady capacity (length (flat rs)) p = record {
      sound = start-IsSound s stats memory os (length (flat rs)) few fits;
      running = refl;
      unread = λ some_job. idle-returns s.workers;
      present = λ some_chunk. idle-exits s.workers;
    } in
    let r = split (length rs - 5) rs (omega (arith, enough)) in
    let last = r.next ∷ r.back in
    let cut = ap flat r.whole ∙ flat-append r.front last in
    let size = length-append (flat r.front) (flat last) in
    let long = ap (length {A = ℕ × ℕ}) cut in
    let all =
      All-split (IsRound s.workers) r.front last (subst (All (IsRound s.workers)) r.whole rounds) in
    let workers = idle-length s.workers in
    let q = run sys p (flat r.front) in
    let spent =
      runs_dry sys capacity some_buffer (8 * jobs) p (length (flat rs)) r.front
        (omega (arith, idle-weights s.workers)) (omega (arith, r.counted, enough))
        (omega (arith, workers, some_worker)) (omega (arith, size, long))
        (subst (λ n. All (IsRound n) r.front) (sym workers) all.0) steady in
    let steady' =
      run-IsSteady sys capacity p (length (flat rs)) (length (flat last)) (flat r.front)
        (omega (arith, size, long)) steady in
    let same = run-workers sys capacity p (flat r.front) ∙ workers in
    let ended = run-effort sys capacity q (length (flat last)) (flat last) (omega arith) steady' in
    rw (cut, run-append sys capacity p (flat r.front) (flat last))
      (
        remaining_bound sys capacity (run sys q (flat last)) 0
            (run-IsSteady sys capacity q (length (flat last)) 0 (flat last) (omega arith) steady')
            (omega (arith, spent, ended)),
        workers_leave sys capacity some_buffer q (length (flat last)) last spent
            (omega (arith, r.rest, r.counted, enough)) (omega arith)
            (subst (λ n. All (IsRound n) last) (sym same) all.1) steady',
      )
