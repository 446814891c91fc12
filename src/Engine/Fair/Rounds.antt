-- ===== src/Engine/Fair/Rounds.antt =====
-- Nine rounds, in each of which every worker has a turn, do some of the work while chunks remain.
use b2c_fast_copy.Base.{
  ℕ, ◌*◌, ◌≤◌, ◌<◌, ◌≡◌, ◌⊎◌, refl, inl, inr, ◌∙◌, true, List, [], ◌∷◌, ◌++◌, arith, length,
  length-append, length-set, get_elem?, get_elem?-lt, get_elem?-le, some, flat, total, le-total,
  total-pos, All, Option-cases,
}
use native.Mathlib.Decide.{dec_lt}
use b2c_fast_copy.Win.Defs.{Os}
use b2c_fast_copy.Engine.Defs.{Pc, Worker}
use b2c_fast_copy.Engine.Worker.{Pipeline, step, turn, run}
use b2c_fast_copy.Engine.Worker.Conserve.{busy}
use b2c_fast_copy.Engine.Sound.{busy_at}
use b2c_fast_copy.Engine.Fair.{weight, weight_at, left, queued, effort}
use b2c_fast_copy.Engine.Fair.Paths.{to_chunk, to_buffer}
use b2c_fast_copy.Engine.Fair.Turns.{names, IsSteady, run-IsSteady, run-effort, run-append}
use b2c_fast_copy.Engine.Fair.Eager.{AnyEager, AnyEager-run, present-exits}
use b2c_fast_copy.Engine.Fair.Nearer.{There, approach}
use b2c_fast_copy.Engine.Fair.Ways.{
  to_chunk_bound, to_buffer_bound, at_chunk, at_buffer, ChunkWaits, JobWaits, chunk-IsApproach,
  job-IsApproach,
}

-- A round of a schedule: each of `n` workers has at least one turn, in any order and with any targets.
abbrev pub IsRound : ℕ → List (ℕ × ℕ) → Type 0
IsRound n ts = (i : ℕ) → i < n → names i ts ≡ true

busy-weight : (pc : Pc) → weight pc ≤ 8 * busy pc
busy-weight pc = ground arith

weight-busy : (pc : Pc) → 0 < busy pc → 0 < weight pc
weight-busy pc h = ground (arith, h)

total-weights : (ws : List Worker) → total weight_at ws ≤ 8 * total busy_at ws
total-weights [] = omega arith
total-weights (w ∷ ws) = omega (arith, busy-weight w.pc, total-weights ws)

pub named_in :
    (n i : ℕ) (rs : List (List (ℕ × ℕ)))
    → i < n
    → All (IsRound n) rs
    → All (λ ts. names i ts ≡ true) rs
named_in n i [] lt h = tt
named_in n i (r ∷ rs) lt h = (h.0 i lt, named_in n i rs lt h.1)

module _ {W : Type 0} (sys : Os W) (capacity : ℕ) where
  -- No more work is left than the chunks that remain can need.
  pub effort_bound :
      (p : Pipeline W) (n : ℕ) → IsSteady capacity n p → effort p ≤ 8 * p.shared.remaining
  effort_bound p n s = omega (arith, s.sound.accounted, total-weights p.workers)

  pub remaining_bound :
      (p : Pipeline W) (n : ℕ) → IsSteady capacity n p → effort p ≡ 0 → p.shared.remaining ≡ 0
  remaining_bound p n s spent = elim (dec_lt 0 (total busy_at p.workers)) [
    | yes some_busy ↦
        let (i, w, at, has) = total-pos busy_at p.workers some_busy in
        absurd (omega (arith, spent, weight-busy w.pc has, le-total weight_at p.workers i w at))
    | no idle ↦ omega (arith, s.sound.accounted, spent, idle)
  ]

  turn-workers : (p : Pipeline W) (t : ℕ × ℕ) → length (turn sys p t).workers ≡ length p.workers
  unfolding turn
  turn-workers p (target, idx) = elim (Option-cases (get_elem? p.workers idx)) [
    | inl e ↦ rw (e, turn) refl
    | inr (w, e) ↦ rw (e, turn) (length-set p.workers idx (step sys target idx w p.shared).1)
  ]

  pub run-workers :
      (p : Pipeline W) (ts : List (ℕ × ℕ)) → length (run sys p ts).workers ≡ length p.workers
  unfolding run
  run-workers p [] = refl
  run-workers p (t ∷ ts) = run-workers (turn sys p t) ts ∙ turn-workers p t

  module _ (p : Pipeline W) (m : ℕ) (rs : List (List (ℕ × ℕ))) (some_buffer : 0 < capacity)
      (some_worker : 0 < length p.workers) (eight : length rs ≡ 8) (le : length (flat rs) ≤ m)
      (rounds : All (IsRound (length p.workers)) rs) (s : IsSteady capacity m p)
      (remains : 0 < p.shared.remaining) where
    abbrev after : Pipeline W
    after = run sys p (flat rs)

    after-IsSteady : IsSteady capacity 0 after
    after-IsSteady = run-IsSteady sys capacity p m 0 (flat rs) (omega (arith, le)) s

    first : (v : Worker) × (get_elem? p.workers 0 ≡ some v)
    first = get_elem?-lt p.workers 0 some_worker

    eager_by_chunk : 0 < queued p.shared → (effort after < effort p) ⊎ AnyEager sys capacity after
    eager_by_chunk some_chunk =
        let (v, at) = first in
        elim (approach sys capacity 0 to_chunk ChunkWaits (AnyEager sys capacity)
          (chunk-IsApproach sys capacity 0) rs p m le s
          (named_in (length p.workers) 0 rs some_worker rounds)
          (inr ((some_chunk, remains), v, at, omega (arith, eight, to_chunk_bound v.pc)))) [
            | inl less ↦ inl less
            | inr (inl any) ↦ inr any
            | inr (inr (cond, u, there, near)) ↦ inr (record {
              place = 0;
              worker = u;
              there = there;
              eager = inl (
                  at_chunk u.pc near
                    (present-exits sys capacity after 0 0 u after-IsSteady there cond.1));
            })
          ]

    eager_by_job :
        There sys capacity 0 to_buffer JobWaits (AnyEager sys capacity) (length rs) p
        → (effort after < effort p) ⊎ AnyEager sys capacity after
    eager_by_job begun =
        elim (approach sys capacity 0 to_buffer JobWaits (AnyEager sys capacity)
          (job-IsApproach sys capacity 0 some_buffer) rs p m le s
          (named_in (length p.workers) 0 rs some_worker rounds) begun) [
            | inl less ↦ inl less
            | inr (inl any) ↦ inr any
            | inr (inr (cond, u, there, near)) ↦ inr (record {
              place = 0;
              worker = u;
              there = there;
              eager =
                  elim (at_buffer u.pc near
                    (present-exits sys capacity after 0 0 u after-IsSteady there cond.2)) [
                      | inl heavy ↦ inl heavy
                      | inr claim ↦ inr (claim, cond.1)
                    ];
            })
          ]

    -- While chunks remain, some worker becomes eager within eight rounds, unless work is done before that.
    becomes_eager : (effort after < effort p) ⊎ AnyEager sys capacity after
    becomes_eager = elim (dec_lt 0 (queued p.shared)) [
      | yes some_chunk ↦ eager_by_chunk some_chunk
      | no none_queued ↦ elim (dec_lt 0 (left p.shared)) [
        | yes some_job ↦
            let (v, at) = first in
            eager_by_job (
              inr (
                (omega (arith, none_queued), some_job, remains),
                v,
                at,
                omega (arith, eight, to_buffer_bound v.pc),
              ))
        | no none_left ↦
            let (i, w, at, has) =
              total-pos busy_at p.workers
                (omega (arith, s.sound.accounted, remains, none_queued, none_left)) in
            eager_by_job (
              inl
                (record { place = i; worker = w; there = at; eager = inl (weight-busy w.pc has) }))
      ]
    ]

  -- In the ninth round an eager worker has its turn.
  pub nine_rounds :
      (p : Pipeline W) (m : ℕ) (rs : List (List (ℕ × ℕ))) (r : List (ℕ × ℕ))
      → 0 < capacity
      → 0 < length p.workers
      → length rs ≡ 8
      → length (flat rs ++ r) ≤ m
      → All (IsRound (length p.workers)) rs
      → IsRound (length p.workers) r
      → IsSteady capacity m p
      → 0 < p.shared.remaining
      → effort (run sys p (flat rs ++ r)) < effort p
  nine_rounds p m rs r some_buffer some_worker eight le rounds last s remains =
      let size = length-append (flat rs) r in
      let q = run sys p (flat rs) in
      let s' = run-IsSteady sys capacity p m (length r) (flat rs) (omega (arith, size, le)) s in
      let before = run-effort sys capacity p m (flat rs) (omega (arith, size, le)) s in
      rw (run-append sys capacity p (flat rs) r)
        (elim (becomes_eager p m rs some_buffer some_worker eight (omega (arith, size, le)) rounds s
          remains) [
            | inl less ↦
                omega (arith, less, run-effort sys capacity q (length r) r (omega arith) s')
            | inr any ↦
                let here = get_elem?-le q.workers any.place any.worker any.there in
                omega (
                  arith,
                  before,
                  AnyEager-run sys capacity q (length r) r (omega arith) s' any
                      (last any.place (omega (arith, here, run-workers p (flat rs)))),
                )
          ])
