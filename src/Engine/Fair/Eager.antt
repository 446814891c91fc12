-- ===== src/Engine/Fair/Eager.antt =====
-- A worker with work in hand, or with a buffer and a job to take, does some of the work with its turn.
use b2c_fast_copy.Base.{
  ℕ, ◌≤◌, ◌<◌, ◌≡◌, ◌⊎◌, inl, inr, sym, subst, true, eq-cases, List, arith, length, get_elem?, some,
  le-total,
}
use b2c_fast_copy.Win.Defs.{Os}
use b2c_fast_copy.Engine.Defs.{Pc, Worker}
use b2c_fast_copy.Engine.Worker.{Pipeline, turn, run}
use b2c_fast_copy.Engine.Fair.{weight, left, effort}
use b2c_fast_copy.Engine.Fair.Paths.{claims, exits, claims-loud}
use b2c_fast_copy.Engine.Fair.Turns.{
  exits_at, names, IsSteady, IsCalm, turn-own, turn-effort, turn-stays,
}
use b2c_fast_copy.Engine.Fair.Chase.{IsChase, chase}

module _ {W : Type 0} (sys : Os W) (capacity : ℕ) where
  -- A worker whose next step does some of the work.
  abbrev pub IsEager : Pipeline W → Pc → Type 0
  IsEager p pc = (0 < weight pc) ⊎ ((claims pc ≡ 1) × (0 < left p.shared))

  abbrev Never : Pipeline W → Type 0
  Never p = ◌≡◌ {A = ℕ} 1 0

  eager-own :
      (i : ℕ) (p : Pipeline W) (n target : ℕ) (v : Worker)
      → 0 < n
      → IsSteady capacity n p
      → get_elem? p.workers i ≡ some v
      → IsEager p v.pc
      → effort (turn sys p (target, i)) < effort p
  eager-own i p n target v some_turn s at eager =
      elim (turn-own sys capacity p n target i v at some_turn s) [
        | inl less ↦ less
        | inr quiet ↦ absurd (elim eager [
          | inl heavy ↦ omega (arith, heavy, quiet.light)
          | inr (has, some_job) ↦
              omega (arith, claims-loud sys target i v.pc v p.shared has some_job quiet)
        ])
      ]

  IsEager-calm : (p q : Pipeline W) (pc : Pc) → IsCalm p q → IsEager p pc → IsEager q pc
  IsEager-calm p q pc calm (inl heavy) = inl heavy
  IsEager-calm p q pc calm (inr (has, some_job)) = inr (has, omega (arith, calm.left, some_job))

  IsEager-IsChase : (i : ℕ) → IsChase sys capacity i IsEager Never
  IsEager-IsChase i = record {
    own = λ p n target v some_turn s at eager. inl (eager-own i p n target v some_turn s at eager);
    other = λ p q pc calm eager. IsEager-calm p q pc calm eager;
    keep = λ p n t some_turn s there. absurd (omega (arith, there));
  }

  -- Some worker is eager.
  pub record AnyEager (p : Pipeline W) : Type 0 where
    pub place : ℕ
    pub worker : Worker
    pub there : get_elem? p.workers place ≡ some worker
    pub eager : IsEager p worker.pc

  pub AnyEager-turn :
      (p : Pipeline W) (n : ℕ) (t : ℕ × ℕ)
      → 0 < n
      → IsSteady capacity n p
      → AnyEager p
      → (effort (turn sys p t) < effort p) ⊎ AnyEager (turn sys p t)
  AnyEager-turn p n (target, idx) some_turn s any = elim (eq-cases idx any.place) [
    | inl same ↦ inl (
        subst (λ k. effort (turn sys p (target, k)) < effort p) (sym same)
          (eager-own any.place p n target any.worker some_turn s any.there any.eager))
    | inr ne ↦ elim (turn-effort sys capacity p n (target, idx) some_turn s) [
      | inl less ↦ inl less
      | inr calm ↦ inr (record {
        place = any.place;
        worker = any.worker;
        there = turn-stays sys capacity p target any.place idx any.worker ne any.there;
        eager = IsEager-calm p (turn sys p (target, idx)) any.worker.pc calm any.eager;
      })
    ]
  ]

  -- A round in which all workers have a turn does some of the work, if one of them is eager.
  pub AnyEager-run :
      (p : Pipeline W) (m : ℕ) (ts : List (ℕ × ℕ))
      → length ts ≤ m
      → IsSteady capacity m p
      → (any : AnyEager p) → names any.place ts ≡ true
      → effort (run sys p ts) < effort p
  AnyEager-run p m ts le s any named =
      elim (chase sys capacity any.place IsEager Never (IsEager-IsChase any.place) p m any.worker ts
        le s any.there any.eager named) [
          | inl less ↦ less
          | inr never ↦ absurd (omega (arith, never))
        ]

  pub present-exits :
      (p : Pipeline W) (n i : ℕ) (v : Worker)
      → IsSteady capacity n p
      → get_elem? p.workers i ≡ some v
      → 0 < p.shared.remaining
      → exits v.pc ≡ 0
  present-exits p n i v s at some_chunk =
      omega (arith, le-total exits_at p.workers i v at, s.present some_chunk)
