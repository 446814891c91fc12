-- ===== src/Engine/Fair/Chase.antt =====
-- A worker that gets a turn does what it has before it, unless some of the work is done meanwhile.
use b2c_fast_copy.Base.{
  ℕ, ◌≤◌, ◌<◌, ◌≡◌, ◌⊎◌, inl, inr, sym, subst, true, eq-cases, List, [], ◌∷◌, arith, length,
  get_elem?, some,
}
use b2c_fast_copy.Win.Defs.{Os}
use b2c_fast_copy.Engine.Defs.{Pc, Worker}
use b2c_fast_copy.Engine.Worker.{Pipeline, turn, run}
use b2c_fast_copy.Engine.Fair.{effort}
use b2c_fast_copy.Engine.Fair.Turns.{
  names, IsSteady, IsCalm, next-IsSteady, turn-effort, run-effort, turn-stays,
}

module _ {W : Type 0} (sys : Os W) (capacity i : ℕ) (Near : Pipeline W → Pc → Type 0)
    (There : Pipeline W → Type 0) where
  -- Some of the work is done on the way to `q`, or `q` is there.
  abbrev pub IsAhead : (p q : Pipeline W) → Type 0
  IsAhead p q = (effort q < effort p) ⊎ There q

  -- A turn of worker `i` brings it from `Near` to `There`; calm turns of others leave it near, and no turn
  -- leads away.
  pub record IsChase : Type 0 where
    pub own :
        (p : Pipeline W) (n target : ℕ) (v : Worker)
        → 0 < n
        → IsSteady capacity n p
        → get_elem? p.workers i ≡ some v
        → Near p v.pc
        → IsAhead p (turn sys p (target, i))
    pub other : (p q : Pipeline W) (pc : Pc) → IsCalm p q → Near p pc → Near q pc
    pub keep :
        (p : Pipeline W) (n : ℕ) (t : ℕ × ℕ)
        → 0 < n
        → IsSteady capacity n p
        → There p
        → IsAhead p (turn sys p t)

  module _ (c : IsChase) where
    -- Work that is done later counts from the start.
    pub later : (p q r : Pipeline W) → effort q ≤ effort p → IsAhead q r → IsAhead p r
    later p q r le (inl less) = inl (omega (arith, le, less))
    later p q r le (inr there) = inr there

    turn-effort_le :
        (p : Pipeline W) (m : ℕ) (t : ℕ × ℕ)
        → 0 < m
        → IsSteady capacity m p
        → effort (turn sys p t) ≤ effort p
    turn-effort_le p m t some_turn s = elim (turn-effort sys capacity p m t some_turn s) [
      | inl less ↦ omega (arith, less)
      | inr calm ↦ omega (arith, calm.effort)
    ]

    pub run-There :
        (p : Pipeline W) (m : ℕ) (ts : List (ℕ × ℕ))
        → length ts ≤ m
        → IsSteady capacity m p
        → There p
        → IsAhead p (run sys p ts)
    unfolding run
    run-There p m [] le s there = inr there
    run-There p m (t ∷ ts) le s there =
        let s' = next-IsSteady sys capacity p m (length ts) t (omega (arith, le)) s in
        elim (c.keep p m t (omega (arith, le)) s there) [
          | inl less ↦ inl (
              omega (
                arith,
                less,
                run-effort sys capacity (turn sys p t) (length ts) ts (omega arith) s',
              ))
          | inr still ↦
              later p (turn sys p t) (run sys (turn sys p t) ts)
                (turn-effort_le p m t (omega (arith, le)) s)
                (run-There (turn sys p t) (length ts) ts (omega arith) s' still)
        ]

    -- A schedule in which the worker has a turn does some of the work, or leads there.
    pub chase :
        (p : Pipeline W) (m : ℕ) (v : Worker) (ts : List (ℕ × ℕ))
        → length ts ≤ m
        → IsSteady capacity m p
        → get_elem? p.workers i ≡ some v
        → Near p v.pc
        → names i ts ≡ true
        → IsAhead p (run sys p ts)
    unfolding run
    chase p m v [] le s at near named = absurd (cc)
    chase p m v ((target, j) ∷ ts) le s at near named =
        let t : ℕ × ℕ = (target, j) in
        let s' = next-IsSteady sys capacity p m (length ts) t (omega (arith, le)) s in
        let after = run-effort sys capacity (turn sys p t) (length ts) ts (omega arith) s' in
        elim (eq-cases j i) [
          | inl same ↦
              elim (subst (λ k. IsAhead p (turn sys p (target, k))) (sym same)
                (c.own p m target v (omega (arith, le)) s at near)) [
                  | inl less ↦ inl (omega (arith, less, after))
                  | inr there ↦
                      later p (turn sys p t) (run sys (turn sys p t) ts)
                        (turn-effort_le p m t (omega (arith, le)) s)
                        (run-There (turn sys p t) (length ts) ts (omega arith) s' there)
                ]
          | inr ne ↦ elim (turn-effort sys capacity p m t (omega (arith, le)) s) [
            | inl less ↦ inl (omega (arith, less, after))
            | inr calm ↦
                later p (turn sys p t) (run sys (turn sys p t) ts) (omega (arith, calm.effort)) (
                  chase (turn sys p t) (length ts) v ts (omega arith) s'
                    (turn-stays sys capacity p target i j v ne at)
                    (c.other p (turn sys p t) v.pc calm near) (ground (arith, named, ne)))
          ]
        ]
