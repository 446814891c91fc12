-- ===== src/Engine/Fair/Nearer.antt =====
-- Round by round a worker comes nearer to what it has before it, unless some of the work is done meanwhile.
use b2c_fast_copy.Base.{
  ℕ, suc, ◌-◌, ◌≤◌, ◌<◌, ◌≡◌, ◌⊎◌, inl, inr, sym, subst, true, eq-cases, List, [], ◌∷◌, arith,
  length, length-append, get_elem?, some, flat, All,
}
use b2c_fast_copy.Win.Defs.{Os}
use b2c_fast_copy.Engine.Defs.{Pc, Worker}
use b2c_fast_copy.Engine.Worker.{Pipeline, dispatch, turn, run}
use b2c_fast_copy.Engine.Fair.{effort, IsQuiet}
use b2c_fast_copy.Engine.Fair.Turns.{
  names, IsSteady, IsCalm, run-IsSteady, run-effort, turn-own, turn-effort, turn-stays, turn-moves,
  run-append,
}
use b2c_fast_copy.Engine.Fair.Chase.{IsAhead, IsChase, chase, run-There}

module _ {W : Type 0} (sys : Os W) (capacity i : ℕ) (way : Pc → ℕ)
    (Cond Extra : Pipeline W → Type 0) where
  -- While `Cond` holds, a quiet step of worker `i` makes its way shorter, or leads to `Extra`.
  pub record IsApproach : Type 0 where
    pub calm : (p q : Pipeline W) → IsCalm p q → Cond p → Cond q
    pub nearer :
        (p : Pipeline W) (n target : ℕ) (v : Worker)
        → 0 < n
        → IsSteady capacity n p
        → get_elem? p.workers i ≡ some v
        → Cond p
        → let (t, v') = dispatch sys target i v.pc v p.shared in
          IsQuiet p.shared v.pc t v'.pc
          → IsCalm p (turn sys p (target, i))
          → (way v'.pc ≤ way v.pc - 1) ⊎ Extra (turn sys p (target, i))
    pub keep :
        (p : Pipeline W) (n : ℕ) (t : ℕ × ℕ)
        → 0 < n
        → IsSteady capacity n p
        → Extra p
        → (effort (turn sys p t) < effort p) ⊎ Extra (turn sys p t)

  abbrev Near : ℕ → Pipeline W → Pc → Type 0
  Near k p pc = Cond p × (way pc ≤ suc k)

  abbrev pub There : ℕ → Pipeline W → Type 0
  There k p = Extra p ⊎ (Cond p × (v : Worker) × (get_elem? p.workers i ≡ some v) × (way v.pc ≤ k))

  module _ (a : IsApproach) where
    own :
        (k : ℕ) (p : Pipeline W) (n target : ℕ) (v : Worker)
        → 0 < n
        → IsSteady capacity n p
        → get_elem? p.workers i ≡ some v
        → Near k p v.pc
        → IsAhead sys capacity i (Near k) (There k) p (turn sys p (target, i))
    own k p n target v some_turn s at (cond, far) =
        elim (turn-effort sys capacity p n (target, i) some_turn s) [
          | inl less ↦ inl less
          | inr calm ↦ elim (turn-own sys capacity p n target i v at some_turn s) [
            | inl less ↦ inl less
            | inr quiet ↦ elim (a.nearer p n target v some_turn s at cond quiet calm) [
              | inl shorter ↦ inr (
                  inr (
                    a.calm p (turn sys p (target, i)) calm cond,
                    (dispatch sys target i v.pc v p.shared).1,
                    turn-moves sys capacity p target i v at,
                    omega (arith, shorter, far),
                  ))
              | inr extra ↦ inr (inl extra)
            ]
          ]
        ]

    keep_there :
        (k : ℕ) (p : Pipeline W) (n : ℕ) (t : ℕ × ℕ)
        → 0 < n
        → IsSteady capacity n p
        → There k p
        → IsAhead sys capacity i (Near k) (There k) p (turn sys p t)
    keep_there k p n t some_turn s (inl extra) = elim (a.keep p n t some_turn s extra) [
      | inl less ↦ inl less
      | inr still ↦ inr (inl still)
    ]
    keep_there k p n (target, idx) some_turn s (inr (cond, v, at, near)) = elim (eq-cases idx i) [
      | inl same ↦
          subst (λ j. IsAhead sys capacity i (Near k) (There k) p (turn sys p (target, j)))
            (sym same) (own k p n target v some_turn s at (cond, omega (arith, near)))
      | inr ne ↦ elim (turn-effort sys capacity p n (target, idx) some_turn s) [
        | inl less ↦ inl less
        | inr calm ↦ inr (
            inr (
              a.calm p (turn sys p (target, idx)) calm cond,
              v,
              turn-stays sys capacity p target i idx v ne at,
              near,
            ))
      ]
    ]

    approach-IsChase : (k : ℕ) → IsChase sys capacity i (Near k) (There k)
    approach-IsChase k = record {
      own = λ p n target v some_turn s at near. own k p n target v some_turn s at near;
      other = λ p q pc calm (cond, far). (a.calm p q calm cond, far);
      keep = λ p n t some_turn s there. keep_there k p n t some_turn s there;
    }

    -- One round, and as many as there are steps to make.
    round :
        (k : ℕ) (p : Pipeline W) (m : ℕ) (ts : List (ℕ × ℕ))
        → length ts ≤ m
        → IsSteady capacity m p
        → names i ts ≡ true
        → There (suc k) p
        → IsAhead sys capacity i (Near k) (There k) p (run sys p ts)
    round k p m ts le s named (inl extra) =
        run-There sys capacity i (Near k) (There k) (approach-IsChase k) p m ts le s (inl extra)
    round k p m ts le s named (inr (cond, v, at, far)) =
        chase sys capacity i (Near k) (There k) (approach-IsChase k) p m v ts le s at (cond, far)
          named

    pub approach :
        (rs : List (List (ℕ × ℕ))) (p : Pipeline W) (m : ℕ)
        → length (flat rs) ≤ m
        → IsSteady capacity m p
        → All (λ ts. names i ts ≡ true) rs
        → There (length rs) p
        → (effort (run sys p (flat rs)) < effort p) ⊎ There 0 (run sys p (flat rs))
    unfolding run
    approach [] p m le s named there = inr there
    approach (ts ∷ rs) p m le s named there =
        let size = length-append ts (flat rs) in
        let q = run sys p ts in
        let s' = run-IsSteady sys capacity p m (length (flat rs)) ts (omega (arith, size, le)) s in
        let after = run-effort sys capacity q (length (flat rs)) (flat rs) (omega arith) s' in
        rw (run-append sys capacity p ts (flat rs))
          (elim (round (length rs) p m ts (omega (arith, size, le)) s named.0 there) [
            | inl less ↦ inl (omega (arith, less, after))
            | inr still ↦ elim (approach rs q (length (flat rs)) (omega arith) s' named.1 still) [
              | inl less ↦
                  inl (
                    omega (arith, less, run-effort sys capacity p m ts (omega (arith, size, le)) s))
              | inr there' ↦ inr there'
            ]
          ])
