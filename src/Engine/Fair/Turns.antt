-- ===== src/Engine/Fair/Turns.antt =====
-- What the turns of a schedule do to the work that is left.
use b2c_fast_copy.Base.{
  ℕ, suc, ◌+◌, ◌≤◌, ◌<◌, ◌≡◌, ◌≢◌, ◌⊎◌, refl, inl, inr, ◌∙◌, Bool, false, ◌||◌, List, [], ◌∷◌, ◌++◌,
  arith, total, total-set, le-total, length, get_elem?, get_elem?-set_other, get_elem?-set_here,
  Option-cases, some, ◌==◌,
}
use b2c_fast_copy.Win.Defs.{Os}
use b2c_fast_copy.Engine.Defs.{Worker}
use b2c_fast_copy.Engine.Worker.{Pipeline, dispatch, step, turn, run}
use b2c_fast_copy.Engine.Worker.Conserve.{busy, dispatch-remaining_le}
use b2c_fast_copy.Engine.Sound.{IsSound, busy_at, turn-IsSound}
use b2c_fast_copy.Engine.Fair.{weight_at, left, queued, effort, IsQuiet, dispatch-effort}
use b2c_fast_copy.Engine.Fair.Paths.{returns, exits, dispatch-IsOrderly}

abbrev pub returns_at : Worker → ℕ
returns_at w = returns w.pc

abbrev pub exits_at : Worker → ℕ
exits_at w = exits w.pc

-- Worker `i` has a turn.
abbrev pub names : ℕ → List (ℕ × ℕ) → Bool
names i [] = false
names i ((target, j) ∷ ts) = j == i || names i ts

module _ {W : Type 0} where
  -- A sound pipeline whose rings are open, in which nobody gives a buffer back while jobs are left, and
  -- nobody has left while chunks remain.
  pub record IsSteady (capacity turns : ℕ) (p : Pipeline W) : Type 0 where
    pub sound : IsSound capacity turns p
    pub running : p.shared.rings.is_shutdown ≡ false
    pub unread : 0 < left p.shared → total returns_at p.workers ≡ 0
    pub present : 0 < p.shared.remaining → total exits_at p.workers ≡ 0

  -- The same work is left.
  pub record IsCalm (p q : Pipeline W) : Type 0 where
    pub left : left q.shared ≡ left p.shared
    pub queued : queued q.shared ≡ queued p.shared
    pub remaining : q.shared.remaining ≡ p.shared.remaining
    pub effort : effort q ≡ effort p

module _ {W : Type 0} (sys : Os W) (capacity : ℕ) where
  busy-fits :
      (p : Pipeline W) (n idx : ℕ) (w : Worker)
      → get_elem? p.workers idx ≡ some w
      → IsSteady capacity n p
      → busy w.pc ≤ p.shared.remaining
  busy-fits p n idx w e s = omega (arith, s.sound.accounted, le-total busy_at p.workers idx w e)

  pub turn-IsSteady :
      (p : Pipeline W) (n : ℕ) (t : ℕ × ℕ)
      → IsSteady capacity (suc n) p
      → IsSteady capacity n (turn sys p t)
  unfolding turn step
  turn-IsSteady p n (target, idx) s = elim (Option-cases (get_elem? p.workers idx)) [
    | inl e ↦ record {
      sound = turn-IsSound sys capacity p n (target, idx) s.sound;
      running = rw (e, turn) s.running;
      unread = rw (e, turn) s.unread;
      present = rw (e, turn) s.present;
    }
    | inr (w, e) ↦
        let o =
          dispatch-IsOrderly sys target idx w.pc w p.shared (omega (arith, s.sound.unwrapped)) in
        let w' : Worker = (dispatch sys target idx w.pc w p.shared).1 in
        record {
          sound = turn-IsSound sys capacity p n (target, idx) s.sound;
          running = rw (e, turn) (o.running ∙ s.running);
          unread =
              rw (e, turn)
                (λ some_job. omega (
                  arith,
                  o.unread some_job,
                  s.unread (omega (arith, o.fewer, some_job)),
                  total-set returns_at p.workers idx w w' e,
                ));
          present =
              rw (e, turn)
                (λ some_chunk. omega (
                  arith,
                  o.leaves some_chunk,
                  s.present (
                      omega (
                        arith,
                        dispatch-remaining_le sys target idx w.pc w p.shared
                            (busy-fits p (suc n) idx w e s),
                        some_chunk,
                      )),
                  total-set exits_at p.workers idx w w' e,
                ));
        }
  ]

  shorter : (p : Pipeline W) (m n : ℕ) → n ≤ m → IsSteady capacity m p → IsSteady capacity n p
  shorter p m n le s = record {
    sound = record {
      buffers = s.sound.buffers;
      accounted = s.sound.accounted;
      bounded = s.sound.bounded;
      unwrapped = omega (arith, s.sound.unwrapped);
    };
    running = s.running;
    unread = s.unread;
    present = s.present;
  }

  -- The steady states of a schedule, by the number of turns that may still come.
  pub next-IsSteady :
      (p : Pipeline W) (m n : ℕ) (t : ℕ × ℕ)
      → suc n ≤ m
      → IsSteady capacity m p
      → IsSteady capacity n (turn sys p t)
  next-IsSteady p m n t le s = turn-IsSteady p n t (shorter p m (suc n) le s)

  pub run-IsSteady :
      (p : Pipeline W) (m n : ℕ) (ts : List (ℕ × ℕ))
      → length ts + n ≤ m
      → IsSteady capacity m p
      → IsSteady capacity n (run sys p ts)
  unfolding run
  run-IsSteady p m n [] le s = shorter p m n (omega (arith, le)) s
  run-IsSteady p m n (t ∷ ts) le s =
      run-IsSteady (turn sys p t) (length ts + n) n ts (omega arith)
        (next-IsSteady p m (length ts + n) t (omega (arith, le)) s)

  -- The turn of a worker does some of the work, or its step is quiet.
  pub turn-own :
      (p : Pipeline W) (n target idx : ℕ) (w : Worker)
      → get_elem? p.workers idx ≡ some w
      → 0 < n
      → IsSteady capacity n p
      → let (t, v) = dispatch sys target idx w.pc w p.shared in
        (effort (turn sys p (target, idx)) < effort p) ⊎ IsQuiet p.shared w.pc t v.pc
  unfolding turn step
  turn-own p n target idx w e some_turn s =
      let w' : Worker = (dispatch sys target idx w.pc w p.shared).1 in
      elim (dispatch-effort sys target idx w.pc w p.shared (omega (arith, s.sound.unwrapped))) [
        | inl less ↦
            inl (rw (e, turn) (omega (arith, less, total-set weight_at p.workers idx w w' e)))
        | inr quiet ↦ inr quiet
      ]

  -- So does any turn, or all is calm.
  pub turn-effort :
      (p : Pipeline W) (n : ℕ) (t : ℕ × ℕ)
      → 0 < n
      → IsSteady capacity n p
      → (effort (turn sys p t) < effort p) ⊎ IsCalm p (turn sys p t)
  unfolding turn step
  turn-effort p n (target, idx) some_turn s = elim (Option-cases (get_elem? p.workers idx)) [
    | inl e ↦
        inr (rw (e, turn) (record { left = refl; queued = refl; remaining = refl; effort = refl }))
    | inr (w, e) ↦ elim (turn-own p n target idx w e some_turn s) [
      | inl less ↦ inl less
      | inr quiet ↦
          let w' : Worker = (dispatch sys target idx w.pc w p.shared).1 in
          inr (
            rw (e, turn)
              (record {
                left = quiet.left;
                queued = quiet.queued;
                remaining = quiet.remaining;
                effort = omega (
                  arith,
                  quiet.left,
                  quiet.queued,
                  quiet.light,
                  quiet.light',
                  total-set weight_at p.workers idx w w' e,
                );
              }))
    ]
  ]

  pub run-effort :
      (p : Pipeline W) (m : ℕ) (ts : List (ℕ × ℕ))
      → length ts ≤ m
      → IsSteady capacity m p
      → effort (run sys p ts) ≤ effort p
  unfolding run
  run-effort p m [] le s = omega arith
  run-effort p m (t ∷ ts) le s =
      let rest =
        run-effort (turn sys p t) (length ts) ts (omega arith)
          (next-IsSteady p m (length ts) t (omega (arith, le)) s) in
      elim (turn-effort p m t (omega (arith, le)) s) [
        | inl less ↦ omega (arith, rest, less)
        | inr calm ↦ omega (arith, rest, calm.effort)
      ]

  -- A worker stays where it is while others have their turns.
  pub turn-stays :
      (p : Pipeline W) (target i j : ℕ) (v : Worker)
      → j ≢ i
      → get_elem? p.workers i ≡ some v
      → get_elem? (turn sys p (target, j)).workers i ≡ some v
  unfolding turn
  turn-stays p target i j v ne at = elim (Option-cases (get_elem? p.workers j)) [
    | inl e ↦ rw (e, turn) at
    | inr (w, e) ↦
        rw (e, turn) (get_elem?-set_other p.workers j i (step sys target j w p.shared).1 ne ∙ at)
  ]

  -- A worker after its own turn.
  pub turn-moves :
      (p : Pipeline W) (target i : ℕ) (v : Worker)
      → get_elem? p.workers i ≡ some v
      → get_elem? (turn sys p (target, i)).workers i
        ≡ some (dispatch sys target i v.pc v p.shared).1
  unfolding turn step
  turn-moves p target i v at =
      rw (at, turn) (get_elem?-set_here p.workers i (dispatch sys target i v.pc v p.shared).1 v at)

  pub run-append :
      (p : Pipeline W) (ts us : List (ℕ × ℕ)) → run sys p (ts ++ us) ≡ run sys (run sys p ts) us
  unfolding run
  run-append p [] us = refl
  run-append p (t ∷ ts) us = run-append (turn sys p t) ts us
