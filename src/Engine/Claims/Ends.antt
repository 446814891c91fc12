-- ===== src/Engine/Claims/Ends.antt =====
-- The threads of a pool come to an end, in whatever order they move.
use b2c_fast_copy.Base.{
  ℕ, zero, suc, ◌+◌, ◌*◌, ◌≤◌, ◌≡◌, ◌≢◌, ◌<◌, refl, inl, inr, ap, sym, subst, ◌∙◌, Bool, true,
  false, ◌||◌, ◌==◌, eq-cases, get_elem?-set_other, get_elem?-le, length-set, flat, All, some, none,
  List, [], ◌∷◌, arith, get_elem?, length, drop, drop_end, drop_past, drop_next, total, total-set,
  le-total, total-pos, Option-cases, ◌++◌, ◌⊎◌, All-of,
}
use native.Mathlib.Decide.{dec_lt}
use b2c_fast_copy.Engine.Claims.{
  Thread, idle, working, reporting, left, Pool, idle_threads, start_pool, move, turn, run, IsLeft,
}
use b2c_fast_copy.Engine.Claims.Once.{replace_thread, claim_cases}

-- The moves that a thread has left with what it has in hand.
abbrev pub moves_left : {T R : Type 0} → Thread T R → ℕ
moves_left idle = 1
moves_left (working i item) = 3
moves_left (reporting i item result) = 2
moves_left left = 0

-- 1 for a thread that has not left.
abbrev pub live : {T R : Type 0} → Thread T R → ℕ
live left = 0
live _ = 1

-- Thread `k` has a turn.
abbrev pub has_turn : ℕ → List ℕ → Bool
has_turn k [] = false
has_turn k (j ∷ js) = j == k || has_turn k js

-- A round: each of `n` threads has a turn.
abbrev pub IsRound : ℕ → List ℕ → Type 0
IsRound n ks = (k : ℕ) → k < n → has_turn k ks ≡ true

module _ {T R S : Type 0} (items : List T) (work : T → S → S × R) (report : T → R → S → S) where
  abbrev live_at : Pool T R S → ℕ → ℕ
  live_at p k = elim (get_elem? p.threads k) [ none ↦ 0 | some th ↦ live th ]

  abbrev budget : Pool T R S → ℕ
  budget p = 3 * length (drop p.next items) + total moves_left p.threads

  budget-move :
      (p : Pool T R S) (k : ℕ) (th : Thread T R)
      → get_elem? p.threads k ≡ some th
      → budget (replace_thread p k (move items work report th p.next p.shared)) + live th ≤ budget p
  unfolding move
  budget-move p k idle at = elim (claim_cases items work report p.next p.shared) [
    | inl (end, e) ↦
        let stop : drop p.next items ≡ [] = drop_end items p.next end in
        let past = drop_past items p.next stop in
        rw e (
          omega
            (arith, ap length past, ap length stop, total-set moves_left p.threads k idle left at))
    | inr (item, there, e) ↦ rw e (
        omega (
          arith,
          ap length (drop_next items p.next item there),
          total-set moves_left p.threads k idle (working p.next item) at,
        ))
  ]
  budget-move p k (working i item) at = omega (
    arith,
    total-set moves_left p.threads k (working i item) (reporting i item (work item p.shared).1) at,
  )
  budget-move p k (reporting i item result) at =
      omega (arith, total-set moves_left p.threads k (reporting i item result) idle at)
  budget-move p k left at = omega (arith, total-set moves_left p.threads k left left at)

  budget-turn :
      (p : Pool T R S) (k : ℕ) → budget (turn items work report p k) + live_at p k ≤ budget p
  unfolding turn
  budget-turn p k = elim (Option-cases (get_elem? p.threads k)) [
    | inl e ↦ rw (e, turn) (rw (e, live_at) (omega arith))
    | inr (th, e) ↦ rw (e, turn) (rw (e, live_at) (budget-move p k th e))
  ]

  budget-run : (ks : List ℕ) (p : Pool T R S) → budget (run items work report p ks) ≤ budget p
  unfolding run
  budget-run [] p = omega arith
  budget-run (k ∷ ks) p = omega (arith, budget-turn p k, budget-run ks (turn items work report p k))

  turn-stays :
      (p : Pool T R S) (k j : ℕ) (th : Thread T R)
      → j ≢ k
      → get_elem? p.threads k ≡ some th
      → get_elem? (turn items work report p j).threads k ≡ some th
  unfolding turn
  turn-stays p k j th ne at = elim (Option-cases (get_elem? p.threads j)) [
    | inl e ↦ rw (e, turn) at
    | inr (u, e) ↦
        rw (e, turn)
          (get_elem?-set_other p.threads j k (move items work report u p.next p.shared).2 ne ∙ at)
  ]

  -- A thread that has not left uses some of the budget with its turn.
  live_turn :
      (ks : List ℕ) (p : Pool T R S) (k : ℕ) (th : Thread T R)
      → get_elem? p.threads k ≡ some th
      → live th ≡ 1
      → has_turn k ks ≡ true
      → budget (run items work report p ks) < budget p
  unfolding run
  live_turn [] p k th at alive named = absurd (cc)
  live_turn (j ∷ js) p k th at alive named = elim (eq-cases j k) [
    | inl same ↦
        let here : live_at p j ≡ 1 = ap (live_at p) same ∙ rw (at, live_at) alive in
        omega (arith, here, budget-turn p j, budget-run js (turn items work report p j))
    | inr ne ↦ omega (
      arith,
      budget-turn p j,
      live_turn js (turn items work report p j) k th (turn-stays p k j th ne at) alive
          (ground (arith, named, ne)),
    )
  ]

  turn-threads :
      (p : Pool T R S) (k : ℕ) → length (turn items work report p k).threads ≡ length p.threads
  unfolding turn
  turn-threads p k = elim (Option-cases (get_elem? p.threads k)) [
    | inl e ↦ rw (e, turn) refl
    | inr (u, e) ↦
        rw (e, turn) (length-set p.threads k (move items work report u p.next p.shared).2)
  ]

  run-threads :
      (p : Pool T R S) (ks : List ℕ)
      → length (run items work report p ks).threads ≡ length p.threads
  unfolding run
  run-threads p [] = refl
  run-threads p (k ∷ ks) = run-threads (turn items work report p k) ks ∙ turn-threads p k

  run-append :
      (p : Pool T R S) (ks ls : List ℕ)
      → run items work report p (ks ++ ls) ≡ run items work report (run items work report p ks) ls
  unfolding run
  run-append p [] ls = refl
  run-append p (k ∷ ks) ls = run-append (turn items work report p k) ks ls

  live-cases : (th : Thread T R) → (live th ≡ 1) ⊎ (th ≡ left)
  live-cases idle = inl refl
  live-cases (working i item) = inl refl
  live-cases (reporting i item result) = inl refl
  live-cases left = inr refl

  -- Nobody is left who has not left.
  gone-turn :
      (p : Pool T R S) (k : ℕ)
      → total live p.threads ≡ 0
      → total live (turn items work report p k).threads ≡ 0
  unfolding turn move
  gone-turn p k none_live = elim (Option-cases (get_elem? p.threads k)) [
    | inl e ↦ rw (e, turn) none_live
    | inr (th, e) ↦ elim (live-cases th) [
      | inl alive ↦ absurd (omega (arith, alive, none_live, le-total live p.threads k th e))
      | inr is ↦
          let at : get_elem? p.threads k ≡ some left = e ∙ ap some is in
          rw (at, turn) (omega (arith, none_live, total-set live p.threads k left left at))
    ]
  ]

  gone-run :
      (ks : List ℕ) (p : Pool T R S)
      → total live p.threads ≡ 0
      → total live (run items work report p ks).threads ≡ 0
  unfolding run
  gone-run [] p h = h
  gone-run (k ∷ ks) p h = gone-run ks (turn items work report p k) (gone-turn p k h)

  live-moves : (th : Thread T R) → live th ≤ moves_left th
  live-moves idle = omega arith
  live-moves (working i item) = omega arith
  live-moves (reporting i item result) = omega arith
  live-moves left = omega arith

  total-live : (ths : List (Thread T R)) → total live ths ≤ total moves_left ths
  total-live [] = omega arith
  total-live (th ∷ ths) = omega (arith, live-moves th, total-live ths)

  runs_out :
      (e : ℕ) (rs : List (List ℕ)) (p : Pool T R S)
      → budget p ≤ e
      → e ≤ length rs
      → All (IsRound (length p.threads)) rs
      → total live (run items work report p (flat rs)).threads ≡ 0
  unfolding run
  runs_out zero rs p small enough rounds =
      gone-run (flat rs) p (omega (arith, total-live p.threads, small))
  runs_out (suc e) [] p small enough rounds = absurd (omega (arith, enough))
  runs_out (suc e) (r ∷ rs) p small enough rounds = elim (dec_lt 0 (total live p.threads)) [
    | no none_live ↦ gone-run (r ++ flat rs) p (omega (arith, none_live))
    | yes some_live ↦
        let (k, th, at, alive) = total-pos live p.threads some_live in
        let here = get_elem?-le p.threads k th at in
        let one : live th ≡ 1 = ground (arith, alive) in
        let less = live_turn r p k th at one (rounds.0 k here) in
        rw (run-append p r (flat rs)) (
          runs_out e rs (run items work report p r) (omega (arith, less, small))
            (omega (arith, enough))
            (subst (λ n. All (IsRound n) rs) (sym (run-threads p r)) rounds.1))
  ]

  idle_budget : (n : ℕ) → total moves_left (idle_threads {T = T} {R = R} n) ≡ n
  idle_budget zero = refl
  idle_budget (suc n) = omega (arith, idle_budget n)

  idle-length : (n : ℕ) → length (idle_threads {T = T} {R = R} n) ≡ n
  idle-length zero = refl
  idle-length (suc n) = omega (arith, idle-length n)

  -- A pool ends: after three rounds for each item, and one more for each thread, in each of which every
  -- thread has a turn, all threads have left, whatever the order of the turns and what the work does.
  pub run-IsLeft :
      (n : ℕ) (s : S) (rs : List (List ℕ))
      → All (IsRound n) rs
      → 3 * length items + n ≤ length rs
      → All IsLeft (run items work report (start_pool n s) (flat rs)).threads
  run-IsLeft n s rs rounds enough = All-of IsLeft p.threads (λ k th at. elim (live-cases th) [
    | inl alive ↦ absurd (omega (arith, alive, le-total live p.threads k th at, none_live))
    | inr is ↦ is
  ])
    where
      p : Pool T R S
      p = run items work report (start_pool n s) (flat rs)

      none_live : total live p.threads ≡ 0
      none_live =
          runs_out (3 * length items + n) rs (start_pool n s) (omega (arith, idle_budget n)) enough
            (subst (λ m. All (IsRound m) rs) (sym (idle-length n)) rounds)
