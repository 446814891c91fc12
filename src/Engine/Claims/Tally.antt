-- ===== src/Engine/Claims/Tally.antt =====
-- What the threads of a pool add up: each item counts once, whichever thread takes it.
use b2c_fast_copy.Base.{
  drop_past, drop_next, ℕ, zero, suc, ◌+◌, ◌≤◌, ◌<◌, ◌≡◌, refl, inl, inr, some, List, [], ◌∷◌,
  arith, get_elem?, length, length-set, drop, drop_end, subst, total, total-set, le-total, All,
  All-get_elem?, get_elem?-lt, ◌∙◌, ap, subst,
}
use b2c_fast_copy.Engine.Claims.{
  Thread, idle, working, reporting, left, Pool, IsLeft, idle_threads, start_pool, move, run,
}
use b2c_fast_copy.Engine.Claims.Once.{
  IsTaken, IsOnce, replace_thread, claim_cases, run_keeps, start-IsOnce, run-IsOnce, idle-total,
}

-- The weight of what a thread has in hand.
abbrev pub in_hand : {T R : Type 0} → (T → ℕ) → (T → R → ℕ) → Thread T R → ℕ
in_hand w v idle = 0
in_hand w v (working i item) = w item
in_hand w v (reporting i item result) = v item result
in_hand w v left = 0

pub drop_all : {T : Type 0} (xs : List T) (n : ℕ) → length xs ≤ n → drop n xs ≡ []
drop_all [] zero le = refl
drop_all [] (suc n) le = refl
drop_all (x ∷ xs) zero le = absurd (omega arith)
drop_all (x ∷ xs) (suc n) le = drop_all xs n (omega arith)

-- `m` measures the shared state, `w` an item and `v` a result. The work on an item leaves the measure
-- alone, and a report adds the weight of its result.
pub record IsMeasured {T R S : Type 0} (work : T → S → S × R) (report : T → R → S → S)
    (P : S → Type 0) (m : S → ℕ) (w : T → ℕ) (v : T → R → ℕ) (limit : ℕ) : Type 0 where
  pub on_work :
      (t : T) (s : S) → P s → P (work t s).0 × (m (work t s).0 ≡ m s) × (v t (work t s).1 ≡ w t)
  pub on_report :
      (t : T) (r : R) (s : S)
      → P s
      → m s + v t r < limit
      → P (report t r s) × (m (report t r s) ≡ m s + v t r)

module _ {T R S : Type 0} (items : List T) (work : T → S → S × R) (report : T → R → S → S)
    (P : S → Type 0) (m : S → ℕ) (w : T → ℕ) (v : T → R → ℕ) (limit : ℕ)
    (laws : IsMeasured work report P m w v limit) where
  -- The items that are reported, in hand and not yet taken add up to the whole.
  abbrev pub IsTallied : ℕ → Pool T R S → Type 0
  IsTallied whole p =
      P p.shared
      × (m p.shared + total (in_hand w v) p.threads + total w (drop p.next items) ≡ whole)

  move-IsTallied :
      (whole : ℕ) (p : Pool T R S) (k : ℕ) (th : Thread T R)
      → whole < limit
      → get_elem? p.threads k ≡ some th
      → IsTallied whole p
      → IsTallied whole (replace_thread p k (move items work report th p.next p.shared))
  unfolding move
  move-IsTallied whole p k idle few at h = elim (claim_cases items work report p.next p.shared) [
    | inl (end, e) ↦
        let stop : drop p.next items ≡ [] = drop_end items p.next end in
        let past = drop_past items p.next stop in
        rw e (
          h.0,
          omega (
            arith,
            h.1,
            total-set hand p.threads k idle left at,
            ap (total w) past,
            ap (total w) stop,
          ),
        )
    | inr (item, there, e) ↦
        let more : T → Thread T R = working p.next in
        rw e (
          h.0,
          omega (
            arith,
            h.1,
            total-set hand p.threads k idle (more item) at,
            ap (total w) (drop_next items p.next item there),
          ),
        )
  ]
    where
      hand : Thread T R → ℕ
      hand = in_hand w v
  move-IsTallied whole p k (working i item) few at h =
      let law = laws.on_work item p.shared h.0 in
      (
        law.0,
        omega (
          arith,
          h.1,
          law.1,
          law.2,
          total-set (in_hand w v) p.threads k (working i item)
              (reporting i item (work item p.shared).1) at,
        ),
      )
  move-IsTallied whole p k (reporting i item result) few at h =
      let held = le-total (in_hand w v) p.threads k (reporting i item result) at in
      let law = laws.on_report item result p.shared h.0 (omega (arith, h.1, held)) in
      (
        law.0,
        omega (
          arith,
          h.1,
          law.1,
          total-set (in_hand w v) p.threads k (reporting i item result) idle at,
        ),
      )
  move-IsTallied whole p k left few at h =
      (h.0, omega (arith, h.1, total-set (in_hand w v) p.threads k left left at))

  pub run-IsTallied :
      (whole : ℕ) (p : Pool T R S) (ks : List ℕ)
      → whole < limit
      → IsTallied whole p
      → IsTallied whole (run items work report p ks)
  run-IsTallied whole p ks few h =
      run_keeps items work report (IsTallied whole)
        (λ q k th at g. move-IsTallied whole q k th few at g) ks p h

pub total-one : {A : Type 0} (xs : List A) → total (λ (x : A). 1) xs ≡ length xs
total-one [] = refl
total-one (x ∷ xs) = omega (arith, total-one xs)

-- The number of threads is fixed.
pub run-threads :
    {T R S : Type 0} (items : List T) (work : T → S → S × R) (report : T → R → S → S)
    (p : Pool T R S) (ks : List ℕ)
    → length (run items work report p ks).threads ≡ length p.threads
run-threads {T} {R} {S} items work report p ks =
    run_keeps items work report (λ (q : Pool T R S). length q.threads ≡ length p.threads)
      (λ q k th at h. length-set q.threads k _ ∙ h) ks p refl

idle-length : (T R : Type 0) (n : ℕ) → length (idle_threads {T = T} {R = R} n) ≡ n
idle-length T R zero = refl
idle-length T R (suc n) = ap suc (idle-length T R n)

-- A thread that has left has seen the end of the list.
pub left-length :
    {T R S : Type 0} (items : List T) (p : Pool T R S)
    → IsOnce items p
    → 0 < length p.threads
    → All IsLeft p.threads
    → length items < p.next
left-length items p once some_thread gone =
    let (th, at) = get_elem?-lt p.threads 0 some_thread in
    let is = All-get_elem? IsLeft p.threads 0 th gone at in
    subst (λ x. IsTaken items p.next x) is (once.taken 0 th at)

-- Once all threads have left, nothing is in hand.
pub left-total :
    {T R : Type 0} (w : Thread T R → ℕ) (ths : List (Thread T R))
    → w left ≡ 0
    → All IsLeft ths
    → total w ths ≡ 0
left-total w [] h gone = refl
left-total w (th ∷ ths) h gone = omega (arith, ap w gone.0, left-total w ths h gone.1)

module _ {T R S : Type 0} (items : List T) (work : T → S → S × R) (report : T → R → S → S) (n : ℕ)
    (s : S) (ks : List ℕ) where
  -- What the end of a pool says of its start.
  pub ended-length :
      0 < n
      → All IsLeft (run items work report (start_pool n s) ks).threads
      → length items < (run items work report (start_pool n s) ks).next
  ended-length some_thread gone =
      left-length items (run items work report (start_pool n s) ks)
        (run-IsOnce items work report (start_pool n s) ks (start-IsOnce items n s))
        (omega (
          arith,
          run-threads items work report (start_pool n s) ks,
          idle-length T R n,
          some_thread,
        ))
        gone

  -- Once all threads have left, each item has counted once.
  pub run-tally :
      (P : S → Type 0) (m : S → ℕ) (w : T → ℕ) (v : T → R → ℕ) (limit : ℕ)
      → IsMeasured work report P m w v limit
      → 0 < n
      → P s
      → m s + total w items < limit
      → All IsLeft (run items work report (start_pool n s) ks).threads
      → P (run items work report (start_pool n s) ks).shared
        × (m (run items work report (start_pool n s) ks).shared ≡ m s + total w items)
  run-tally P m w v limit laws some_thread h few gone = (
    tallied.0,
    omega (arith, tallied.1, left-total (in_hand w v) end.threads refl gone, ap (total w) stop),
  )
    where
      end : Pool T R S
      end = run items work report (start_pool n s) ks

      tallied : IsTallied items work report P m w v limit laws (m s + total w items) end
      tallied =
          run-IsTallied items work report P m w v limit laws (m s + total w items) (start_pool n s)
            ks few (h, omega (arith, idle-total (in_hand w v) n refl))

      stop : drop end.next items ≡ []
      stop = drop_all items end.next (omega (arith, ended-length some_thread gone))
