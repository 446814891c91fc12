-- ===== src/Engine/Claims/Settled.antt =====
-- What the threads of a pool leave behind: each item is in hand or settled.
use b2c_fast_copy.Base.{
  ℕ, ◌+◌, ◌<◌, ◌≡◌, ◌≢◌, ◌⊎◌, refl, inl, inr, none, some, List, arith, get_elem?, set,
  get_elem?-set, get_elem?-set_other, total, total-set, le-total, two-le-total, All, eq-cases,
  subst, sym, ◌∙◌, get_elem?-le, ◌==◌, if◌then◌else◌,
}
use native.Mathlib.Decide.{dec_lt}
use b2c_fast_copy.Engine.Claims.{
  Thread, idle, working, reporting, left, Pool, IsLeft, start_pool, move, run,
}
use b2c_fast_copy.Engine.Claims.Once.{
  holds, IsOnce, replace_thread, claim_cases, run_keeps, move-IsOnce, start-IsOnce, idle_thread,
}
use b2c_fast_copy.Engine.Claims.Tally.{left-total, ended-length}

-- `Q` says what the work on an item leaves behind, and `D` that the item is settled. Neither is undone
-- by the work on another item, or by its report.
pub record IsSettling {T R S : Type 0} (items : List T) (work : T → S → S × R)
    (report : T → R → S → S) (P : S → Type 0) (Q : T → R → S → Type 0) (D : T → S → Type 0)
    : Type 0 where
  pub work_own :
      (i : ℕ) (t : T) (s : S)
      → get_elem? items i ≡ some t
      → P s
      → P (work t s).0 × Q t (work t s).1 (work t s).0
  pub work_other :
      (i j : ℕ) (t u : T) (s : S)
      → get_elem? items i ≡ some t
      → get_elem? items j ≡ some u
      → i ≢ j
      → P s
      → (D u s → D u (work t s).0) × ((r : R) → Q u r s → Q u r (work t s).0)
  pub report_own : (t : T) (r : R) (s : S) → P s → Q t r s → P (report t r s) × D t (report t r s)
  pub report_other :
      (t u : T) (r : R) (s : S)
      → P s
      → (D u s → D u (report t r s)) × ((q : R) → Q u q s → Q u q (report t r s))

-- Two threads hold two indices.
pub hold_apart :
    {T R S : Type 0} (items : List T) (p : Pool T R S) (k l i : ℕ) (a b : Thread T R)
    → IsOnce items p
    → k ≢ l
    → get_elem? p.threads k ≡ some a
    → get_elem? p.threads l ≡ some b
    → holds i a ≡ 1
    → holds i b ≡ 0
hold_apart items p k l i a b once ne at_k at_l h = elim (dec_lt k l) [
  | yes lt ↦ omega (arith, two-le-total (holds i) p.threads k l a b lt at_k at_l, once.once i)
  | no ge ↦
      omega (arith, two-le-total (holds i) p.threads l k b a (omega arith) at_l at_k, once.once i)
]

module _ {T R S : Type 0} (items : List T) (work : T → S → S × R) (report : T → R → S → S)
    (P : S → Type 0) (Q : T → R → S → Type 0) (D : T → S → Type 0)
    (laws : IsSettling items work report P Q D) where
  -- What a thread that has worked on an item knows.
  abbrev Knows : Thread T R → S → Type 0
  Knows (reporting i item result) s = Q item result s
  Knows _ s = Unit

  pub record IsSettled (p : Pool T R S) : Type 0 where
    pub once : IsOnce items p
    pub kept : P p.shared
    pub known : (k : ℕ) (th : Thread T R) → get_elem? p.threads k ≡ some th → Knows th p.shared
    pub settled :
        (i : ℕ) (t : T)
        → get_elem? items i ≡ some t
        → i < p.next
        → (0 < total (holds i) p.threads) ⊎ D t p.shared

  module _ (p : Pool T R S) (h : IsSettled p) (k : ℕ) (th : Thread T R)
      (at : get_elem? p.threads k ≡ some th) where
    -- A move that leaves the shared state alone.
    quiet :
        (new : Thread T R) (next : ℕ)
        → IsOnce items (replace_thread p k (next, p.shared, new))
        → Knows new p.shared
        → ((i : ℕ) (t : T)
            → get_elem? items i ≡ some t
            → i < next
            → (holds i th ≡ holds i new) × (i < p.next) ⊎ (holds i new ≡ 1))
        → IsSettled (replace_thread p k (next, p.shared, new))
    quiet new next once knows same = record {
      once = once;
      kept = h.kept;
      known = λ l v e. elim (eq-cases k l) [
        | inl eq ↦
            subst (λ x. Knows x p.shared) (sym (get_elem?-set p.threads k new v (rw (← eq) at e)))
              knows
        | inr ne ↦ h.known l v (rw (get_elem?-set_other p.threads k l new ne) at e)
      ];
      settled = λ i t there lt. elim (same i t there lt) [
        | inl (eq, old) ↦ elim (h.settled i t there old) [
          | inl some_thread ↦ inl (omega (arith, total-set (holds i) p.threads k th new at))
          | inr d ↦ inr d
        ]
        | inr own ↦ inl (
            omega (
              arith,
              total-set (holds i) p.threads k th new at,
              le-total (holds i) p.threads k th at,
            ))
      ];
    }

    -- A move of a thread that has item `t` of index `i` in hand, and keeps it or settles it.
    busy :
        (i : ℕ) (t : T) (new : Thread T R) (s : S)
        → IsOnce items (replace_thread p k (p.next, s, new))
        → ((j : ℕ) → holds j th ≡ (if i == j then 1 else 0))
        → ((j : ℕ) → i ≢ j → holds j new ≡ 0)
        → get_elem? items i ≡ some t
        → P s
        → Knows new s
        → ((holds i new ≡ 1) ⊎ D t s)
        → ((j : ℕ) (u : T)
            → get_elem? items j ≡ some u
            → i ≢ j
            → (D u p.shared → D u s) × ((r : R) → Q u r p.shared → Q u r s))
        → IsSettled (replace_thread p k (p.next, s, new))
    busy i t new s once has drops own keeps knows mine others = record {
      once = once;
      kept = keeps;
      known = λ l v e. elim (eq-cases k l) [
        | inl eq ↦
            subst (λ x. Knows x s) (sym (get_elem?-set p.threads k new v (rw (← eq) at e))) knows
        | inr ne ↦ still l v ne (rw (get_elem?-set_other p.threads k l new ne) at e)
      ];
      settled = λ j u there lt. elim (eq-cases i j) [
        | inl eq ↦ own_settled j u eq there
        | inr ne ↦ elim (h.settled j u there lt) [
          | inl some_thread ↦ inl (
              ground
                (arith, some_thread, total-set (holds j) p.threads k th new at, has j, drops j ne))
          | inr d ↦ inr ((others j u there ne).0 d)
        ]
      ];
    }
      where
        own_settled :
            (j : ℕ) (u : T)
            → i ≡ j
            → get_elem? items j ≡ some u
            → (0 < total (holds j) (set p.threads k new)) ⊎ D u s
        own_settled j u eq there = elim mine [
          | inl held ↦ inl (
              ground (
                arith,
                eq,
                held,
                total-set (holds i) p.threads k th new at,
                le-total (holds i) p.threads k th at,
              ))
          | inr d ↦ inr (let same : t ≡ u = cc in subst (λ x. D x s) same d)
        ]

        -- Another thread has another item in hand.
        still : (l : ℕ) (v : Thread T R) → k ≢ l → get_elem? p.threads l ≡ some v → Knows v s
        still l idle ne e = tt
        still l (working j u) ne e = tt
        still l (reporting j u r) ne e =
            let apart =
              hold_apart items p k l i th (reporting j u r) h.once ne at e
                (ground (arith, has i)) in
            (others j u (h.once.taken l (reporting j u r) e).1 (λ eq. ground (arith, eq, apart))).1
              r (h.known l (reporting j u r) e)
        still l left ne e = tt

  move-IsSettled :
      (p : Pool T R S) (k : ℕ) (th : Thread T R)
      → get_elem? p.threads k ≡ some th
      → IsSettled p
      → IsSettled (replace_thread p k (move items work report th p.next p.shared))
  unfolding move
  move-IsSettled p k idle at h = elim (claim_cases items work report p.next p.shared) [
    | inl (end, e) ↦
        let once = move-IsOnce items work report p k idle at h.once in
        rw e (
          quiet p h k idle at left (p.next + 1) (rw e at once) tt (λ i t there lt. inl (
            refl,
            elim (eq-cases i p.next) [
              | inl eq ↦ absurd (let x : none ≡ some t = sym end ∙ rw eq at there in cc)
              | inr ne ↦ omega arith
            ],
          )))
    | inr (item, there, e) ↦
        let once = move-IsOnce items work report p k idle at h.once in
        rw e (
          quiet p h k idle at (working p.next item) (p.next + 1) (rw e at once) tt (λ i t th lt.
            elim (eq-cases p.next i) [
              | inl eq ↦ inr (ground arith)
              | inr ne ↦ inl (ground arith, omega arith)
            ]))
  ]
  move-IsSettled p k (working i item) at h =
      let taken = h.once.taken k (working i item) at in
      let own = laws.work_own i item p.shared taken.1 h.kept in
      busy p h k (working i item) at i item (reporting i item (work item p.shared).1)
        (work item p.shared).0 (move-IsOnce items work report p k (working i item) at h.once)
        (λ j. refl) (λ j ne. ground arith) taken.1 own.0 own.1 (inl (ground arith))
        (λ j u there ne. laws.work_other i j item u p.shared taken.1 there ne h.kept)
  move-IsSettled p k (reporting i item result) at h =
      let taken = h.once.taken k (reporting i item result) at in
      let own =
        laws.report_own item result p.shared h.kept (h.known k (reporting i item result) at) in
      busy p h k (reporting i item result) at i item idle (report item result p.shared)
        (move-IsOnce items work report p k (reporting i item result) at h.once) (λ j. refl)
        (λ j ne. refl) taken.1 own.0 tt (inr own.1)
        (λ j u there ne. laws.report_other item u result p.shared h.kept)
  move-IsSettled p k left at h =
      quiet p h k left at left p.next (move-IsOnce items work report p k left at h.once) tt
        (λ i t there lt. inl (refl, lt))

  -- Once all threads have left, every item is settled.
  pub run-settles :
      (n : ℕ) (s : S) (ks : List ℕ)
      → 0 < n
      → P s
      → All IsLeft (run items work report (start_pool n s) ks).threads
      → P (run items work report (start_pool n s) ks).shared
        × ((i : ℕ) (t : T)
            → get_elem? items i ≡ some t
            → D t (run items work report (start_pool n s) ks).shared)
  run-settles n s ks some_thread h gone = (
    end.kept,
    λ i t there.
        elim (end.settled i t there (
          omega (
            arith,
            get_elem?-le items i t there,
            ended-length items work report n s ks some_thread gone,
          ))) [
            | inl some_holder ↦ absurd (omega (arith, left-total (holds i) final.threads refl gone))
            | inr d ↦ d
          ],
  )
    where
      final : Pool T R S
      final = run items work report (start_pool n s) ks

      end : IsSettled final
      end = run_keeps items work report IsSettled move-IsSettled ks (start_pool n s) (record {
        once = start-IsOnce items n s;
        kept = h;
        known = λ k th e. rw (idle_thread n k th e) tt;
        settled = λ i t there lt. absurd (omega arith);
      })
