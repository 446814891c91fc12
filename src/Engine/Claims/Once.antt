-- ===== src/Engine/Claims/Once.antt =====
-- No two threads of a pool work on the same item.
use b2c_fast_copy.Base.{
  ℕ, zero, suc, ◌+◌, ◌≤◌, ◌<◌, ◌≡◌, ◌⊎◌, refl, inl, inr, none, some, List, [], ◌∷◌, arith,
  get_elem?, set, get_elem?-set, get_elem?-set_other, total, total-set, Option-cases, eq-cases,
  get_elem?-lt, ◌==◌, if◌then◌else◌, length,
}
use native.Mathlib.Decide.{dec_lt}
use b2c_fast_copy.Engine.Claims.{
  Thread, idle, working, reporting, left, Pool, idle_threads, start_pool, move, turn, run,
}

-- 1 for a thread that has taken index `i`.
abbrev pub holds : {T R : Type 0} → ℕ → Thread T R → ℕ
holds i idle = 0
holds i (working j item) = if j == i then 1 else 0
holds i (reporting j item result) = if j == i then 1 else 0
holds i left = 0

-- The item in hand stands at the index that was taken, which the counter has passed.
abbrev pub IsTaken : {T R : Type 0} → List T → ℕ → Thread T R → Type 0
IsTaken items next idle = Unit
IsTaken items next (working i item) = (i < next) × (get_elem? items i ≡ some item)
IsTaken items next (reporting i item result) = (i < next) × (get_elem? items i ≡ some item)
IsTaken items next left = length items < next

pub record IsOnce {T R S : Type 0} (items : List T) (p : Pool T R S) : Type 0 where
  pub taken : (k : ℕ) (th : Thread T R) → get_elem? p.threads k ≡ some th → IsTaken items p.next th
  pub once : (i : ℕ) → total (holds i) p.threads ≤ 1
  pub fresh : (i : ℕ) → p.next ≤ i → total (holds i) p.threads ≡ 0

-- What one thread changes in the pool.
abbrev pub replace_thread : {T R S : Type 0} → Pool T R S → ℕ → ℕ × S × Thread T R → Pool T R S
replace_thread p k (next, s, th) = record { next = next; shared = s; threads = set p.threads k th }

IsTaken-later :
    {T R : Type 0} (items : List T) (n m : ℕ) (th : Thread T R)
    → n ≤ m
    → IsTaken items n th
    → IsTaken items m th
IsTaken-later items n m idle le h = tt
IsTaken-later items n m (working i item) le h = (omega arith, h.1)
IsTaken-later items n m (reporting i item result) le h = (omega arith, h.1)
IsTaken-later items n m left le h = omega arith

end-le-length : {T : Type 0} (items : List T) (n : ℕ) → get_elem? items n ≡ none → length items ≤ n
end-le-length items n e = elim (dec_lt n (length items)) [
  | yes lt ↦ let (x, there) = get_elem?-lt items n lt in absurd (cc)
  | no h ↦ omega arith
]

module _ {T R S : Type 0} (items : List T) (work : T → S → S × R) (report : T → R → S → S) where
  -- A thread takes the next index, or keeps or drops the one it has.
  move-holds :
      (i : ℕ) (th : Thread T R) (next : ℕ) (s : S)
      → let (next', s', th') = move items work report th next s in
        (next ≤ next')
        × (holds i th' ≤ holds i th + (if next == i then 1 else 0))
        × (next' ≤ i → holds i th' ≤ holds i th)
  unfolding move
  move-holds i idle next s = elim (Option-cases (get_elem? items next)) [
    | inl e ↦ rw (e, holds) (omega arith, omega arith, λ h. omega arith)
    | inr (item, e) ↦ rw (e, holds) (omega arith, omega arith, λ h. ground arith)
  ]
  move-holds i (working j item) next s = (omega arith, omega arith, λ h. omega arith)
  move-holds i (reporting j item result) next s = (omega arith, omega arith, λ h. omega arith)
  move-holds i left next s = (omega arith, omega arith, λ h. omega arith)

  move-IsTaken :
      (th : Thread T R) (next : ℕ) (s : S)
      → IsTaken items next th
      → let (next', s', th') = move items work report th next s in IsTaken items next' th'
  unfolding move
  move-IsTaken idle next s h = elim (Option-cases (get_elem? items next)) [
    | inl e ↦ rw (e, IsTaken) (omega (arith, end-le-length items next e))
    | inr (item, e) ↦ rw (e, IsTaken) (omega arith, e)
  ]
  move-IsTaken (working j item) next s h = h
  move-IsTaken (reporting j item result) next s h = tt
  move-IsTaken left next s h = h

  -- A turn moves a thread, or there is none by that index.
  pub turn_cases :
      (p : Pool T R S) (k : ℕ)
      → (turn items work report p k ≡ p)
        ⊎ ((th : Thread T R) × (get_elem? p.threads k ≡ some th)
            × (turn items work report p k
                ≡ replace_thread p k (move items work report th p.next p.shared)))
  unfolding turn
  turn_cases p k = elim (Option-cases (get_elem? p.threads k)) [
    | inl e ↦ inl (rw (e, turn) refl)
    | inr (th, e) ↦ inr (th, e, rw (e, turn) refl)
  ]

  -- What every move of a thread keeps, every schedule keeps.
  pub run_keeps :
      (Q : Pool T R S → Type 0)
      → ((p : Pool T R S) (k : ℕ) (th : Thread T R)
          → get_elem? p.threads k ≡ some th
          → Q p
          → Q (replace_thread p k (move items work report th p.next p.shared)))
      → (ks : List ℕ) (p : Pool T R S) → Q p
      → Q (run items work report p ks)
  unfolding run
  run_keeps Q keep [] p h = h
  run_keeps Q keep (k ∷ ks) p h = elim (turn_cases p k) [
    | inl e ↦ run_keeps Q keep ks (turn items work report p k) (rw e h)
    | inr (th, at, e) ↦ run_keeps Q keep ks (turn items work report p k) (rw e (keep p k th at h))
  ]

  -- An idle thread leaves, or takes the item that stands at the counter.
  pub claim_cases :
      (next : ℕ) (s : S)
      → ((get_elem? items next ≡ none) × (move items work report idle next s ≡ (next + 1, s, left)))
        ⊎ ((item : T) × (get_elem? items next ≡ some item)
            × (move items work report idle next s ≡ (next + 1, s, working next item)))
  unfolding move
  claim_cases next s = elim (Option-cases (get_elem? items next)) [
    | inl e ↦ inl (e, rw (e, move) refl)
    | inr (item, e) ↦ inr (item, e, rw (e, move) refl)
  ]

  pub move-IsOnce :
      (p : Pool T R S) (k : ℕ) (th : Thread T R)
      → get_elem? p.threads k ≡ some th
      → IsOnce items p
      → IsOnce items (replace_thread p k (move items work report th p.next p.shared))
  move-IsOnce p k th at h = record {
    taken = λ j th' e. elim (eq-cases k j) [
      | inl same ↦
          rw (get_elem?-set p.threads k new th' (rw (← same) at e))
            (move-IsTaken th p.next p.shared (h.taken k th at))
      | inr other ↦
          IsTaken-later items p.next after th' (move-holds 0 th p.next p.shared).0
            (h.taken j th' (rw (get_elem?-set_other p.threads k j new other) at e))
    ];
    once = λ i. ground (arith, weight i, move-holds i th p.next p.shared, h.once i, h.fresh i);
    fresh = λ i le. omega (
      arith,
      weight i,
      (move-holds i th p.next p.shared).0,
      (move-holds i th p.next p.shared).2 le,
      h.fresh i,
    );
  }
    where
      new : Thread T R
      new = (move items work report th p.next p.shared).2

      after : ℕ
      after = (move items work report th p.next p.shared).0

      weight :
          (i : ℕ)
          → total (holds i) (set p.threads k new) + holds i th
            ≡ total (holds i) p.threads + holds i new
      weight i = total-set (holds i) p.threads k th new at

  pub run-IsOnce :
      (p : Pool T R S) (ks : List ℕ) → IsOnce items p → IsOnce items (run items work report p ks)
  run-IsOnce p ks h = run_keeps (IsOnce items) move-IsOnce ks p h

pub idle_thread :
    {T R : Type 0} (n k : ℕ) (th : Thread T R) → get_elem? (idle_threads n) k ≡ some th → th ≡ idle
idle_thread zero k th e = absurd (cc)
idle_thread (suc n) zero th e = cc
idle_thread (suc n) (suc k) th e = idle_thread n k th e

pub idle-total :
    {T R : Type 0} (w : Thread T R → ℕ) (n : ℕ) → w idle ≡ 0 → total w (idle_threads n) ≡ 0
idle-total w zero h = refl
idle-total w (suc n) h = omega (arith, idle-total w n h)

pub start-IsOnce :
    {T R S : Type 0} (items : List T) (threads : ℕ) (s : S)
    → IsOnce {R = R} items (start_pool threads s)
start-IsOnce items threads s = record {
  taken = λ k th e. rw (idle_thread threads k th e) tt;
  once = λ i. omega (arith, idle-total (holds i) threads refl);
  fresh = λ i le. idle-total (holds i) threads refl;
}
