-- ===== src/Engine/Claims.antt =====
-- The loop that the threads of `run_small` and of `run_verify` share in crates/b2c-engine/src/engine.rs:
-- each takes the next index of a list from an atomic counter, works on the item that stands there, and
-- reports the result, until the list has no such item.
pub mod Once
pub mod Tally
pub mod Settled
pub mod Ends
use b2c_fast_copy.Base.{ℕ, zero, suc, ◌+◌, none, some, List, [], ◌∷◌, get_elem?, set, ◌≡◌}

-- Where a thread stands, with the index that it has taken.
pub data Thread (T R : Type 0) : Type 0 where
  idle : Thread T R
  working : (index : ℕ) (item : T) → Thread T R
  reporting : (index : ℕ) (item : T) (result : R) → Thread T R
  left : Thread T R

-- `next` is the counter. It passes the end of the list at most once for each thread.
pub record Pool (T R S : Type 0) : Type 0 where
  pub next : ℕ
  pub shared : S
  pub threads : List (Thread T R)

abbrev pub idle_threads : {T R : Type 0} → ℕ → List (Thread T R)
idle_threads zero = []
idle_threads (suc n) = idle ∷ idle_threads n

abbrev pub start_pool : {T R S : Type 0} → ℕ → S → Pool T R S
start_pool threads shared = record { next = 0; shared = shared; threads = idle_threads threads }

module _ {T R S : Type 0} (items : List T) (work : T → S → S × R) (report : T → R → S → S) where
  -- The next step of a thread.
  unfoldable pub move : Thread T R → (next : ℕ) → S → ℕ × S × Thread T R
  move idle next s =
      (next + 1, s, elim (get_elem? items next) [ none ↦ left | some item ↦ working next item ])
  move (working i item) next s =
      let (s', result) = work item s in (next, s', reporting i item result)
  move (reporting i item result) next s = (next, report item result s, idle)
  move left next s = (next, s, left)

  -- One turn of a thread. An index that no thread has is passed over.
  unfoldable pub turn : Pool T R S → ℕ → Pool T R S
  unfolding move
  turn p k = elim (get_elem? p.threads k) [
    | none ↦ p
    | some th ↦
        let (next, s, th') = move th p.next p.shared in
        record { next = next; shared = s; threads = set p.threads k th' }
  ]

  -- A schedule names the thread that moves, turn by turn.
  unfoldable pub run : Pool T R S → List ℕ → Pool T R S
  run p [] = p
  run p (k ∷ ks) = run (turn p k) ks

abbrev pub IsLeft : {T R : Type 0} → Thread T R → Type 0
IsLeft th = th ≡ left
