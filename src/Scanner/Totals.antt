-- ===== src/Scanner/Totals.antt =====
-- What a scan counts, how it splits the files, and that it ends.
use b2c_fast_copy.Base.{
  ℕ, zero, suc, ◌+◌, ◌%◌, ◌^◌, ◌≤◌, ◌<◌, ◌≡◌, inl, inr, refl, Bool, Bool-cases, Option-cases, some,
  List, [], ◌∷◌, arith, leb, All, All-append, total, total-append,
}
use b2c_fast_copy.Win.Defs.{FilePath}
use b2c_fast_copy.Scanner.{FileTask, Plan, no_plan, push, add_bytes}
use b2c_fast_copy.Scanner.Glob.{excluded}
use b2c_fast_copy.Scanner.Walk.{
  Listing, end, file, link, untyped, folder, Pending, Scan, take_file, visit, walk, insert_task,
  sort_tasks, arrange, scan_folder,
}

abbrev pub size_of : FileTask → ℕ
size_of t = t.size

-- The bytes of the planned files.
abbrev pub planned : Plan → ℕ
planned p = total size_of p.bulk + total size_of p.small

-- The counted bytes are those of the planned files, as a u64 counts; bulk files reach the threshold, and
-- small files do not.
pub record IsPlan (threshold : ℕ) (p : Plan) : Type 0 where
  pub counted : p.total_bytes ≡ planned p % 2 ^ 64
  pub bulky : All (λ (t : FileTask). threshold ≤ t.size) p.bulk
  pub tiny : All (λ (t : FileTask). t.size < threshold) p.small

below :
    (m n : ℕ) (ts : List FileTask)
    → m ≤ n
    → All (λ (t : FileTask). t.size ≤ m) ts
    → All (λ (t : FileTask). t.size ≤ n) ts
below m n [] le h = tt
below m n (t ∷ ts) le h = (omega (arith, h.0), below m n ts le h.1)

module _ (s : Scan) where
  take_file-IsPlan :
      (p : Plan) (src dst : FilePath) (size : ℕ)
      → IsPlan s.small_threshold p
      → IsPlan s.small_threshold (take_file s p src dst size)
  unfolding take_file push add_bytes
  take_file-IsPlan p src dst size h = elim (Bool-cases (leb s.small_threshold size)) [
    | inl big ↦ rw big (record {
      counted = omega (arith, h.counted, total-append size_of p.bulk (task ∷ []));
      bulky = All-append _ p.bulk _ h.bulky (ground arith, tt);
      tiny = h.tiny;
    })
    | inr little ↦ rw little (record {
      counted = omega (arith, h.counted, total-append size_of p.small (task ∷ []));
      bulky = h.bulky;
      tiny = All-append _ p.small _ h.tiny (ground arith, tt);
    })
  ]
    where
      task : FileTask
      task = record { src = src; dst = dst; size = size }

  visit-IsPlan :
      (from to : FilePath) (l : Listing) (p : Plan) (stack : List Pending)
      → IsPlan s.small_threshold p
      → IsPlan s.small_threshold (visit s from to l p stack).0
  unfolding visit
  visit-IsPlan from to end p stack h = h
  visit-IsPlan from to (file name len rest) p stack h =
      visit-IsPlan from to rest _ stack (elim (Bool-cases (excluded s.lower name s.excludes)) [
        | inl skip ↦ rw skip h
        | inr take ↦ rw take (take_file-IsPlan p (s.join from name) (s.join to name) _ h)
      ])
  visit-IsPlan from to (link name rest) p stack h =
      visit-IsPlan from to rest _ stack (elim (Bool-cases (excluded s.lower name s.excludes)) [
        | inl skip ↦ rw skip h
        | inr take ↦ rw take (record { counted = h.counted; bulky = h.bulky; tiny = h.tiny })
      ])
  visit-IsPlan from to (untyped name rest) p stack h = visit-IsPlan from to rest p stack h
  visit-IsPlan from to (folder name readable children rest) p stack h =
      visit-IsPlan from to rest _ _ (elim (Bool-cases (excluded s.lower name s.excludes)) [
        | inl skip ↦ rw skip h
        | inr take ↦ rw take (record { counted = h.counted; bulky = h.bulky; tiny = h.tiny })
      ])

  walk-IsPlan :
      (fuel : ℕ) (p q : Plan) (stack : List Pending)
      → walk s fuel p stack ≡ some q
      → IsPlan s.small_threshold p
      → IsPlan s.small_threshold q
  unfolding walk
  walk-IsPlan zero p q stack e h = absurd (cc)
  walk-IsPlan (suc fuel) p q [] e h = let same : p ≡ q = cc in rw (← same) h
  walk-IsPlan (suc fuel) p q (d ∷ stack) e h = elim (Bool-cases d.readable) [
    | inl opened ↦
        walk-IsPlan fuel _ q _ (rw opened at e) (visit-IsPlan d.from d.to d.children p stack h)
    | inr shut ↦ walk-IsPlan fuel p q stack (rw shut at e) h
  ]

  insert_task-total :
      (t : FileTask) (ts : List FileTask)
      → total size_of (insert_task s t ts) ≡ t.size + total size_of ts
  unfolding insert_task
  insert_task-total t [] = omega arith
  insert_task-total t (u ∷ us) = ground (arith, insert_task-total t us)

  insert_task-All :
      (P : FileTask → Type 0) (t : FileTask) (ts : List FileTask)
      → P t
      → All P ts
      → All P (insert_task s t ts)
  unfolding insert_task
  insert_task-All P t [] ht hs = (ht, tt)
  insert_task-All P t (u ∷ us) ht hs = elim (Bool-cases (leb u.size t.size)) [
    | inl first ↦ rw first (ht, hs)
    | inr later ↦ rw later (hs.0, insert_task-All P t us ht hs.1)
  ]

  sort_tasks-total : (ts : List FileTask) → total size_of (sort_tasks s ts) ≡ total size_of ts
  unfolding sort_tasks
  sort_tasks-total [] = refl
  sort_tasks-total (t ∷ ts) =
      omega (arith, insert_task-total t (sort_tasks s ts), sort_tasks-total ts)

  sort_tasks-All : (P : FileTask → Type 0) (ts : List FileTask) → All P ts → All P (sort_tasks s ts)
  unfolding sort_tasks
  sort_tasks-All P [] h = tt
  sort_tasks-All P (t ∷ ts) h = insert_task-All P t (sort_tasks s ts) h.0 (sort_tasks-All P ts h.1)

  -- The list is in descending order of size.
  abbrev pub IsDescending : List FileTask → Type 0
  IsDescending [] = Unit
  IsDescending (t ∷ ts) = All (λ (u : FileTask). u.size ≤ t.size) ts × IsDescending ts

  insert_task-IsDescending :
      (t : FileTask) (ts : List FileTask) → IsDescending ts → IsDescending (insert_task s t ts)
  unfolding insert_task
  insert_task-IsDescending t [] h = (tt, tt)
  insert_task-IsDescending t (u ∷ us) h = elim (Bool-cases (leb u.size t.size)) [
    | inl first ↦ rw first ((ground arith, below u.size t.size us (ground arith) h.0), h)
    | inr later ↦
        rw later (insert_task-All _ t us (ground arith) h.0, insert_task-IsDescending t us h.1)
  ]

  sort_tasks-IsDescending : (ts : List FileTask) → IsDescending (sort_tasks s ts)
  unfolding sort_tasks
  sort_tasks-IsDescending [] = tt
  sort_tasks-IsDescending (t ∷ ts) =
      insert_task-IsDescending t (sort_tasks s ts) (sort_tasks-IsDescending ts)

  -- A scan of a directory that ends counts exactly the bytes of the files that it plans, as a u64 counts,
  -- puts a file in the bulk list just when it reaches the threshold, and lists the bulk files from the
  -- largest to the smallest.
  pub scan_folder-IsPlan :
      (fuel : ℕ) (src dst : FilePath) (readable : Bool) (l : Listing) (p : Plan)
      → scan_folder s fuel src dst readable l ≡ some p
      → IsPlan s.small_threshold p × IsDescending p.bulk
  unfolding scan_folder arrange
  scan_folder-IsPlan fuel src dst readable l p e =
      elim (Option-cases (walk s fuel begin (root ∷ []))) [
        | inl stuck ↦ absurd (ground arith)
        | inr (q, walked) ↦
            let h =
              walk-IsPlan fuel begin q (root ∷ []) walked
                (record { counted = refl; bulky = tt; tiny = tt }) in
            let same : arrange s q ≡ p = ground arith in
            rw (← same) (
              record {
                counted = omega (arith, h.counted, sort_tasks-total q.bulk);
                bulky = sort_tasks-All _ q.bulk h.bulky;
                tiny = h.tiny;
              },
              sort_tasks-IsDescending q.bulk,
            )
      ]
    where
      begin : Plan
      begin = record no_plan { dirs = dst ∷ [] }

      root : Pending
      root = record { from = src; to = dst; readable = readable; children = l }
