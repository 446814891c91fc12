-- ===== src/Win/Volume/Disks.antt =====
-- The disks behind a volume are those of its extents, each once and in order.
use b2c_fast_copy.Base.{
  ℕ, zero, suc, ◌+◌, ◌*◌, ◌≤◌, ◌<◌, ◌≡◌, ◌≢◌, inl, inr, refl, sym, ap, ◌∙◌, min, Bool, false, ◌||◌,
  some, List, [], ◌∷◌, arith, ltb, ◌==◌, Bool-cases,
}
use b2c_fast_copy.Device.{contains}
use b2c_fast_copy.Win.Volume.{
  Answer, VolumeCalls, get_disk_extents, u32_at, device_path, extents, insert, sort, dedup,
  disks_in, open_device, disks_for_volume,
}

-- One of the first `n` extents lies on the disk.
abbrev pub lies_on : (ℕ → ℕ) → (n : ℕ) → ℕ → Bool
lies_on out zero d = false
lies_on out (suc n) d = lies_on out n d || u32_at out (8 + n * 24) == d

-- Ascending, so that no number occurs twice.
abbrev pub IsAscending : List ℕ → Type 0
IsAscending [] = Unit
IsAscending (d ∷ []) = Unit
IsAscending (d ∷ e ∷ es) = (d < e) × IsAscending (e ∷ es)

abbrev IsSorted : List ℕ → Type 0
IsSorted [] = Unit
IsSorted (d ∷ []) = Unit
IsSorted (d ∷ e ∷ es) = (d ≤ e) × IsSorted (e ∷ es)

or_swap : (a b c : Bool) → (a || (b || c)) ≡ (b || (a || c))
or_swap a b c = ground arith

contains-insert : (x d : ℕ) (ds : List ℕ) → contains (insert x ds) d ≡ (x == d || contains ds d)
unfolding contains
contains-insert x d [] = refl
contains-insert x d (e ∷ es) = ground (arith, contains-insert x d es)

insert-IsSorted : (x : ℕ) (ds : List ℕ) → IsSorted ds → IsSorted (insert x ds)
insert-IsSorted x [] h = tt
insert-IsSorted x (d ∷ []) h = ground arith
insert-IsSorted x (d ∷ e ∷ es) h = let ih = insert-IsSorted x (e ∷ es) h.1 in ground (arith, ih, h)

sort-IsSorted : (ds : List ℕ) → IsSorted (sort ds)
sort-IsSorted [] = tt
sort-IsSorted (d ∷ ds) = insert-IsSorted d (sort ds) (sort-IsSorted ds)

contains-sort : (d : ℕ) (ds : List ℕ) → contains (sort ds) d ≡ contains ds d
unfolding contains
contains-sort d [] = refl
contains-sort d (e ∷ es) =
    contains-insert e d (sort es) ∙ ap (λ b. e == d || b) (contains-sort d es)

contains-dedup : (d : ℕ) (ds : List ℕ) → contains (dedup ds) d ≡ contains ds d
unfolding contains
contains-dedup d [] = refl
contains-dedup d (x ∷ []) = refl
contains-dedup d (x ∷ y ∷ ys) = ground (arith, contains-dedup d (y ∷ ys))

dedup-head : (d : ℕ) (ds : List ℕ) → (rest : List ℕ) × (dedup (d ∷ ds) ≡ d ∷ rest)
dedup-head d [] = ([], refl)
dedup-head d (e ∷ es) = elim (Bool-cases (d == e)) [
  | inl same ↦
      let (rest, h) = dedup-head e es in
      let eq : e ≡ d = ground arith in (rest, rw same (h ∙ ap (λ (x : ℕ). x ∷ rest) eq))
  | inr other ↦ (dedup (e ∷ es), rw other refl)
]

dedup-IsAscending : (ds : List ℕ) → IsSorted ds → IsAscending (dedup ds)
dedup-IsAscending [] h = tt
dedup-IsAscending (x ∷ []) h = tt
dedup-IsAscending (x ∷ y ∷ ys) h =
    let ih = dedup-IsAscending (y ∷ ys) h.1 in
    elim (Bool-cases (x == y)) [
      | inl same ↦ rw same ih
      | inr other ↦
          let (rest, e) = dedup-head y ys in
          let lt : x < y = ground (arith, h) in rw (other, e) (lt, rw e at ih)
    ]

-- Of the extents from the `i`th on.
abbrev lies_from : (ℕ → ℕ) → (left i : ℕ) → ℕ → Bool
lies_from out zero i d = false
lies_from out (suc n) i d = u32_at out (8 + i * 24) == d || lies_from out n (i + 1) d

-- Sixteen extents fit into the buffer.
contains-extents :
    (out : ℕ → ℕ) (left i d : ℕ)
    → left + i ≤ 16
    → contains (extents out left i) d ≡ lies_from out left i d
unfolding contains extents
contains-extents out zero i d h = refl
contains-extents out (suc left) i d h =
    let ih = contains-extents out left (i + 1) d (omega arith) in ground (arith, ih)

or_assoc : (a b c : Bool) → ((a || b) || c) ≡ (a || (b || c))
or_assoc a b c = ground arith

or_none : (a : Bool) → (a || false) ≡ a
or_none a = ground arith

lies_from-last :
    (out : ℕ → ℕ) (n i d : ℕ)
    → lies_from out (suc n) i d ≡ (lies_from out n i d || u32_at out (8 + (n + i) * 24) == d)
lies_from-last out zero i d =
    let e : 0 + i ≡ i = omega arith in rw e (or_none (u32_at out (8 + i * 24) == d))
lies_from-last out (suc n) i d =
    let e : suc n + i ≡ n + (i + 1) = omega arith in
    rw e (
      ap (λ b. u32_at out (8 + i * 24) == d || b) (lies_from-last out n (i + 1) d)
      ∙ sym (or_assoc (u32_at out (8 + i * 24) == d) (lies_from out n (i + 1) d) _))

lies_from-lies_on : (out : ℕ → ℕ) (n d : ℕ) → lies_from out n 0 d ≡ lies_on out n d
lies_from-lies_on out zero d = refl
lies_from-lies_on out (suc n) d =
    let e : n + 0 ≡ n = omega arith in
    lies_from-last out n 0 d ∙ rw (e, lies_from-lies_on out n d) refl

module _ {F : Type 0} (calls : VolumeCalls F) where
  -- When the device opens and its answer is good, the disks of a volume are in ascending order, each
  -- once, and they are those on which one of the extents lies, of the first sixteen.
  pub disks_for_volume-lies_on :
      (root : List ℕ) (dev d : ℕ)
      → open_device calls (device_path root) ≡ some dev
      → let a = calls.control dev get_disk_extents 0 1024 in
        a.ok ≢ 0
        → 8 ≤ a.returned
        → IsAscending (disks_for_volume calls root)
          × (contains (disks_for_volume calls root) d ≡ lies_on a.out (min (u32_at a.out 0) 16) d)
  unfolding disks_for_volume disks_in
  disks_for_volume-lies_on root dev d opened good long =
      rw (opened, disks_for_volume)
        (rw (passes, disks_in)
          (
            dedup-IsAscending (sort found) (sort-IsSorted found),
            contains-dedup d (sort found)
                ∙ contains-sort d found
                ∙ contains-extents a.out (min (u32_at a.out 0) 16) 0 d (omega arith)
                ∙ lies_from-lies_on a.out (min (u32_at a.out 0) 16) d,
          ))
    where
      a : Answer
      a = calls.control dev get_disk_extents 0 1024

      found : List ℕ
      found = extents a.out (min (u32_at a.out 0) 16) 0

      passes : (a.ok == 0 || ltb a.returned 8) ≡ false
      passes = ground (arith, good, long)
