-- ===== src/Engine/Session/Single.antt =====
-- A run of `Copier::run` on the plan that `scan` of crates/b2c-engine/src/scanner.rs makes for one file.
use b2c_fast_copy.Base.{
  ℕ, ◌≤◌, ◌<◌, ◌≡◌, ◌≢◌, ◌⊎◌, inl, inr, refl, Bool, true, false, Bool-cases, Option-cases, Option,
  none, some, List, [], ◌∷◌, arith, length, ◌==◌,
}
use b2c_fast_copy.Win.Defs.{FilePath, Reply}
use b2c_fast_copy.Arena.{Allocation}
use b2c_fast_copy.Scanner.{FileTask, Plan, push}
use b2c_fast_copy.Scanner.Walk.{Scan, scan_file}
use b2c_fast_copy.Engine.Copier.{Copier}
use b2c_fast_copy.Engine.Session.{
  Outcome, no_outcome, Failure, Ended, finished, stopped, Session, Rig, Schedules, make_dirs,
  preflight_destination, prepare_tree, allocate, run_bulk, bulk_part, copy_plan, copy_tree,
  with_totals, run,
}

-- The plan has one file, under its own name if the destination is a directory, in the list that its
-- size asks for, and the parent of where it goes; its bytes are not counted.
pub record IsAlone (s : Scan) (src dst : FilePath) (dst_is_dir : Bool) (len : ℕ) (p : Plan)
    : Type 0 where
  pub task : FileTask
  pub source : task.src ≡ src
  pub sized : task.size ≡ len
  pub target :
      ((dst_is_dir ≡ false) × (task.dst ≡ dst))
      ⊎ ((dst_is_dir ≡ true)
          × (name : FilePath) × (s.file_name src ≡ some name)
          × (task.dst ≡ s.join dst name))
  pub parents :
      ((s.parent task.dst ≡ none) × (p.dirs ≡ []))
      ⊎ ((dir : FilePath) × (s.parent task.dst ≡ some dir) × (p.dirs ≡ dir ∷ []))
  pub listed :
      ((s.small_threshold ≤ len) × (p.bulk ≡ task ∷ []) × (p.small ≡ []))
      ⊎ ((len < s.small_threshold) × (p.bulk ≡ []) × (p.small ≡ task ∷ []))
  pub uncounted : p.total_bytes ≡ 0

scan_file-IsAlone :
    (s : Scan) (src dst : FilePath) (dst_is_dir : Bool) (len : ℕ) (p : Plan)
    → scan_file s src dst dst_is_dir len ≡ some p
    → IsAlone s src dst dst_is_dir len p
unfolding scan_file push
scan_file-IsAlone s src dst false len p e = record {
  task = record { src = src; dst = dst; size = len };
  source = refl;
  sized = refl;
  target = inl (refl, refl);
  parents = ground arith;
  listed = ground arith;
  uncounted = ground arith;
}
scan_file-IsAlone s src dst true len p e = elim (Option-cases (s.file_name src)) [
  | inl nameless ↦ absurd (let g = rw nameless at e in cc)
  | inr (name, named) ↦
      let g = rw named at e in
      record {
        task = record { src = src; dst = s.join dst name; size = len };
        source = refl;
        sized = refl;
        target = inr (refl, name, named, refl);
        parents = ground (arith, g);
        listed = ground (arith, g);
        uncounted = ground (arith, g);
      }
]

-- A refusal for want of space.
abbrev is_refusal : Failure → Bool
is_refusal Failure.not_scanned = false
is_refusal (Failure.too_large free needed) = true
is_refusal (Failure.no_directory path code) = false
is_refusal (Failure.not_writable probe error) = false
is_refusal Failure.no_arena = false
is_refusal Failure.panicked = false

abbrev refuses : Option Failure → Bool
refuses none = false
refuses (some f) = is_refusal f

abbrev ends_refused : Ended → Bool
ends_refused (finished o) = false
ends_refused (stopped f) = is_refusal f

module _ {W H : Type 0} (rig : Rig W H) (c : Copier) where
  make_dirs-refuses : (ds : List FilePath) (w : W) → refuses (make_dirs rig c ds w).1 ≡ false
  unfolding make_dirs
  make_dirs-refuses [] w = refl
  make_dirs-refuses (d ∷ ds) w =
      by_reply (rig.fs.create_dir_all w d).1 refl
        (make_dirs-refuses ds (rig.fs.create_dir_all w d).0)
    where
      by_reply :
          (r : Reply (Unit {0}))
          → (rig.fs.create_dir_all w d).1 ≡ r
          → refuses (make_dirs rig c ds (rig.fs.create_dir_all w d).0).1 ≡ false
          → refuses (make_dirs rig c (d ∷ ds) w).1 ≡ false
      by_reply (Reply.done _) e ih = rw (make_dirs, e) ih
      by_reply (Reply.failed code) e ih = rw (make_dirs, e) refl

  preflight-refuses : (p : Plan) (w : W) → refuses (preflight_destination rig c p w).1 ≡ false
  unfolding preflight_destination
  preflight-refuses p w = ground arith

  prepare_tree-refuses : (p : Plan) (w : W) → refuses (prepare_tree rig c p w).1 ≡ false
  unfolding prepare_tree
  prepare_tree-refuses p w =
      by_failure (make_dirs rig c p.dirs w).1 refl (make_dirs-refuses p.dirs w)
    where
      by_failure :
          (x : Option Failure)
          → (make_dirs rig c p.dirs w).1 ≡ x
          → refuses (make_dirs rig c p.dirs w).1 ≡ false
          → refuses (prepare_tree rig c p w).1 ≡ false
      by_failure none e h = rw (prepare_tree, e) (preflight-refuses p (make_dirs rig c p.dirs w).0)
      by_failure (some f) e h = rw (prepare_tree, e) (rw e at h)

  bulk_part-refuses :
      (p : Plan) (schedule : List (ℕ × ℕ)) (s : Session W) (o : Outcome)
      → refuses (bulk_part rig c p schedule s o).2 ≡ false
  bulk_part-refuses p schedule s o = elim (Bool-cases (length p.bulk == 0)) [
    | inl e ↦ rw e refl
    | inr e ↦ rw e (by_allocation (allocate rig c))
  ]
    where
      by_allocation : (a : Allocation) → refuses (run_bulk rig c p schedule s o a).2 ≡ false
      by_allocation (Allocation.made arena) = refl
      by_allocation Allocation.refused = refl
      by_allocation Allocation.panicked = refl

  copy_plan-refuses :
      (p : Plan) (schedules : Schedules) (s : Session W)
      → ends_refused (copy_plan rig c p schedules s).1 ≡ false
  unfolding copy_plan
  copy_plan-refuses p schedules s =
      by_failure (bulk_part rig c p schedules.bulk s no_outcome).2 refl
        (bulk_part-refuses p schedules.bulk s no_outcome)
    where
      by_failure :
          (x : Option Failure)
          → (bulk_part rig c p schedules.bulk s no_outcome).2 ≡ x
          → refuses (bulk_part rig c p schedules.bulk s no_outcome).2 ≡ false
          → ends_refused (copy_plan rig c p schedules s).1 ≡ false
      by_failure none e h = rw (copy_plan, e) refl
      by_failure (some f) e h = rw (copy_plan, e) (rw e at h)

  copy_tree-refuses :
      (p : Plan) (schedules : Schedules) (s : Session W)
      → ends_refused (copy_tree rig c p schedules s).1 ≡ false
  unfolding copy_tree
  copy_tree-refuses p schedules s =
      by_failure (prepare_tree rig c p s.os).1 refl (prepare_tree-refuses p s.os)
    where
      by_failure :
          (x : Option Failure)
          → (prepare_tree rig c p s.os).1 ≡ x
          → refuses (prepare_tree rig c p s.os).1 ≡ false
          → ends_refused (copy_tree rig c p schedules s).1 ≡ false
      by_failure none e h = rw (copy_tree, e) (copy_plan-refuses p schedules _)
      by_failure (some f) e h = rw (copy_tree, e) (rw e at h)

  uncounted-refuses :
      (p : Plan) (schedules : Schedules) (s : Session W)
      → p.total_bytes ≡ 0
      → ends_refused (run rig c (some p) schedules s).1 ≡ false
  unfolding run
  uncounted-refuses p schedules s e =
      ground (arith, copy_tree-refuses p schedules (with_totals rig c p s))

  -- The scan of a single file plans that file alone, as `IsAlone` says, and leaves its bytes uncounted;
  -- so a run on this plan is never refused for want of space, however long the file is and however
  -- little is free.
  pub run-IsAlone :
      (s : Scan) (src dst : FilePath) (dst_is_dir : Bool) (len : ℕ) (p : Plan)
      (schedules : Schedules) (begun : Session W) (free needed : ℕ)
      → scan_file s src dst dst_is_dir len ≡ some p
      → IsAlone s src dst dst_is_dir len p
        × ((run rig c (some p) schedules begun).1 ≢ stopped (Failure.too_large free needed))
  run-IsAlone s src dst dst_is_dir len p schedules begun free needed e = (
    alone,
    λ h.
        let quiet = uncounted-refuses p schedules begun alone.uncounted in
        absurd (let g = rw h at quiet in cc),
  )
    where
      alone : IsAlone s src dst dst_is_dir len p
      alone = scan_file-IsAlone s src dst dst_is_dir len p e
