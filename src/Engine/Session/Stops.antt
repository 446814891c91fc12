-- ===== src/Engine/Session/Stops.antt =====
-- What a run leaves alone when it stops early.
use b2c_fast_copy.Base.{
  ℕ, ◌≡◌, ◌≢◌, ◌⊎◌, inl, inr, refl, sym, ap, ◌∙◌, true, false, Option, none, some, List, [], ◌∷◌,
  arith, Bool-cases, length, ◌==◌,
}
use b2c_fast_copy.Win.Defs.{FilePath, Reply}
use b2c_fast_copy.Win.File
use b2c_fast_copy.Win.FileSystem.{Content, IsFileSystem}
use b2c_fast_copy.Win.Std.{IsStd}
use b2c_fast_copy.Arena.{Allocation}
use b2c_fast_copy.Scanner.{Plan}
use b2c_fast_copy.Engine.Copier.{Copier}
use b2c_fast_copy.Engine.Session.{
  Outcome, no_outcome, Failure, finished, stopped, Session, Rig, Schedules, make_dirs, probe_of,
  preflight_destination, prepare_tree, allocate, run_bulk, bulk_part, copy_plan, copy_tree,
  with_totals, dry_outcome, run,
}

module _ {W H : Type 0} (rig : Rig W H) (c : Copier) (content : W → FilePath → Content)
    (files : IsFileSystem rig.sys content) (std : IsStd rig.fs content) where
  pub make_dirs-keeps :
      (ds : List FilePath) (w : W) (q : FilePath) → content (make_dirs rig c ds w).0 q ≡ content w q
  unfolding make_dirs
  make_dirs-keeps [] w q = refl
  make_dirs-keeps (d ∷ ds) w q =
      by_reply (rig.fs.create_dir_all w d).1 refl
        (make_dirs-keeps ds (rig.fs.create_dir_all w d).0 q)
    where
      by_reply :
          (r : Reply (Unit {0}))
          → (rig.fs.create_dir_all w d).1 ≡ r
          → content (make_dirs rig c ds (rig.fs.create_dir_all w d).0).0 q
            ≡ content (rig.fs.create_dir_all w d).0 q
          → content (make_dirs rig c (d ∷ ds) w).0 q ≡ content w q
      by_reply (Reply.done _) e ih = rw (e, make_dirs) (ih ∙ std.create_keeps w d q)
      by_reply (Reply.failed code) e ih = rw (e, make_dirs) (std.create_keeps w d q)

  -- The probe touches no other file.
  pub preflight-other :
      (plan : Plan) (w : W) (q : FilePath)
      → q ≢ probe_of rig c plan
      → content (preflight_destination rig c plan w).0 q ≡ content w q
  unfolding preflight_destination File.create_write_unbuffered File.create_write_buffered
  preflight-other plan w q ne = grind (arith, files.create_other, std.remove_other, ne)

  pub prepare_tree-other :
      (plan : Plan) (w : W) (q : FilePath)
      → q ≢ probe_of rig c plan
      → content (prepare_tree rig c plan w).0 q ≡ content w q
  unfolding prepare_tree
  prepare_tree-other plan w q ne = ground (
    arith,
    make_dirs-keeps plan.dirs w q,
    preflight-other plan (make_dirs rig c plan.dirs w).0 q ne,
  )

  -- The bulk part fails before it has done anything.
  bulk_part_cases :
      (plan : Plan) (schedule : List (ℕ × ℕ)) (s : Session W) (o : Outcome)
      → ((bulk_part rig c plan schedule s o).2 ≡ none) ⊎ ((bulk_part rig c plan schedule s o).0 ≡ s)
  bulk_part_cases plan schedule s o = elim (Bool-cases (length plan.bulk == 0)) [
    | inl e ↦ rw e (inl refl)
    | inr e ↦ rw e (by_allocation (allocate rig c))
  ]
    where
      by_allocation :
          (a : Allocation)
          → ((run_bulk rig c plan schedule s o a).2 ≡ none)
            ⊎ ((run_bulk rig c plan schedule s o a).0 ≡ s)
      by_allocation (Allocation.made arena) = inl refl
      by_allocation Allocation.refused = inr refl
      by_allocation Allocation.panicked = inr refl

  copy_plan_stopped :
      (plan : Plan) (schedules : Schedules) (s : Session W) (f : Failure)
      → (copy_plan rig c plan schedules s).1 ≡ stopped f
      → (copy_plan rig c plan schedules s).0 ≡ s
  unfolding copy_plan
  copy_plan_stopped plan schedules s f =
      by_failure (bulk_part rig c plan schedules.bulk s no_outcome).2 refl
    where
      by_failure :
          (x : Option Failure)
          → (bulk_part rig c plan schedules.bulk s no_outcome).2 ≡ x
          → (copy_plan rig c plan schedules s).1 ≡ stopped f
          → (copy_plan rig c plan schedules s).0 ≡ s
      by_failure none e h = absurd (let g = rw (copy_plan, e) at h in cc)
      by_failure (some x) e h = elim (bulk_part_cases plan schedules.bulk s no_outcome) [
        | inl quiet ↦ absurd (let g : some x ≡ none = sym e ∙ quiet in cc)
        | inr same ↦ rw (copy_plan, e) same
      ]

  -- A run is refused for want of space, is dry, or copies.
  pub run_cases :
      (plan : Plan) (schedules : Schedules) (s : Session W)
      → (run rig c (some plan) schedules s ≡ (
        with_totals rig c plan s,
        stopped (Failure.too_large c.dst_dev.volume.free_bytes plan.total_bytes),
      ))
        ⊎ (run rig c (some plan) schedules s
            ≡ (with_totals rig c plan s, finished (dry_outcome rig c plan)))
          × (c.opts.dry_run ≡ true)
        ⊎ (run rig c (some plan) schedules s
            ≡ copy_tree rig c plan schedules (with_totals rig c plan s))
          × (c.opts.dry_run ≡ false)
  unfolding run
  run_cases plan schedules s = ground arith

  -- A run that stops with an error, whichever it is, has moved no data: no counter but the two totals
  -- has changed, and no file but the probe.
  pub run_stopped :
      (plan : Plan) (schedules : Schedules) (s : Session W) (f : Failure)
      → (run rig c (some plan) schedules s).1 ≡ stopped f
      → ((run rig c (some plan) schedules s).0.stats ≡ (with_totals rig c plan s).stats)
        × ((q : FilePath)
            → q ≢ probe_of rig c plan
            → content (run rig c (some plan) schedules s).0.os q ≡ content s.os q)
  unfolding copy_tree
  run_stopped plan schedules s f h = elim (run_cases plan schedules s) [
    | inl e ↦ rw e (refl, λ q ne. refl)
    | inr (inl e) ↦ absurd (let g = rw e.0 at h in cc)
    | inr (inr e) ↦ rw e.0 (by_failure (prepare_tree rig c plan s.os).1 refl (rw e.0 at h))
  ]
    where
      started : Session W
      started = with_totals rig c plan s

      by_failure :
          (x : Option Failure)
          → (prepare_tree rig c plan s.os).1 ≡ x
          → (copy_tree rig c plan schedules started).1 ≡ stopped f
          → ((copy_tree rig c plan schedules started).0.stats ≡ started.stats)
            × ((q : FilePath)
                → q ≢ probe_of rig c plan
                → content (copy_tree rig c plan schedules started).0.os q ≡ content s.os q)
      by_failure (some x) e g = rw (copy_tree, e) (refl, λ q ne. prepare_tree-other plan s.os q ne)
      by_failure none e g =
          let same =
            copy_plan_stopped plan schedules
              (record started { os = (prepare_tree rig c plan s.os).0 }) f
              (rw (copy_tree, e) at g) in
          rw (copy_tree, e)
            (
              ap (λ (t : Session W). t.stats) same,
              λ q ne.
                  ap (λ (t : Session W). content t.os q) same ∙ prepare_tree-other plan s.os q ne,
            )
