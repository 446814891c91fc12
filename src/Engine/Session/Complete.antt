-- ===== src/Engine/Session/Complete.antt =====
-- A run that records no error has copied everything.
use b2c_fast_copy.Base.{
  ℕ, ◌+◌, ◌^◌, ◌<◌, ◌≡◌, ◌≢◌, inl, inr, refl, ap, subst, ◌∙◌, false, Option, none, some, [], ◌++◌,
  length, arith, get_elem?, get_elem?-append_left, All,
}
use b2c_fast_copy.Win.Defs.{FilePath}
use b2c_fast_copy.Win.FileSystem.{Content, IsFileSystem}
use b2c_fast_copy.Win.Std.{IsStd, Same}
use b2c_fast_copy.Arena.{Arena, Allocation}
use b2c_fast_copy.Scanner.{FileTask, Plan}
use b2c_fast_copy.Engine.Content.Start.{IsReady}
use b2c_fast_copy.Engine.Copier.{Copier}
use b2c_fast_copy.Engine.Claims.{IsLeft}
use b2c_fast_copy.Engine.Small.Copies.{IsApart}
use b2c_fast_copy.Engine.Session.{
  Outcome, no_outcome, Failure, Ended, finished, Session, Rig, Schedules, probe_of, prepare_tree,
  setup_with, allocate, bulk_part, small_pool, small_part, conclude, copy_plan, copy_tree,
  with_totals, run,
}
use b2c_fast_copy.Engine.Session.Stops.{prepare_tree-other, run_cases}
use b2c_fast_copy.Engine.Session.Parts.{AreSized, AreCopied}
use b2c_fast_copy.Engine.Session.Dealt.{
  Dealt, BulkEnded, bulk_part-Dealt, small_part-Dealt, small_part_clean, conclude_clean,
  conclude_files, IsApart-left, IsApart-right, both_copied,
}

module _ {W H : Type 0} (rig : Rig W H) (c : Copier) (content : W → FilePath → Content) where
  -- What a run asks of its plan and of the disk: files that are apart from each other and from the
  -- probe, sizes as scanned, a block size that is ready, and counters that stay below 2 ^ 64.
  pub record IsSuitable (plan : Plan) (s : Session W) : Type 0 where
    pub apart : IsApart (plan.bulk ++ plan.small)
    pub probe :
        (i : ℕ) (t : FileTask)
        → get_elem? (plan.bulk ++ plan.small) i ≡ some t
        → t.src ≢ probe_of rig c plan
    pub sized : AreSized content plan.bulk s.os
    pub ready :
        (arena : Arena)
        → allocate rig c ≡ Allocation.made arena
        → IsReady (setup_with rig c plan arena)
    pub some_worker : 0 < c.workers
    pub unused : s.stats.files_done ≡ 0
    pub countable : s.stats.errors + length plan.bulk + length plan.small < 2 ^ 64

  -- The session once the directories are made and the destination is known to be writable.
  abbrev pub prepared : Plan → Session W → Session W
  prepared plan s = record (with_totals rig c plan s) { os = (prepare_tree rig c plan s.os).0 }

  -- The threads of the bulk copy and of the small files have ended, in fewer than 2 ^ 64 turns.
  pub record HasEnded (plan : Plan) (schedules : Schedules) (s : Session W) : Type 0 where
    pub few : length schedules.bulk < 2 ^ 64
    pub bulk : BulkEnded rig c content plan schedules (prepared plan s)
    pub small :
        All IsLeft
          (small_pool rig c plan schedules.small
            (bulk_part rig c plan schedules.bulk (prepared plan s) no_outcome).0).threads

  module _ (files : IsFileSystem rig.sys content) (std : IsStd rig.fs content) (plan : Plan)
      (schedules : Schedules) (s : Session W) (ok : IsSuitable plan s)
      (ended : HasEnded plan schedules s) where
    source_kept :
        (i : ℕ) (t : FileTask)
        → get_elem? (plan.bulk ++ plan.small) i ≡ some t
        → content (prepared plan s).os t.src ≡ content s.os t.src
    source_kept i t at =
        prepare_tree-other rig c content files std plan s.os t.src (ok.probe i t at)

    prepared_sized : AreSized content plan.bulk (prepared plan s).os
    prepared_sized i t at =
        let kept = source_kept i t (get_elem?-append_left plan.bulk plan.small i t at) in
        (ap (λ (d : Content). d.size) kept ∙ (ok.sized i t at).0, (ok.sized i t at).1)

    -- The two parts one after the other.
    parts_dealt :
        let (t, o, failure) = bulk_part rig c plan schedules.bulk (prepared plan s) no_outcome in
        failure ≡ none
        → let (u, o') = small_part rig c plan schedules.small t o in
          o'.errors ≡ []
          → (u.stats.files_done ≡ length plan.bulk + length plan.small)
            × AreCopied content (plan.bulk ++ plan.small) (prepared plan s).os u.os
    parts_dealt quiet clean = (
      omega (arith, small.done, bulk.done, ok.unused),
      both_copied rig c content plan (prepared plan s) middle
          (small_part rig c plan schedules.small middle outcome).0 ok.apart bulk small,
    )
      where
        middle : Session W
        middle = (bulk_part rig c plan schedules.bulk (prepared plan s) no_outcome).0

        outcome : Outcome
        outcome = (bulk_part rig c plan schedules.bulk (prepared plan s) no_outcome).1

        bulk : Dealt rig c content plan.bulk (prepared plan s) middle
        bulk =
            bulk_part-Dealt rig c content files std plan schedules ended.few (prepared plan s)
              ok.ready (IsApart-left plan.bulk plan.small ok.apart) prepared_sized
              (omega (arith, ok.unused, ok.countable)) ended.bulk quiet
              (small_part_clean rig c content plan schedules.small middle outcome clean)

        small :
            Dealt rig c content plan.small middle
              (small_part rig c plan schedules.small middle outcome).0
        small =
            small_part-Dealt rig c content files std plan schedules ended.few middle outcome
              ok.some_worker (IsApart-right plan.bulk plan.small ok.apart)
              (omega (arith, bulk.done, bulk.errors, ok.unused, ok.countable)) ended.small clean

    -- What a good end of a copy tells, for a state `w` before it.
    Good : W → Session W → Ended → Type 0
    Good w t end =
        (o : Outcome)
        → end ≡ finished o
        → o.errors ≡ []
        → (o.files ≡ o.files_expected)
          × (o.files_expected ≡ length plan.bulk + length plan.small)
          × AreCopied content (plan.bulk ++ plan.small) w t.os

    copy_plan-Good :
        let (t, end) = copy_plan rig c plan schedules (prepared plan s) in
        Good (prepared plan s).os t end
    unfolding Good copy_plan
    copy_plan-Good =
        by_failure (bulk_part rig c plan schedules.bulk (prepared plan s) no_outcome).2 refl
      where
        middle : Session W
        middle = (bulk_part rig c plan schedules.bulk (prepared plan s) no_outcome).0

        after : Session W × Outcome
        after =
            small_part rig c plan schedules.small middle
              (bulk_part rig c plan schedules.bulk (prepared plan s) no_outcome).1

        concluded :
            (bulk_part rig c plan schedules.bulk (prepared plan s) no_outcome).2 ≡ none
            → (o : Outcome) → conclude rig c plan schedules.verify after.0 after.1 ≡ o
            → o.errors ≡ []
            → (o.files ≡ o.files_expected)
              × (o.files_expected ≡ length plan.bulk + length plan.small)
              × AreCopied content (plan.bulk ++ plan.small) (prepared plan s).os after.0.os
        concluded quiet o is clean =
            let counts = conclude_files rig c content plan schedules.verify after.0 after.1 in
            let parts = parts_dealt quiet (
              conclude_clean rig c content plan schedules.verify after.0 after.1
                (ap (λ (x : Outcome). x.errors) is ∙ clean)) in
            let files = ap (λ (x : Outcome). x.files) is in
            let expected = ap (λ (x : Outcome). x.files_expected) is in
            (
              omega (arith, files, expected, counts.0, counts.1, parts.0),
              omega (arith, expected, counts.1),
              parts.1,
            )

        by_failure :
            (x : Option Failure)
            → (bulk_part rig c plan schedules.bulk (prepared plan s) no_outcome).2 ≡ x
            → let (t, end) = copy_plan rig c plan schedules (prepared plan s) in
              Good (prepared plan s).os t end
        by_failure (some f) e = rw (copy_plan, e) (λ o is clean. absurd (cc))
        by_failure none e = rw (copy_plan, e) (λ o is clean. concluded e o (cc) clean)

    -- A run that finishes and records no error has copied every file of the plan, bulk and small: each
    -- destination reads like its source before the run, and the outcome counts as many files as it
    -- expects. This holds whatever the order of the threads, for a run that is not dry, once its threads
    -- `HasEnded`, a plan that `IsSuitable`, and a disk that follows `IsFileSystem` and `IsStd`.
    pub run_complete :
        (o : Outcome)
        → c.opts.dry_run ≡ false
        → (run rig c (some plan) schedules s).1 ≡ finished o
        → o.errors ≡ []
        → (o.files ≡ o.files_expected)
          × (o.files_expected ≡ length plan.bulk + length plan.small)
          × AreCopied content
              (plan.bulk ++ plan.small)
              s.os
              (run rig c (some plan) schedules s).0.os
    unfolding Good copy_tree
    run_complete o wet is clean = elim (run_cases rig c content files std plan schedules s) [
      | inl e ↦ absurd (let g = rw e at is in cc)
      | inr (inl e) ↦ absurd (let g = e.1 in cc)
      | inr (inr e) ↦ rw e.0 (tree (prepare_tree rig c plan s.os).1 refl o (rw e.0 at is) clean)
    ]
      where
        tree :
            (x : Option Failure)
            → (prepare_tree rig c plan s.os).1 ≡ x
            → let (t, end) = copy_tree rig c plan schedules (with_totals rig c plan s) in
              Good s.os t end
        tree (some f) e = rw (copy_tree, e) (λ o' is' clean'. absurd (cc))
        tree none e =
            rw (copy_tree, e)
              (λ o' is' clean'.
                let good = copy_plan-Good o' is' clean' in
                (
                  good.0,
                  good.1,
                  λ i t at.
                      subst
                        (λ d.
                          Same
                            (content (copy_plan rig c plan schedules (prepared plan s)).0.os t.dst)
                            d)
                        (source_kept i t at) (good.2 i t at),
                ))
