-- ===== src/Cli/Exit.antt =====
-- What the exit code of the program tells.
use b2c_fast_copy.Base.{
  ◌≡◌, refl, ◌∙◌, false, Option, some, List, [], ◌∷◌, ◌++◌, if◌then◌else◌, Option-cases, inl, inr,
}
use b2c_fast_copy.Win.Defs.{FilePath}
use b2c_fast_copy.Win.FileSystem.{Content, IsFileSystem}
use b2c_fast_copy.Win.Std.{IsStd}
use b2c_fast_copy.Scanner.{Plan}
use b2c_fast_copy.Format.{Numeral}
use b2c_fast_copy.Engine.Copier
use b2c_fast_copy.Engine.Copier.{Options, Copier}
use b2c_fast_copy.Engine.Session.{Ended, finished, stopped, Session, Rig, Schedules, run}
use b2c_fast_copy.Engine.Session.Parts.{AreCopied}
use b2c_fast_copy.Engine.Session.Complete.{IsSuitable, HasEnded, run_complete}
use b2c_fast_copy.Cli.{
  Args, Machine, ExitCode, options_of, exit_code, is_nil, copier_on, needed_size, optional_size,
  main,
}

options_of-dry :
    {F : Type 0} (nu : Numeral F) (args : Args) (opts : Options)
    → options_of nu args ≡ some opts
    → opts.dry_run ≡ args.dry_run
unfolding options_of
options_of-dry nu args opts h = elim (Option-cases (needed_size nu args.small)) [
  | inl e ↦ absurd (let g = rw (options_of, e) at h in cc)
  | inr (small, e) ↦ elim (Option-cases (optional_size nu args.ram)) [
    | inl f ↦ absurd (let g = rw (options_of, e, f) at h in cc)
    | inr (ram, f) ↦ elim (Option-cases (optional_size nu args.block)) [
      | inl k ↦ absurd (let g = rw (options_of, e, f, k) at h in cc)
      | inr (block, k) ↦ let g = rw (options_of, e, f, k) at h in cc
    ]
  ]
]

module _ {F W H : Type 0} (nu : Numeral F) (rig : Rig W H) (content : W → FilePath → Content)
    (files : IsFileSystem rig.sys content) (std : IsStd rig.fs content) where
  -- If the program exits with success, every file of the plan is copied: each destination reads like its
  -- source before the run. This holds for arguments that can be read and do not ask for a dry run, a
  -- machine on which `Copier::new` succeeds and a scan that does, a plan that `IsSuitable` and threads
  -- that `HasEnded`, in whatever order they moved, and a disk that follows `IsFileSystem` and `IsStd`.
  pub main-AreCopied :
      (args : Args) (m : Machine) (scan : Copier → Option Plan) (schedules : Schedules)
      (s : Session W) (opts : Options) (plan : Plan)
      → options_of nu args ≡ some opts
      → args.dry_run ≡ false
      → scan (copier_on m opts) ≡ some plan
      → IsSuitable rig (copier_on m opts) content plan s
      → HasEnded rig (copier_on m opts) content plan schedules s
      → let (s', code) = main nu rig args (some m) scan schedules s in
        code ≡ ExitCode.success → AreCopied content (plan.bulk ++ plan.small) s.os s'.os
  unfolding main exit_code Copier.new
  main-AreCopied args m scan schedules s opts plan given wet planned ok ended good =
      rw (main, given, planned)
        (by_end (run rig c (some plan) schedules s).1 refl (rw (main, given, planned) at good))
    where
      c : Copier
      c = copier_on m opts

      dry : c.opts.dry_run ≡ false
      dry = options_of-dry nu args opts given ∙ wet

      clean :
          {A : Type 0} (es : List A)
          → (if is_nil es then ExitCode.success else ExitCode.incomplete) ≡ ExitCode.success
          → es ≡ []
      clean [] h = refl
      clean (x ∷ xs) h = absurd (cc)

      by_end :
          (end : Ended)
          → (run rig c (some plan) schedules s).1 ≡ end
          → exit_code end ≡ ExitCode.success
          → AreCopied content
              (plan.bulk ++ plan.small)
              s.os
              (run rig c (some plan) schedules s).0.os
      by_end (stopped f) e h = absurd (cc)
      by_end (finished o) e h =
          (run_complete rig c content files std plan schedules s ok ended o dry e
            (clean o.errors h)).2
