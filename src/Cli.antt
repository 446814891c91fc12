-- ===== src/Cli.antt =====
-- crates/b2c-cli/src/main.rs: the command line, from its arguments to the exit code.
pub mod Report
pub mod Json
pub mod Exit
use b2c_fast_copy.Base.{
  ℕ, ◌-◌, Bool, true, false, not, Option, none, some, List, [], ◌∷◌, length, ltb, ◌==◌,
  if◌then◌else◌,
}
use b2c_fast_copy.Win.Defs.{FilePath}
use b2c_fast_copy.Win.Privileges.{Privileges}
use b2c_fast_copy.Device.{DeviceProfile}
use b2c_fast_copy.Scanner.{Plan}
use b2c_fast_copy.Format.{Numeral, Size, size, parse_size}
use b2c_fast_copy.Engine.Copier
use b2c_fast_copy.Engine.Copier.{Options, Copier}
use b2c_fast_copy.Engine.Session.{Outcome, Ended, finished, stopped, Session, Rig, Schedules, run}

pub record Args : Type 0 where
  pub source : FilePath
  pub dest : FilePath
  pub ram : Option (List ℕ)
  pub threads : Option ℕ
  pub block : Option (List ℕ)
  pub qd : Option ℕ
  pub small : List ℕ
  pub verify : Bool
  pub dry_run : Bool
  pub exclude : List (List ℕ)
  pub json : Bool
  pub no_unbuffered : Bool
  pub no_dashboard : Bool
  pub no_fast_prealloc : Bool

-- What `Copier::new` learns from the system: the two absolute paths, privileges, the profiles of the two
-- devices, the free memory and the number of processors. It fails if a path cannot be resolved or a
-- device cannot be profiled.
pub record Machine : Type 0 where
  pub src : FilePath
  pub dst : FilePath
  pub privs : Privileges
  pub src_dev : DeviceProfile
  pub dst_dev : DeviceProfile
  pub available : ℕ
  pub cpus : ℕ

-- `ExitCode`: 0, 1 and 2.
pub data ExitCode : Type 0 where
  success failure incomplete : ExitCode

-- A size that was given, or none: `map(parse_size).transpose()`. None of the whole is an error.
abbrev optional_size : {F : Type 0} → Numeral F → Option (List ℕ) → Option (Option ℕ)
optional_size nu none = some none
optional_size nu (some text) = elim (parse_size nu text) [
  | size n ↦ some (some n)
  | Size.empty ↦ none
  | Size.bad ↦ none
  | Size.negative ↦ none
]

abbrev needed_size : {F : Type 0} → Numeral F → List ℕ → Option ℕ
needed_size nu text = elim (parse_size nu text) [
  | size n ↦ some n
  | Size.empty ↦ none
  | Size.bad ↦ none
  | Size.negative ↦ none
]

module _ {F : Type 0} (nu : Numeral F) where
  -- The options, if all sizes can be read.
  unfoldable pub options_of : Args → Option Options
  options_of args = elim (needed_size nu args.small) [
    | none ↦ none
    | some small ↦ elim (optional_size nu args.ram) [
      | none ↦ none
      | some ram ↦ elim (optional_size nu args.block) [
        | none ↦ none
        | some block ↦ some (record {
          arena_bytes = ram;
          workers = args.threads;
          block_size = block;
          queue_depth = args.qd;
          small_threshold = small;
          excludes = args.exclude;
          verify = args.verify;
          dry_run = args.dry_run;
          unbuffered = not args.no_unbuffered;
          fast_preallocate = not args.no_fast_prealloc;
        })
      ]
    ]
  ]

abbrev is_nil : {A : Type 0} → List A → Bool
is_nil [] = true
is_nil (x ∷ xs) = false

unfoldable pub exit_code : Ended → ExitCode
exit_code (finished o) = if is_nil o.errors then ExitCode.success else ExitCode.incomplete
exit_code (stopped f) = ExitCode.failure

abbrev pub copier_on : Machine → Options → Copier
copier_on m opts = Copier.new m.src m.dst opts m.privs m.src_dev m.dst_dev m.available m.cpus

module _ {F W H : Type 0} (nu : Numeral F) (rig : Rig W H) where
  -- The exit code of the program, with the disk that it leaves. `scan` gives the plan of a copier.
  unfoldable pub main :
      Args
      → (machine : Option Machine) → (scan : Copier → Option Plan) → Schedules
      → Session W
      → Session W × ExitCode
  main args machine scan schedules s = elim (options_of nu args) [
    | none ↦ (s, ExitCode.failure)
    | some opts ↦ elim machine [
      | none ↦ (s, ExitCode.failure)
      | some m ↦
          let c = copier_on m opts in
          let (s', ended) = run rig c (scan c) schedules s in (s', exit_code ended)
    ]
  ]
