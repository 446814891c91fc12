-- ===== src/Tests/Commands.antt =====
-- The theorems on the command line: the copy of Tests/Plans.antt, asked for by arguments.
use b2c_fast_copy.Base.{
  ℕ, ◌+◌, ◌-◌, ◌*◌, ◌≡◌, refl, ap, true, false, some, none, List, [], ◌∷◌, ◌++◌, arith, ltb, Option,
}
use b2c_fast_copy.Device.{round_up, shares_spindle}
use b2c_fast_copy.Win.Privileges.{no_privileges}
use b2c_fast_copy.Scanner.{Plan}
use b2c_fast_copy.Scheduler.{clamp}
use b2c_fast_copy.Format.{Numeral, size, number, parse_size, unit_of}
use b2c_fast_copy.Format.Units.{parse_size-units}
use b2c_fast_copy.Engine.Copier
use b2c_fast_copy.Engine.Copier.{Options, Copier}
use b2c_fast_copy.Engine.Session.Parts.{AreCopied}
use b2c_fast_copy.Cli.{Args, Machine, ExitCode, options_of, exit_code, main}
use b2c_fast_copy.Cli.Exit.{main-AreCopied}
use b2c_fast_copy.Cli.Json.{errors_json, read_array, read_array-errors_json}
use b2c_fast_copy.Tests.Disk.{content, disk-IsFileSystem, std-IsStd}
use b2c_fast_copy.Tests.Copies.{disk_0}
use b2c_fast_copy.Tests.Plans.{rig, device, copier, plan, schedules, begun, plan-IsSuitable}
use b2c_fast_copy.Tests.Sessions.{outcome_lem, plan-HasEnded}

-- Digits by hand, in numbers that are all exact.
abbrev value : ℕ → List ℕ → ℕ
value n [] = n
value n (c ∷ cs) = value (n * 10 + (c - 48)) cs

abbrev exact : Numeral ℕ
exact = record {
  parse = λ text. some (value 0 text);
  of_nat = λ n. n;
  to_u64 = λ n. n;
  mul = λ a b. a * b;
  less = λ a b. ltb a b;
}

-- `16K`
parse_size-units_example : parse_size exact (49 ∷ 54 ∷ 75 ∷ []) ≡ size 16_384
parse_size-units_example =
    parse_size-units exact (49 ∷ 54 ∷ []) 16 0 75 1024
      (record {
        digit = ((omega arith, omega arith), ((omega arith, omega arith), tt));
        parsed = refl;
        not_negative = refl;
        product = λ m lt. refl;
      })
      refl (omega arith)

-- A quotation mark and a backslash.
read_array-errors_json_example :
    read_array 20 (errors_json ((97 ∷ 34 ∷ 92 ∷ []) ∷ (98 ∷ []) ∷ []) ++ 93 ∷ 125 ∷ [])
    ≡ some ((97 ∷ 34 ∷ 92 ∷ []) ∷ (98 ∷ []) ∷ [], 125 ∷ [])
read_array-errors_json_example =
    read_array-errors_json ((97 ∷ 34 ∷ 92 ∷ []) ∷ (98 ∷ []) ∷ []) (125 ∷ [])
      ((omega arith, (omega arith, (omega arith, tt))), ((omega arith, tt), tt))

abbrev args : Args
args = record {
  source = 5 ∷ [];
  dest = 6 ∷ [];
  ram = some (56 ∷ []);
  threads = some 2;
  block = none;
  qd = none;
  small = 52 ∷ [];
  verify = false;
  dry_run = false;
  exclude = [];
  json = false;
  no_unbuffered = true;
  no_dashboard = true;
  no_fast_prealloc = false;
}

abbrev machine : Machine
machine = record {
  src = 5 ∷ [];
  dst = 6 ∷ [];
  privs = no_privileges;
  src_dev = device;
  dst_dev = device;
  available = 1000;
  cpus = 2;
}

abbrev plan_of : Copier → Option Plan
plan_of c = some plan

exits : (main exact rig args (some machine) plan_of schedules begun).1 ≡ ExitCode.success
unfolding main exit_code options_of parse_size number unit_of Copier.new round_up shares_spindle
    clamp
exits = ap exit_code outcome_lem

main-AreCopied_example :
    AreCopied content
      (plan.bulk ++ plan.small)
      disk_0
      (main exact rig args (some machine) plan_of schedules begun).0.os
unfolding options_of parse_size number unit_of Copier.new round_up shares_spindle clamp
main-AreCopied_example =
    main-AreCopied exact rig content disk-IsFileSystem std-IsStd args machine plan_of schedules
      begun copier.opts plan refl refl refl plan-IsSuitable plan-HasEnded exits
