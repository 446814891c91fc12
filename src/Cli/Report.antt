-- ===== src/Cli/Report.antt =====
-- `report` of crates/b2c-cli/src/main.rs: the summary for people, line by line.
use b2c_fast_copy.Base.{
  ℕ, zero, suc, ◌-◌, Bool, List, [], ◌∷◌, ◌++◌, map, length, ltb, ◌==◌, if◌then◌else◌,
}
use b2c_fast_copy.Engine.Small.{Line}
use b2c_fast_copy.Engine.Session.{Outcome}

-- A line with the numbers that it shows. Their format, and the time and rate of a copy, are left out.
pub data ReportLine : Type 0 where
  dry_run : (files bytes : ℕ) → ReportLine
  incomplete : (missing expected : ℕ) → ReportLine
  copied : (files expected bytes : ℕ) → ReportLine
  arena : (bytes : ℕ) (large_pages : Bool) → ReportLine
  verified : ℕ → ReportLine
  errors : ℕ → ReportLine
  error : Line → ReportLine
  more : ℕ → ReportLine

abbrev take : {A : Type 0} → ℕ → List A → List A
take zero xs = []
take (suc n) [] = []
take (suc n) (x ∷ xs) = x ∷ take n xs

abbrev error_lines : List Line → List ReportLine
error_lines es =
    if length es == 0
    then []
    else errors (length es) ∷ map error (take 10 es)
      ++ (if ltb 10 (length es) then more (length es - 10) ∷ [] else [])

unfoldable pub report : Outcome → (dry : Bool) → List ReportLine
report o dry =
    if dry
    then dry_run o.files o.bytes ∷ []
    else (if ltb 0 (o.files_expected - o.files)
        then incomplete (o.files_expected - o.files) o.files_expected ∷ []
        else [])
      ++ copied o.files o.files_expected o.bytes
        ∷ arena o.arena_bytes o.large_pages
        ∷ (if ltb 0 o.verified then verified o.verified ∷ [] else [])
      ++ error_lines o.errors
