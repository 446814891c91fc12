-- ===== src/Scanner.antt =====
-- crates/b2c-engine/src/scanner.rs: what is to be copied.
pub mod Glob
pub mod Walk
pub mod Totals
pub mod Ends
use b2c_fast_copy.Base.{ℕ, ◌+◌, ◌%◌, ◌^◌, leb, if◌then◌else◌, List, [], ◌∷◌, ◌++◌, length}
use b2c_fast_copy.Win.Defs.{FilePath}

pub record FileTask : Type 0 where
  pub src : FilePath
  pub dst : FilePath
  pub size : ℕ

pub record Plan : Type 0 where
  pub dirs : List FilePath
  pub bulk : List FileTask
  pub small : List FileTask
  pub total_bytes : ℕ
  pub skipped_links : ℕ

-- `Plan::default`.
abbrev pub no_plan : Plan
no_plan = record { dirs = []; bulk = []; small = []; total_bytes = 0; skipped_links = 0 }

unfoldable pub file_count : Plan → ℕ
file_count p = length p.bulk + length p.small

unfoldable pub push : Plan → FileTask → (threshold : ℕ) → Plan
push p task threshold =
    if leb threshold task.size
    then record p { bulk = p.bulk ++ task ∷ [] }
    else record p { small = p.small ++ task ∷ [] }

-- `plan.total_bytes += size` on a u64.
unfoldable pub add_bytes : Plan → ℕ → Plan
add_bytes p size = record p { total_bytes = (p.total_bytes + size) % 2 ^ 64 }
