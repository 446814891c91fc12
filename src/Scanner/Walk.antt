-- ===== src/Scanner/Walk.antt =====
-- `scan` of crates/b2c-engine/src/scanner.rs.
use b2c_fast_copy.Base.{
  list_eq, ℕ, zero, suc, ◌+◌, Bool, Option, none, some, List, [], ◌∷◌, ◌++◌, leb, if◌then◌else◌,
}
use mathlib.Core.Option
use b2c_fast_copy.Win.Defs.{FilePath}
use b2c_fast_copy.Scanner.{FileTask, Plan, no_plan, push, add_bytes}
use b2c_fast_copy.Scanner.Glob.{excluded}

-- What `read_dir` lists, entry by entry: files with their length if it can be had, reparse points,
-- entries whose type cannot be had, and directories, which may be unreadable and have a listing.
pub data Listing : Type 0 where
  end : Listing
  file : (name : FilePath) (len : Option ℕ) (rest : Listing) → Listing
  link : (name : FilePath) (rest : Listing) → Listing
  untyped : (name : FilePath) (rest : Listing) → Listing
  folder : (name : FilePath) (readable : Bool) (children rest : Listing) → Listing

-- A directory on the stack: where it is, where it goes, whether it can be read, and what it lists.
pub record Pending : Type 0 where
  pub from : FilePath
  pub to : FilePath
  pub readable : Bool
  pub children : Listing

abbrev pub unwrap_or_zero : Option ℕ → ℕ
unwrap_or_zero none = 0
unwrap_or_zero (some n) = n

-- The arguments of `scan`, `Path::join`, `str::to_lowercase`, the order of
-- paths, `Path::file_name` and `Path::parent`.
pub record Scan : Type 0 where
  pub small_threshold : ℕ
  pub excludes : List (List ℕ)
  pub join : FilePath → FilePath → FilePath
  pub lower : FilePath → List ℕ
  pub before : FilePath → FilePath → Bool
  pub file_name : FilePath → Option FilePath
  pub parent : FilePath → Option FilePath

infixl 5 ◌>>=◌
abbrev ◌>>=◌ : {A B : Type 0} → Option A → (A → Option B) → Option B
none >>= f = none
some a >>= f = f a

module _ (s : Scan) where
  -- A file of a directory.
  unfoldable pub take_file : Plan → (src dst : FilePath) → ℕ → Plan
  take_file plan src dst size =
      push (add_bytes plan size) (record { src = src; dst = dst; size = size }) s.small_threshold

  -- The loop over the entries of one directory.
  unfoldable pub visit : (from to : FilePath) → Listing → Plan → List Pending → Plan × List Pending
  visit from to end plan stack = (plan, stack)
  visit from to (file name len rest) plan stack =
      let plan' = take_file plan (s.join from name) (s.join to name) (unwrap_or_zero len) in
      visit from to rest (if excluded s.lower name s.excludes then plan else plan') stack
  visit from to (link name rest) plan stack =
      visit from to rest
        (if excluded s.lower name s.excludes
          then plan
          else record plan { skipped_links = plan.skipped_links + 1 })
        stack
  visit from to (untyped name rest) plan stack = visit from to rest plan stack
  visit from to (folder name readable children rest) plan stack =
      let child : Pending = record {
        from = s.join from name;
        to = s.join to name;
        readable = readable;
        children = children;
      } in
      let skip = excluded s.lower name s.excludes in
      visit from to rest (if skip then plan else record plan { dirs = plan.dirs ++ child.to ∷ [] })
        (if skip then stack else child ∷ stack)

  -- `while let Some(..) = stack.pop()`, for at most `fuel` directories.
  unfoldable pub walk : (fuel : ℕ) → Plan → List Pending → Option Plan
  walk zero plan stack = none
  walk (suc fuel) plan [] = some plan
  walk (suc fuel) plan (d ∷ stack) =
      let (plan', stack') =
        if d.readable then visit d.from d.to d.children plan stack else (plan, stack) in
      walk fuel plan' stack'

  -- Stable insertion for `sort_by_key` with `Reverse(size)`.
  unfoldable pub insert_task : FileTask → List FileTask → List FileTask
  insert_task t [] = t ∷ []
  insert_task t (u ∷ us) =
      let rest = insert_task t us in if leb u.size t.size then t ∷ u ∷ us else u ∷ rest

  unfoldable pub sort_tasks : List FileTask → List FileTask
  unfolding insert_task
  sort_tasks [] = []
  sort_tasks (t ∷ ts) = insert_task t (sort_tasks ts)

  unfoldable pub insert_dir : FilePath → List FilePath → List FilePath
  insert_dir d [] = d ∷ []
  insert_dir d (e ∷ es) =
      let rest = insert_dir d es in if s.before e d then e ∷ rest else d ∷ e ∷ es

  unfoldable pub sort_dirs : List FilePath → List FilePath
  unfolding insert_dir
  sort_dirs [] = []
  sort_dirs (d ∷ ds) = insert_dir d (sort_dirs ds)

  -- `Vec::dedup`: the first of equal neighbours stays.
  unfoldable pub dedup : List FilePath → List FilePath
  dedup [] = []
  dedup (d ∷ []) = d ∷ []
  dedup (d ∷ e ∷ es) = let rest = dedup (e ∷ es) in if list_eq d e then rest else d ∷ rest

  -- Parents before children, and the largest bulk file first.
  unfoldable pub arrange : Plan → Plan
  unfolding dedup sort_dirs sort_tasks
  arrange plan = record plan { dirs = dedup (sort_dirs plan.dirs); bulk = sort_tasks plan.bulk }

  -- `scan` of a directory.
  unfoldable pub scan_folder :
      (fuel : ℕ) → (src dst : FilePath) → (readable : Bool) → Listing → Option Plan
  scan_folder fuel src dst readable children = Option.map arrange (
      walk fuel (record no_plan { dirs = dst ∷ [] })
        (record { from = src; to = dst; readable = readable; children = children } ∷ []))

  -- `scan` of a file of `len` bytes; none for a source with no file name.
  unfoldable pub scan_file : (src dst : FilePath) → (dst_is_dir : Bool) → (len : ℕ) → Option Plan
  scan_file src dst dst_is_dir len = do
    target ← if dst_is_dir then Option.map (s.join dst) (s.file_name src) else some dst
    let dirs : List FilePath = elim (s.parent target) [ none ↦ [] | some parent ↦ parent ∷ [] ]
    some (
        push (record no_plan { dirs = dirs }) (record { src = src; dst = target; size = len })
          s.small_threshold)
