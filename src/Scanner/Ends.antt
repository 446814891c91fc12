-- ===== src/Scanner/Ends.antt =====
-- How long a scan takes.
use b2c_fast_copy.Base.{
  ℕ, zero, suc, ◌+◌, ◌≤◌, ◌<◌, ◌≡◌, inl, inr, refl, Bool, true, false, Bool-cases, some, List, [],
  ◌∷◌, ◌++◌, arith, if◌then◌else◌, total,
}
use b2c_fast_copy.Win.Defs.{FilePath}
use b2c_fast_copy.Scanner.{Plan, no_plan}
use b2c_fast_copy.Scanner.Glob.{excluded}
use b2c_fast_copy.Scanner.Walk.{
  Listing, end, file, link, untyped, folder, Pending, Scan, visit, walk, arrange, scan_folder,
}

-- The directories of a listing and of a stack.
abbrev pub folders : Listing → ℕ
folders end = 0
folders (file name len rest) = folders rest
folders (link name rest) = folders rest
folders (untyped name rest) = folders rest
folders (folder name readable children rest) = folders children + 1 + folders rest

abbrev pub folders_of : Pending → ℕ
folders_of d = folders d.children + 1

module _ (s : Scan) where
  visit-folders :
      (from to : FilePath) (l : Listing) (p : Plan) (stack : List Pending)
      → total folders_of (visit s from to l p stack).1 ≤ folders l + total folders_of stack
  unfolding visit
  visit-folders from to end p stack = omega arith
  visit-folders from to (file name len rest) p stack = visit-folders from to rest _ stack
  visit-folders from to (link name rest) p stack = visit-folders from to rest _ stack
  visit-folders from to (untyped name rest) p stack = visit-folders from to rest p stack
  visit-folders from to (folder name readable children rest) p stack = omega (
    arith,
    visit-folders from to rest (if skip then p else record p { dirs = p.dirs ++ child.to ∷ [] })
        (if skip then stack else child ∷ stack),
    pushed skip,
  )
    where
      skip : Bool
      skip = excluded s.lower name s.excludes

      child : Pending
      child = record {
        from = s.join from name;
        to = s.join to name;
        readable = readable;
        children = children;
      }

      pushed :
          (b : Bool)
          → total folders_of (if b then stack else child ∷ stack)
            ≤ folders_of child + total folders_of stack
      pushed true = omega arith
      pushed false = omega arith

  walk_ends :
      (fuel : ℕ) (p : Plan) (stack : List Pending)
      → total folders_of stack < fuel
      → (q : Plan) × (walk s fuel p stack ≡ some q)
  unfolding walk
  walk_ends zero p stack h = absurd (omega arith)
  walk_ends (suc fuel) p [] h = (p, refl)
  walk_ends (suc fuel) p (d ∷ stack) h = elim (Bool-cases d.readable) [
    | inl opened ↦
        let (p', rest) = visit s d.from d.to d.children p stack in
        let (q, e) =
          walk_ends fuel p' rest (omega (arith, visit-folders d.from d.to d.children p stack)) in
        (q, rw opened e)
    | inr shut ↦ let (q, e) = walk_ends fuel p stack (omega arith) in (q, rw shut e)
  ]

  -- A scan of a tree ends: it takes no more turns than the tree has directories, and one.
  pub scan_folder_ends :
      (fuel : ℕ) (src dst : FilePath) (readable : Bool) (l : Listing)
      → folders l + 1 < fuel
      → (p : Plan) × (scan_folder s fuel src dst readable l ≡ some p)
  unfolding scan_folder
  scan_folder_ends fuel src dst readable l h =
      let (q, e) =
        walk_ends fuel (record no_plan { dirs = dst ∷ [] })
          (record { from = src; to = dst; readable = readable; children = l } ∷ []) (omega arith) in
      (arrange s q, rw e refl)
