-- ===== src/Tests/Scans.antt =====
-- The theorems on the scan, at a small tree.
use b2c_fast_copy.Base.{◌≡◌, refl, true, false, some, none, [], ◌∷◌, ◌++◌, arith}
use b2c_fast_copy.Scanner.{Plan, push, add_bytes}
use b2c_fast_copy.Scanner.Glob.{excluded, glob_loop, glob_match}
use b2c_fast_copy.Scanner.Walk.{
  Listing, end, file, link, folder, Scan, take_file, visit, walk, arrange, scan_folder, scan_file,
  insert_task, sort_tasks, insert_dir, sort_dirs, dedup,
}
use b2c_fast_copy.Scanner.Totals.{IsPlan, IsDescending, scan_folder-IsPlan}
use b2c_fast_copy.Scanner.Ends.{scan_folder_ends}

-- Files from 10 bytes on are bulk; names that end with `x` are left out.
abbrev pub options : Scan
options = record {
  small_threshold = 10;
  excludes = (42 ∷ 120 ∷ []) ∷ [];
  join = λ p q. p ++ 92 ∷ q;
  lower = λ p. p;
  before = λ p q. false;
  file_name = λ p. some p;
  parent = λ p. none;
}

abbrev tree : Listing
tree = file (97 ∷ []) (some 3) (
    folder (98 ∷ []) true (file (99 ∷ []) (some 12) (file (100 ∷ []) (some 40) end))
      (link (101 ∷ []) (file (97 ∷ 120 ∷ []) (some 50) end)))

abbrev found : Plan
found = record {
  dirs = (2 ∷ []) ∷ (2 ∷ 92 ∷ 98 ∷ []) ∷ [];
  bulk =
      record { src = 1 ∷ 92 ∷ 98 ∷ 92 ∷ 100 ∷ []; dst = 2 ∷ 92 ∷ 98 ∷ 92 ∷ 100 ∷ []; size = 40 }
      ∷ record { src = 1 ∷ 92 ∷ 98 ∷ 92 ∷ 99 ∷ []; dst = 2 ∷ 92 ∷ 98 ∷ 92 ∷ 99 ∷ []; size = 12 }
      ∷ [];
  small = record { src = 1 ∷ 92 ∷ 97 ∷ []; dst = 2 ∷ 92 ∷ 97 ∷ []; size = 3 } ∷ [];
  total_bytes = 55;
  skipped_links = 1;
}

found_lem : scan_folder options 4 (1 ∷ []) (2 ∷ []) true tree ≡ some found
unfolding scan_folder walk visit take_file push add_bytes arrange excluded glob_match glob_loop
    insert_task sort_tasks insert_dir sort_dirs dedup
found_lem = refl

scan_folder-IsPlan_example : IsPlan 10 found × IsDescending options found.bulk
scan_folder-IsPlan_example =
    scan_folder-IsPlan options 4 (1 ∷ []) (2 ∷ []) true tree found found_lem

scan_folder_ends_example : (p : Plan) × (scan_folder options 3 (1 ∷ []) (2 ∷ []) true tree ≡ some p)
scan_folder_ends_example = scan_folder_ends options 3 (1 ∷ []) (2 ∷ []) true tree (omega arith)

abbrev pub single : Plan
single = record {
  dirs = [];
  bulk = record { src = 1 ∷ []; dst = 2 ∷ []; size = 12 } ∷ [];
  small = [];
  total_bytes = 0;
  skipped_links = 0;
}

pub single_lem : scan_file options (1 ∷ []) (2 ∷ []) false 12 ≡ some single
unfolding scan_file push
single_lem = refl
