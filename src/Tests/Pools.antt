-- ===== src/Tests/Pools.antt =====
-- The theorems on the copy of small files and on verification, for two files and two threads.
use b2c_fast_copy.Base.{
  ℕ, All, zero, suc, ◌+◌, ◌-◌, total, ◌<◌, ◌≡◌, ◌≢◌, ◌⊎◌, refl, some, List, [], ◌∷◌, length, arith,
  get_elem?,
}
use b2c_fast_copy.Win.Defs.{FilePath, Reply}
use b2c_fast_copy.Win.Std.{Same}
use b2c_fast_copy.Stats.{no_stats}
use b2c_fast_copy.Scanner.{FileTask, Plan}
use b2c_fast_copy.Engine.Claims.{Pool, turn, run}
use b2c_fast_copy.Engine.Claims.Ends.{IsRound}
use b2c_fast_copy.Engine.Small.{Line, Small, copy, tell, run_small}
use b2c_fast_copy.Engine.Small.Copies.{IsApart, run_small-copies}
use b2c_fast_copy.Engine.Verify.{Verdict, Verified, hash_loop, hash_file, check, judge, run_verify}
use b2c_fast_copy.Engine.Verify.Digest.{FailsToRead, digest, hash_file-digest}
use b2c_fast_copy.Engine.Verify.Counts.{due, run_verify-counts, run_verify-agrees}
use b2c_fast_copy.Tests.Disk.{
  Disk, content, std, std-IsStd, std-IsReadable, keeper, keeper-IsStreaming,
}
use b2c_fast_copy.Tests.Copies.{disk_0}

abbrev tasks : List FileTask
tasks =
    record { src = 1 ∷ []; dst = 3 ∷ []; size = 3 }
    ∷ record { src = 2 ∷ []; dst = 4 ∷ []; size = 3 }
    ∷ []

-- Both threads take a file, the second is the first to copy, and each looks for more.
abbrev interleaved : List ℕ
interleaved = 0 ∷ 1 ∷ 1 ∷ 0 ∷ 0 ∷ 1 ∷ 1 ∷ 0 ∷ []

tasks-IsApart : IsApart tasks
tasks-IsApart = record {
  apart = λ i j t u et eu e. apart i j t u et eu e;
  distinct = λ i j t u et eu ne e. distinct i j t u et eu ne e;
}
  where
    apart :
        (i j : ℕ) (t u : FileTask)
        → get_elem? tasks i ≡ some t
        → get_elem? tasks j ≡ some u
        → t.src ≢ u.dst
    apart zero zero t u et eu e = cc
    apart zero (suc zero) t u et eu e = cc
    apart (suc zero) zero t u et eu e = cc
    apart (suc zero) (suc zero) t u et eu e = cc
    apart (suc (suc i)) j t u et eu e = cc
    apart i (suc (suc j)) t u et eu e = cc

    distinct :
        (i j : ℕ) (t u : FileTask)
        → get_elem? tasks i ≡ some t
        → get_elem? tasks j ≡ some u
        → i ≢ j
        → t.dst ≢ u.dst
    distinct zero zero t u et eu ne e = ne refl
    distinct zero (suc zero) t u et eu ne e = cc
    distinct (suc zero) zero t u et eu ne e = cc
    distinct (suc zero) (suc zero) t u et eu ne e = ne refl
    distinct (suc (suc i)) j t u et eu ne e = cc
    distinct i (suc (suc j)) t u et eu ne e = cc

abbrev copied : Pool FileTask (Reply ℕ) (Small Disk)
copied = run_small std 2 tasks no_stats disk_0 interleaved

run_small-copies_example :
    (copied.shared.stats.files_done ≡ 2)
    × (copied.shared.stats.errors ≡ 0)
    × ((i : ℕ) (t : FileTask)
        → get_elem? tasks i ≡ some t
        → Same (content copied.shared.os t.dst) (content disk_0 t.src))
unfolding run_small run turn copy tell
run_small-copies_example =
    run_small-copies std content std-IsStd 2 tasks no_stats disk_0 interleaved (omega arith)
      tasks-IsApart (omega arith) (refl, (refl, tt)) refl

-- Each round gives both threads a turn.
abbrev pub turns : ℕ → List (List ℕ)
turns zero = []
turns (suc n) = (1 ∷ 0 ∷ []) ∷ turns n

pub turns-IsRound : (n : ℕ) → All (IsRound 2) (turns n)
turns-IsRound zero = tt
turns-IsRound (suc n) = (λ i lt. ground arith, turns-IsRound n)

hash_file-digest_example :
    ((code : ℕ) × ((std.open_file disk_0 (1 ∷ []) ≡ Reply.failed code)
        ⊎ FailsToRead std keeper content std-IsReadable keeper-IsStreaming disk_0 (1 ∷ []) code)
      × (hash_file std keeper 4 disk_0 (1 ∷ []) ≡ some (Reply.failed code)))
    ⊎ ((std.open_file disk_0 (1 ∷ []) ≡ Reply.done tt)
        × (hash_file std keeper 4 disk_0 (1 ∷ []) ≡ some (Reply.done (17 ∷ 18 ∷ 19 ∷ []))))
hash_file-digest_example =
    hash_file-digest std keeper content std-IsReadable keeper-IsStreaming disk_0 (1 ∷ []) 4
      (omega arith)

abbrev plan : Plan
plan = record { dirs = []; bulk = tasks; small = []; total_bytes = 6; skipped_links = 0 }

abbrev verified : Pool FileTask Verdict Verified
verified = run_verify std keeper 4 disk_0 2 plan interleaved

run_verify-counts_example :
    (verified.shared.ok ≡ total (λ t. 1 - length (due std keeper 4 disk_0 t)) tasks)
    × ((f : Line → ℕ)
        → total f verified.shared.bad ≡ total (λ t. total f (due std keeper 4 disk_0 t)) tasks)
    × (verified.shared.ok + length verified.shared.bad ≡ 2)
unfolding run_verify run turn check judge hash_file hash_loop
run_verify-counts_example =
    run_verify-counts std keeper 4 disk_0 2 plan interleaved (omega arith) (refl, (refl, tt))

-- A disk on which both copies have been made.
abbrev disk_1 : Disk
disk_1 = copied.shared.os

abbrev reverified : Pool FileTask Verdict Verified
reverified = run_verify std keeper 4 disk_1 2 plan interleaved

run_verify-agrees_example :
    digest keeper (content disk_1 (2 ∷ [])) ≡ digest keeper (content disk_1 (4 ∷ []))
unfolding run_small copy tell run_verify run turn check judge hash_file hash_loop
run_verify-agrees_example =
    run_verify-agrees std keeper 4 disk_1 content 2 plan interleaved std-IsReadable
      keeper-IsStreaming (λ path. sizes path) (omega arith) (refl, (refl, tt)) refl 1
      (record { src = 2 ∷ []; dst = 4 ∷ []; size = 3 }) refl
  where
    sizes : (path : FilePath) → (content disk_1 path).size < 4
    sizes path = ground arith
