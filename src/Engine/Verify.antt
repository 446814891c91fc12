-- ===== src/Engine/Verify.antt =====
-- `hash_file` and `run_verify` of crates/b2c-engine/src/engine.rs: both sides are read again.
pub mod Digest
pub mod Counts
use b2c_fast_copy.Base.{
  ℕ, zero, suc, ◌+◌, ◌^◌, Option, none, some, List, [], ◌∷◌, ◌++◌, length, list_eq, min, ◌==◌,
  if◌then◌else◌,
}
use b2c_fast_copy.Win.Defs.{FilePath, Reply}
use b2c_fast_copy.Win.Std.{Std}
use b2c_fast_copy.Scanner.{FileTask, Plan}
use b2c_fast_copy.Engine.Small.{Line}
use b2c_fast_copy.Engine.Claims.{Pool, start_pool, run}

-- The hasher of the package blake3.
pub record Hasher (H : Type 0) : Type 0 where
  pub new : H
  pub update : H → List ℕ → H
  pub finalize : H → List ℕ

-- How the two sides of a file compare.
pub data Verdict : Type 0 where
  equal differing unread : Verdict

-- What the threads share: `ok` and `bad`.
pub record Verified : Type 0 where
  pub ok : ℕ
  pub bad : List Line

module _ {W H : Type 0} (fs : Std W) (hasher : Hasher H) where
  -- The loop of `hash_file` from a position on, for at most `fuel` reads; none if they do not suffice.
  unfoldable pub hash_loop :
      (fuel : ℕ) → W → FilePath → (position : ℕ) → H → Option (Reply (List ℕ))
  hash_loop zero w path position h = none
  hash_loop (suc fuel) w path position h = elim (fs.read w path position (2 ^ 20)) [
    | Reply.failed code ↦ some (Reply.failed code)
    | Reply.done bytes ↦
        let rest = hash_loop fuel w path (position + length bytes) (hasher.update h bytes) in
        if length bytes == 0 then some (Reply.done (hasher.finalize h)) else rest
  ]

  unfoldable pub hash_file : (fuel : ℕ) → W → FilePath → Option (Reply (List ℕ))
  hash_file fuel w path = elim (fs.open_file w path) [
    | Reply.failed code ↦ some (Reply.failed code)
    | Reply.done _ ↦ hash_loop fuel w path 0 hasher.new
  ]

  abbrev pub compare : Option (Reply (List ℕ)) → Option (Reply (List ℕ)) → Verdict
  compare (some (Reply.done a)) (some (Reply.done b)) =
      if list_eq a b then Verdict.equal else Verdict.differing
  compare a b = Verdict.unread

  -- The two calls of `hash_file` for a file. No thread changes the disk.
  unfoldable pub check : (fuel : ℕ) → W → FileTask → Verified → Verified × Verdict
  check fuel w t s = (s, compare (hash_file fuel w t.src) (hash_file fuel w t.dst))

  -- The arms of the `match` on the two hashes.
  unfoldable pub judge : FileTask → Verdict → Verified → Verified
  judge t Verdict.equal s = record s { ok = s.ok + 1 }
  judge t Verdict.differing s = record s { bad = s.bad ++ Line.mismatch t.dst ∷ [] }
  judge t Verdict.unread s = record s { bad = s.bad ++ Line.unreadable t.dst ∷ [] }

  unfoldable pub run_verify :
      (fuel : ℕ) → W → (workers : ℕ) → Plan → (schedule : List ℕ) → Pool FileTask Verdict Verified
  run_verify fuel w workers plan schedule =
      run (plan.bulk ++ plan.small) (check fuel w) judge
        (start_pool (min workers 8) (record { ok = 0; bad = [] })) schedule
