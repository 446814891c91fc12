-- ===== src/Win/Std.antt =====
-- The calls of `std::fs` and `std::io` in crates/b2c-engine/src/engine.rs, as a parameter, and what is
-- relied on in them.
use b2c_fast_copy.Base.{ℕ, ◌<◌, ◌≡◌, ◌≢◌, List}
use b2c_fast_copy.Win.Defs.{FilePath, Reply}
use b2c_fast_copy.Win.FileSystem.{Content}

-- `W` is the state of the operating system and its disks. `read` gives the next bytes of a file that is
-- open for reading, from a position on, at most as many as the buffer holds.
pub record Std (W : Type 0) : Type 0 where
  pub copy : W → (src dst : FilePath) → W × Reply ℕ
  pub create_dir_all : W → FilePath → W × Reply (Unit {0})
  pub remove_file : W → FilePath → W × Reply (Unit {0})
  pub open_file : W → FilePath → Reply (Unit {0})
  pub read : W → FilePath → (position len : ℕ) → Reply (List ℕ)

-- Two files that read alike.
pub record Same (a b : Content) : Type 0 where
  pub size : a.size ≡ b.size
  pub byte : (k : ℕ) → k < b.size → a.byte k ≡ b.byte k

-- A copy changes its target only, and one that succeeds makes it read like the source. Directories and
-- the removal of a file leave the other files alone.
pub record IsStd {W : Type 0} (fs : Std W) (content : W → FilePath → Content) : Type 0 where
  pub copy_other :
      (w : W) (src dst q : FilePath) → q ≢ dst → content (fs.copy w src dst).0 q ≡ content w q
  pub copy_same :
      (w : W) (src dst : FilePath) (n : ℕ)
      → (fs.copy w src dst).1 ≡ Reply.done n
      → Same (content (fs.copy w src dst).0 dst) (content w src)
  pub create_keeps :
      (w : W) (path q : FilePath) → content (fs.create_dir_all w path).0 q ≡ content w q
  pub remove_other :
      (w : W) (path q : FilePath) → q ≢ path → content (fs.remove_file w path).0 q ≡ content w q
