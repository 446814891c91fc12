-- ===== src/Win/FileSystem.antt =====
-- What the copier relies on in the file system behind the Win32 calls: which bytes a call may change,
-- and what reads and writes mean. The laws hold of a disk that no one else writes to.
use b2c_fast_copy.Base.{ℕ, ◌+◌, ◌≤◌, ◌<◌, ◌≡◌, ◌≢◌, ◌⊎◌}
use b2c_fast_copy.Win.Defs.{FilePath, Overlapped, Reply, Bytes, Os}
use b2c_fast_copy.Win.File.{position, open_existing, error_handle_eof}

-- A file as it can be read: its length and its bytes by position.
pub record Content : Type 0 where
  pub size : ℕ
  pub byte : ℕ → ℕ

pub record IsFileSystem {W : Type 0} (sys : Os W) (content : W → FilePath → Content) : Type 0 where
  -- A call on one file leaves the others alone, whether it succeeds or not.
  pub create_other :
      (w : W) (path q : FilePath) (a d f : ℕ)
      → q ≢ path
      → content (sys.create_file w path a d f).0 q ≡ content w q
  pub write_other :
      (w : W) (path q : FilePath) (buf : ℕ → ℕ) (len : ℕ) (ov : Overlapped)
      → q ≢ path
      → content (sys.write_file w path buf len ov).0 q ≡ content w q
  pub end_other :
      (w : W) (path q : FilePath) (n : ℕ)
      → q ≢ path
      → content (sys.set_end_of_file w path n).0 q ≡ content w q
  pub allocation_other :
      (w : W) (path q : FilePath) (n : ℕ)
      → q ≢ path
      → content (sys.set_allocation w path n).0 q ≡ content w q
  pub valid_other :
      (w : W) (path q : FilePath) (n : ℕ)
      → q ≢ path
      → content (sys.set_valid_data w path n).0 q ≡ content w q
  -- Opening an existing file, reading and setting times change no content.
  pub open_keeps :
      (w : W) (path q : FilePath) (a f : ℕ)
      → content (sys.create_file w path a open_existing f).0 q ≡ content w q
  pub read_keeps :
      (w : W) (path q : FilePath) (len : ℕ) (ov : Overlapped)
      → content (sys.read_file w path len ov).0 q ≡ content w q
  pub times_keep :
      (w : W) (path q : FilePath) (c a m : ℕ)
      → content (sys.set_file_time w path c a m).0 q ≡ content w q
  -- A read delivers the bytes of the file, and stops short only at its end.
  pub read_bytes :
      (w : W) (path : FilePath) (len : ℕ) (ov : Overlapped) (bytes : Bytes) (k : ℕ)
      → (sys.read_file w path len ov).1 ≡ Reply.done bytes
      → k < len
      → position ov + k < (content w path).size
      → (k < bytes.got) × (bytes.byte k ≡ (content w path).byte (position ov + k))
  pub read_past_end :
      (w : W) (path : FilePath) (len : ℕ) (ov : Overlapped)
      → (sys.read_file w path len ov).1 ≡ Reply.failed error_handle_eof
      → (content w path).size ≤ position ov
  -- A write that succeeds puts the buffer at its position and changes no byte elsewhere.
  pub write_bytes :
      (w : W) (path : FilePath) (buf : ℕ → ℕ) (len : ℕ) (ov : Overlapped) (n k : ℕ)
      → (sys.write_file w path buf len ov).1 ≡ Reply.done n
      → k < len
      → (content (sys.write_file w path buf len ov).0 path).byte (position ov + k) ≡ buf k
  pub write_outside :
      (w : W) (path : FilePath) (buf : ℕ → ℕ) (len : ℕ) (ov : Overlapped) (n k : ℕ)
      → (sys.write_file w path buf len ov).1 ≡ Reply.done n
      → (k < position ov) ⊎ (position ov + len ≤ k)
      → (content (sys.write_file w path buf len ov).0 path).byte k ≡ (content w path).byte k
  -- A new end of file keeps the bytes before it.
  pub end_bytes :
      (w : W) (path : FilePath) (n k : ℕ)
      → (sys.set_end_of_file w path n).1 ≡ Reply.done tt
      → k < n
      → (content (sys.set_end_of_file w path n).0 path).byte k ≡ (content w path).byte k
  pub end_size :
      (w : W) (path : FilePath) (n : ℕ)
      → (sys.set_end_of_file w path n).1 ≡ Reply.done tt
      → (content (sys.set_end_of_file w path n).0 path).size ≡ n
