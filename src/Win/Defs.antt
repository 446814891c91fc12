-- ===== src/Win/Defs.antt =====
-- crates/b2c-engine/src/error.rs, and what the Win32 calls of crates/b2c-engine/src/win take and
-- return. The operating system is a parameter: its state, and one function for each call.
use b2c_fast_copy.Base.{ℕ, Option, List, ◌≡◌, refl, ◌⊎◌, inl, inr}

-- A path, by its code units. Equal paths name the same file.
abbrev pub FilePath : Type 0
FilePath = List ℕ

-- The call sites that an `Error::Win32` names.
pub data Context : Type 0 where
  open_read create_new open_for_write open_for_update : Context
  read_at_offset write_at_offset : ℕ → Context
  preallocation end_of_file valid_data file_times : Context
  resolve_volume query_geometry : Context

-- `Error::Win32`: the call site and the code of `GetLastError`. The message is a function of the code.
pub record Error : Type 0 where
  pub ctx : Context
  pub code : ℕ

pub data Result {ℓ} (A : Type ℓ) : Type ℓ where
  ok : A → Result A
  err : Error → Result A

-- `OVERLAPPED`: the two halves of a file offset.
pub record Overlapped : Type 0 where
  pub offset : ℕ
  pub offset_high : ℕ

-- What a Win32 call answers: success with its output, or the code of `GetLastError`.
pub data Reply {ℓ} (A : Type ℓ) : Type ℓ where
  done : A → Reply A
  failed : ℕ → Reply A

-- The bytes that `ReadFile` put into the buffer, by index, and their number.
pub record Bytes : Type 0 where
  pub got : ℕ
  pub byte : ℕ → ℕ

-- A `SystemTime` not before 1970, as a duration since then.
pub record Duration : Type 0 where
  pub secs : ℕ
  pub nanos : ℕ

-- The times of a source file: of each whether it could be had, and if it is not before 1970.
pub record Times : Type 0 where
  pub created : Option (Option Duration)
  pub accessed : Option (Option Duration)
  pub modified : Option (Option Duration)

-- The calls that the copier makes on files. A handle is named by the path that it was opened with.
-- `W` is the state of the operating system and its disks, which decides every answer.
pub record Os (W : Type 0) : Type 0 where
  pub create_file : W → FilePath → (access disposition flags : ℕ) → W × Reply (Unit {0})
  pub read_file : W → FilePath → (len : ℕ) → Overlapped → W × Reply Bytes
  pub write_file : W → FilePath → (ℕ → ℕ) → (len : ℕ) → Overlapped → W × Reply ℕ
  pub set_end_of_file : W → FilePath → ℕ → W × Reply (Unit {0})
  pub set_allocation : W → FilePath → ℕ → W × Reply (Unit {0})
  pub set_valid_data : W → FilePath → ℕ → W × Reply (Unit {0})
  pub set_file_time : W → FilePath → (created accessed written : ℕ) → W × Reply (Unit {0})
  pub metadata : W → FilePath → Option Times

pub Result-cases {ℓ} :
    {A : Type ℓ} (r : Result A) → ((a : A) × (r ≡ ok a)) ⊎ ((e : Error) × (r ≡ err e))
Result-cases (ok a) = inl (a, refl)
Result-cases (err e) = inr (e, refl)
