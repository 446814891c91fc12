-- ===== src/Engine/Defs.antt =====
-- The data of crates/b2c-engine/src/engine.rs that the workers share, and where a worker stands.
use b2c_fast_copy.Base.{ℕ, Bool, true, false, List, [], ◌∷◌, ◌++◌, length, ltb, ◌==◌, if◌then◌else◌}
use b2c_fast_copy.Win.Defs.{FilePath, Error}
use b2c_fast_copy.Rings.{Chunk, Rings}
use b2c_fast_copy.Stats.{Stats, count_up}
use b2c_fast_copy.Scanner.{FileTask}

pub record Entry : Type 0 where
  pub task : FileTask
  pub chunks : ℕ
  pub done : ℕ
  pub prepared : Bool
  -- whether the master handle is held
  pub master : Bool
  pub failed : Bool

pub record Job : Type 0 where
  pub file : ℕ
  pub offset : ℕ
  pub len : ℕ

-- A line of the error list: the path and the error behind it.
pub record Message : Type 0 where
  pub path : FilePath
  pub error : Error

-- `entries` is the vector by index. `memory` is the arena: the bytes of each buffer. `os` is the state
-- of the operating system.
pub record Shared (W : Type 0) : Type 0 where
  pub entries : ℕ → Entry
  pub jobs : List Job
  pub cursor : ℕ
  pub remaining : ℕ
  pub memory : ℕ → ℕ → ℕ
  pub rings : Rings
  pub stats : Stats
  pub align : ℕ
  pub unbuffered : Bool
  pub use_valid_data : Bool
  pub errors : List Message
  pub os : W

-- What a worker does after it has given a buffer back: the chunk is settled, and counts towards its
-- file unless the worker returned early.
pub data After : Type 0 where
  early : After
  counted : (file : ℕ) → After

-- Where a worker stands in `worker`, `try_read` and `try_write`, with the local variables that are
-- live. The flag of the first state of a try says that the other side has been tried before.
pub data Pc : Type 0 where
  looping : Pc
  acquiring : (last : Bool) → Pc
  claiming : (last : Bool) (buf : ℕ) → Pc
  returning : (last : Bool) (buf : ℕ) → Pc
  reading : (buf : ℕ) (job : Job) → Pc
  pushing : (chunk : Chunk) → Pc
  popping : (last : Bool) → Pc
  preparing : (chunk : Chunk) → Pc
  writing : (chunk : Chunk) → Pc
  releasing : (buf : ℕ) (after : After) → Pc
  settling : (after : After) → Pc
  counting : (file : ℕ) → Pc
  finalizing : (file : ℕ) → Pc
  exited : Pc

-- A worker: its place, and the files that its handles are open on (`Handles`).
pub record Worker : Type 0 where
  pub pc : Pc
  pub src : List ℕ
  pub dst : List ℕ

abbrev pub update {ℓ} : {A : Type ℓ} → (ℕ → A) → ℕ → A → ℕ → A
update f i a j = if i == j then a else f j

-- `HashMap::entry`: whether a handle is open.
abbrev pub contains : List ℕ → ℕ → Bool
contains [] f = false
contains (g ∷ gs) f = if g == f then true else contains gs f

-- `Shared::fail`: at most 64 messages are kept; every failure is counted.
unfoldable pub fail : {W : Type 0} → Shared W → Message → Shared W
fail sh msg = record sh {
  stats = record sh.stats { errors = count_up sh.stats.errors 1 };
  errors = if ltb (length sh.errors) 64 then sh.errors ++ msg ∷ [] else sh.errors;
}
