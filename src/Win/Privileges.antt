-- ===== src/Win/Privileges.antt =====
-- crates/b2c-engine/src/win/privileges.rs: what the process may do beyond copying.
use b2c_fast_copy.Base.{ℕ, Bool, false, ◌&&◌, not, Option, none, some, ◌==◌}

pub record Privileges : Type 0 where
  pub elevated : Bool
  pub manage_volume : Bool
  pub lock_memory : Bool

-- `Privileges::default`.
abbrev pub no_privileges : Privileges
no_privileges = record { elevated = false; manage_volume = false; lock_memory = false }

-- The names `SeManageVolumePrivilege` and `SeLockMemoryPrivilege`.
pub data Name : Type 0 where
  manage_volume lock_memory : Name

-- The calls on the process token: `OpenProcessToken`, the elevation that `GetTokenInformation` gives if it
-- succeeds, `LookupPrivilegeValueW`, and `AdjustTokenPrivileges` with the code of `GetLastError` after it.
-- The answers may depend on the calls before, which the order of the calls in `acquire` fixes.
pub record TokenCalls : Type 0 where
  pub open_process_token : Option ℕ
  pub elevation : ℕ → Option ℕ
  pub lookup : Name → Option ℕ
  pub adjust : (token luid : ℕ) → ℕ × ℕ

abbrev error_success : ℕ
error_success = 0

unfoldable pub is_elevated : TokenCalls → ℕ → Bool
is_elevated os token = elim (os.elevation token) [ none ↦ false | some n ↦ not (n == 0) ]

-- `AdjustTokenPrivileges` succeeds also where it changes nothing: the last error tells.
unfoldable pub enable : TokenCalls → ℕ → Name → Bool
enable os token name = elim (os.lookup name) [
  | none ↦ false
  | some luid ↦
      let (done, last_error) = os.adjust token luid in
      not (done == 0) && last_error == error_success
]

unfoldable pub acquire : TokenCalls → Privileges
acquire os = elim os.open_process_token [
  | none ↦ no_privileges
  | some token ↦ record {
    elevated = is_elevated os token;
    manage_volume = enable os token Name.manage_volume;
    lock_memory = enable os token Name.lock_memory;
  }
]
