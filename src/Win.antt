-- ===== src/Win.antt =====
-- crates/b2c-engine/src/win: the wrappers over the Win32 calls.
pub mod Defs
pub mod File
pub mod Paths
pub mod FileSystem
pub mod Std
pub mod Privileges
pub mod Volume
