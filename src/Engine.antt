-- ===== src/Engine.antt =====
-- crates/b2c-engine/src/engine.rs: the copy pipeline.
pub mod Defs
pub mod Jobs
pub mod Steps
pub mod Read
pub mod Write
pub mod Worker
pub mod Bulk
pub mod Claims
pub mod Small
pub mod Verify
pub mod Sound
pub mod Content
pub mod Closing
pub mod Copier
pub mod Session
pub mod Fair
