-- ===== src/Engine/Content.antt =====
-- What a bulk copy leaves at the destination.
pub mod Defs
pub mod Calls
pub mod Data
pub mod Trim
pub mod Effect
pub mod Steps
pub mod Turn
pub mod Others
pub mod Run
pub mod Start
pub mod Outside
