-- ===== src/Tests.antt =====
-- A disk to test with, a bulk copy on it, and the theorems at concrete inputs.
mod Disk
mod Copies
mod Runs
mod Devices
mod Steering
mod Scans
mod Globs
mod Paths
mod Copiers
mod Pools
mod Plans
mod Sessions
mod Volumes
mod Commands
