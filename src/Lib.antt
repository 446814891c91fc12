-- ===== src/Lib.antt =====
-- b2fc is a bulk copier for Windows: it reads large files in blocks into an arena of buffers and
-- writes them out, with as many workers as two devices can use. This library models its engine, the
-- crate crates/b2c-engine, and the program around it, and shows that a copy is correct in whatever
-- order the workers move.
--
-- How the parts work together. `scan` (crates/b2c-engine/src/scanner.rs) walks the source and splits
-- the files into bulk and small ones. `profile` (crates/b2c-engine/src/device.rs) gives each device
-- a class, a block size and an alignment. `Arena` (crates/b2c-engine/src/arena.rs) holds the
-- buffers, and `Rings` (crates/b2c-engine/src/rings.rs) says which are free and which are filled.
-- `run_bulk` (crates/b2c-engine/src/engine.rs) cuts the bulk files into jobs and starts the workers;
-- each takes a free buffer, reads a job into it and pushes a chunk, or pops a chunk, writes it and
-- gives the buffer back, as `Scheduler` (crates/b2c-engine/src/scheduler.rs) tells it to. Files are
-- reached through `File` (crates/b2c-engine/src/win/file.rs). `Copier::run`
-- (crates/b2c-engine/src/engine.rs) puts these together: it checks the free space, makes the
-- directories, probes the destination, runs `run_bulk`, hands the small files to the copy of the
-- standard library in `run_small`, and reads both sides again in `run_verify`.
--
-- Which file models what:
--   Base.antt and its children: lists, sums and tests that the other files share.
--   Win.antt: error.rs and win/file.rs. The calls of the operating system are a parameter, `Os`, over a
--     state of the system; Win/FileSystem.antt states what is relied on in them. Win/Paths.antt: the
--     paths of win/mod.rs. Win/Privileges.antt: win/privileges.rs. Win/Std.antt: the calls of std::fs, as a
--     parameter, and what is relied on in them.
--   Device.antt: device.rs, and `VolumeInfo` of win/volume.rs. What `classify` asks is a parameter, which
--     Win/Volume.antt fills: the queries of win/volume.rs, over the calls of the system.
--   Arena.antt: arena.rs. `VirtualAlloc` is a parameter.
--   Rings.antt: rings.rs. Stats.antt: the counters of stats.rs.
--   Scanner.antt: scanner.rs. Scanner/Glob.antt has `glob_match`, Scanner/Walk.antt has `scan`, with the
--     directory tree as data. Names, joins of paths and the order of paths are parameters.
--   Scheduler.antt: scheduler.rs, and `Ewma` of stats.rs. The operations on f64 are a parameter.
--   Engine.antt: engine.rs. Engine/Defs.antt has the shared data; Engine/Jobs.antt the planning loop of
--     `run_bulk`; Engine/Bulk.antt its set-up; Engine/Steps.antt, Engine/Read.antt and Engine/Write.antt
--     the steps of `try_read` and `try_write`; Engine/Worker.antt `worker`, as a machine.
--   Engine/Copier.antt: `Copier::new`, the parameters of a copy.
--   Engine/Claims.antt: the loop in which threads take the items of a list by an atomic counter, which
--     `run_small` and `run_verify` share. Engine/Small.antt: `run_small`. Engine/Verify.antt: `run_verify`
--     and `hash_file`, with the hasher of blake3 as a parameter.
--   Engine/Session.antt: `Copier::run`, with `preflight_destination` and the parts of `run_bulk` around the
--     threads. Its children state what a whole run does.
--   Engine/Sound.antt and its children: what holds in every state that the workers reach.
--   Engine/Content.antt and its children: what becomes of the bytes.
--   Engine/Closing.antt and its children: what becomes of the lengths of the files.
--   Format.antt: `parse_size` of fmt.rs; what it uses of f64 is a parameter.
--   Cli.antt: crates/b2c-cli/src/main.rs, from the arguments to the exit code. Cli/Report.antt has the lines
--     of `report`, Cli/Json.antt the errors in `json_summary`, with a reader of JSON to compare.
--   Engine/Fair.antt and its children: schedules in rounds, in each of which every worker has a turn.
--     Engine/Session/Fair.antt has the same for a whole run.
--   Tests.antt: a disk to test with, and the theorems at concrete inputs.
--
-- How threads are modelled. A worker is a program counter, `Pc`, with its live local variables and
-- its open handles. A step is one access of the shared data: a ring operation under its lock, an
-- atomic counter, or a call of the operating system with the error handling after it. A schedule is
-- a list of turns; each names a worker and the scheduler's target at that moment. The theorems hold
-- for every schedule. `prepare_destination` is one step, since its lock is held throughout, and
-- `finalize` is one step for the same reason. A wait on a condition variable is a step that finds
-- the ring empty, or that comes later. Weak memory orders are not modelled: the counters are read in
-- the order of the schedule.
--
-- Bounds. Counters of 64 bits and casts to 32 bits wrap as in a release build. The job cursor moves
-- on also when no job is left, so schedules of fewer than 2 ^ 64 turns are considered; the last
-- theorem of Engine/Fair/Ends.antt tells how many turns are enough. A run of the scheduler is a
-- list of samples. The products of usize in `Arena::new`, `Arena::ptr`, `total_bytes` and
-- `round_up` wrap as in a release build, and the theorems that need them exact say for which sizes
-- they are. Products of worker counts are not wrapped: they are bounded by the square of the number
-- of workers. `scan` and `glob_match` take fuel: the number of directories, and the lengths of
-- pattern and text. `hash_file` takes more fuel than the file has bytes.
--
-- Not modelled: the dashboard (crates/b2c-cli/src/dashboard.rs), the parsing of arguments, which is
-- that of the package clap, the formatting of numbers (crates/b2c-engine/src/fmt.rs), progress notes
-- (crates/b2c-engine/src/progress.rs), and memory status (crates/b2c-engine/src/win/mem.rs), which
-- are input and output; the text of errors, and the time that a run takes.
pub mod Base
pub mod Win
pub mod Device
pub mod Arena
pub mod Rings
pub mod Stats
pub mod Scheduler
pub mod Scanner
pub mod Engine
pub mod Format
pub mod Cli
mod Tests
