-- ===== src/Engine/Read.antt =====
-- `try_read` of crates/b2c-engine/src/engine.rs once it has a buffer and a job.
use b2c_fast_copy.Base.{ℕ, ◌%◌, ◌^◌, List, ◌∷◌, ltb, if◌then◌else◌}
use b2c_fast_copy.Device.{round_up}
use b2c_fast_copy.Win.Defs.{Result, ok, err, Bytes, Os}
use b2c_fast_copy.Win.File
use b2c_fast_copy.Stats.{add_read}
use b2c_fast_copy.Engine.Defs.{Job, Shared, early, Pc, pushing, releasing, update, contains}
use b2c_fast_copy.Engine.Steps.{fail_entry, source_message, with_os}

-- The bytes of a buffer after a read of `padded` bytes: those read, zeros up to `padded`, and what was
-- there before.
abbrev pub zero_slack : (padded : ℕ) → Bytes → (ℕ → ℕ) → ℕ → ℕ
zero_slack padded bytes old k =
    if ltb k bytes.got then bytes.byte k else if ltb k padded then 0 else old k

module _ {W : Type 0} (sys : Os W) where
  -- `HashMap::entry` of the source handles: open the file unless it is open.
  unfoldable pub open_source : Shared W → List ℕ → ℕ → W × Result (Unit {0})
  open_source sh handles f =
      if contains handles f
      then (sh.os, ok tt)
      else if sh.unbuffered
      then File.open_read_unbuffered sys sh.os (sh.entries f).task.src
      else File.open_read_buffered sys sh.os (sh.entries f).task.src

  -- From `read_at` to the chunk that will be pushed.
  unfoldable pub load : Shared W → ℕ → Job → Shared W × Pc
  load sh buf job =
      let padded = round_up job.len sh.align % 2 ^ 32 in
      let (w, read) = File.read_at sys sh.os (sh.entries job.file).task.src padded job.offset in
      elim read [
        | ok bytes ↦ (
          record (with_os sh w) {
            memory = update sh.memory buf (zero_slack padded bytes (sh.memory buf));
            stats = add_read sh.stats job.len;
          },
          pushing (record {
            buf = buf;
            file = job.file;
            offset = job.offset;
            len = job.len;
            padded = padded;
          }),
        )
        | err e ↦
            (fail_entry (with_os sh w) job.file (source_message sh job.file e), releasing buf early)
      ]

  -- `try_read` once it has a buffer and a job; the files open for reading come along.
  unfoldable pub read : Shared W → List ℕ → ℕ → Job → Shared W × Pc × List ℕ
  read sh handles buf job =
      let (w, opened) = open_source sh handles job.file in
      elim opened [
        | ok _ ↦ let (sh', pc) = load (with_os sh w) buf job in (sh', pc, job.file ∷ handles)
        | err e ↦ (
          fail_entry (with_os sh w) job.file (source_message sh job.file e),
          releasing buf early,
          handles,
        )
      ]
