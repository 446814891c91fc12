-- ===== src/Engine/Write.antt =====
-- `try_write` of crates/b2c-engine/src/engine.rs once it has a chunk, with `prepare_destination` and
-- `finalize`.
use b2c_fast_copy.Base.{ℕ, ◌+◌, ◌*◌, ◌/◌, true, Option, none, some, List, ◌∷◌, if◌then◌else◌}
use b2c_fast_copy.Device.{round_up}
use b2c_fast_copy.Win.Defs.{FilePath, Result, ok, err, Duration, Os}
use b2c_fast_copy.Win.File
use b2c_fast_copy.Rings.{Chunk}
use b2c_fast_copy.Stats.{add_written, count_up}
use b2c_fast_copy.Engine.Defs.{Shared, early, counted, Pc, writing, releasing, contains, fail}
use b2c_fast_copy.Engine.Steps.{set_entry, fail_entry, dest_message, with_os}

-- `to_filetime`: 100 ns ticks since 1601.
unfoldable pub to_filetime : Option Duration → ℕ
to_filetime none = 0
to_filetime (some d) = (d.secs + 11_644_473_600) * 10_000_000 + d.nanos / 100

-- `md.created().map(to_filetime).unwrap_or(0)`
abbrev filetime_or_zero : Option (Option Duration) → ℕ
filetime_or_zero none = 0
filetime_or_zero (some t) = to_filetime t

module _ {W : Type 0} (sys : Os W) where
  unfoldable pub open_dest : Shared W → List ℕ → ℕ → W × Result (Unit {0})
  open_dest sh handles f =
      if contains handles f
      then (sh.os, ok tt)
      else if sh.unbuffered
      then File.open_write_unbuffered sys sh.os (sh.entries f).task.dst
      else File.open_existing_write sys sh.os (sh.entries f).task.dst

  unfoldable pub create_dest : Shared W → FilePath → W × Result (Unit {0})
  create_dest sh path =
      if sh.unbuffered
      then File.create_write_unbuffered sys sh.os path
      else File.create_write_buffered sys sh.os path

  -- The best-effort part of `prepare_destination`: `preallocate`, and `set_valid_data` if it is in use.
  unfoldable pub reserve : Shared W → FilePath → ℕ → W → W
  reserve sh path padded w =
      let w' = (File.preallocate sys w path padded).0 in
      if sh.use_valid_data then (File.set_valid_data sys w' path padded).0 else w'

  -- The part of `prepare_destination` after the second look at `prepared`.
  unfoldable pub create_and_size : Shared W → ℕ → Shared W × Result (Unit {0})
  create_and_size sh f =
      let e = sh.entries f in
      let padded = round_up e.task.size sh.align in
      let (w, created) = create_dest sh e.task.dst in
      elim created [
        | err x ↦ (with_os sh w, err x)
        | ok _ ↦
            let (w', sized) = File.set_len sys w e.task.dst padded in
            elim sized [
              | err x ↦ (with_os sh w', err x)
              | ok _ ↦ (
                set_entry (with_os sh (reserve sh e.task.dst padded w')) f
                    (record e { master = true; prepared = true }),
                ok tt,
              )
            ]
      ]

  -- The lock on `master` makes this one step for the workers of one file.
  unfoldable pub prepare_destination : Shared W → ℕ → Shared W × Result (Unit {0})
  prepare_destination sh f = if (sh.entries f).prepared then (sh, ok tt) else create_and_size sh f

  unfoldable pub prepare : Shared W → Chunk → Shared W × Pc
  prepare sh c =
      let (sh', prepared) = prepare_destination sh c.file in
      elim prepared [
        | ok _ ↦ (sh', writing c)
        | err e ↦ (fail_entry sh' c.file (dest_message sh c.file e), releasing c.buf early)
      ]

  -- From `write_at` on; the number of bytes that it returns is not looked at.
  unfoldable pub store : Shared W → Chunk → Shared W
  store sh c =
      let (w, written) =
        File.write_at sys sh.os (sh.entries c.file).task.dst (sh.memory c.buf) c.padded c.offset in
      elim written [
        | ok _ ↦ record (with_os sh w) { stats = add_written sh.stats c.len }
        | err e ↦ fail_entry (with_os sh w) c.file (dest_message sh c.file e)
      ]

  unfoldable pub write : Shared W → List ℕ → Chunk → Shared W × Pc × List ℕ
  write sh handles c =
      let (w, opened) = open_dest sh handles c.file in
      elim opened [
        | ok _ ↦ (store (with_os sh w) c, releasing c.buf (counted c.file), c.file ∷ handles)
        | err e ↦ (
          fail_entry (with_os sh w) c.file (dest_message sh c.file e),
          releasing c.buf early,
          handles,
        )
      ]

  -- The times of the source, if they can be had; a failure to set them is ignored.
  unfoldable pub carry_times : Shared W → ℕ → W → W
  carry_times sh f w = elim (sys.metadata w (sh.entries f).task.src) [
    | none ↦ w
    | some md ↦
        (File.set_times sys w (sh.entries f).task.dst (filetime_or_zero md.created)
          (filetime_or_zero md.accessed) (filetime_or_zero md.modified)).0
  ]

  -- `set_len` to the true size; its failure is recorded, but does not mark the file.
  unfoldable pub trim : Shared W → ℕ → Shared W
  unfolding fail
  trim sh f =
      let (w, sized) = File.set_len sys sh.os (sh.entries f).task.dst (sh.entries f).task.size in
      elim sized [ ok _ ↦ with_os sh w | err e ↦ fail (with_os sh w) (dest_message sh f e) ]

  abbrev pub count_file : Shared W → ℕ → Shared W
  count_file sh f =
      if (sh.entries f).failed
      then sh
      else record sh { stats = record sh.stats { files_done = count_up sh.stats.files_done 1 } }

  unfoldable pub finalize : Shared W → ℕ → Shared W
  finalize sh f =
      if (sh.entries f).master
      then (let sh' = trim sh f in count_file (with_os sh' (carry_times sh' f sh'.os)) f)
      else sh
