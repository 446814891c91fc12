-- ===== src/Engine/Content/Calls.antt =====
-- What the calls of `try_read`, `prepare_destination`, `try_write` and `finalize` do to the contents of
-- files.
use b2c_fast_copy.Base.{ℕ, ◌%◌, ◌^◌, ◌≡◌, ◌≢◌, inl, inr, true, List, arith, Option-cases}
use b2c_fast_copy.Device.{round_up}
use b2c_fast_copy.Win.Defs.{FilePath, Os}
use b2c_fast_copy.Win.File.{
  overlapped, open_read_unbuffered, open_read_buffered, create_write_unbuffered,
  create_write_buffered, open_write_unbuffered, open_existing_write, read_at, write_at, set_len,
  preallocate, set_valid_data, set_times,
}
use b2c_fast_copy.Win.FileSystem.{Content, IsFileSystem}
use b2c_fast_copy.Rings.{Chunk}
use b2c_fast_copy.Engine.Defs.{Shared, Job, writing}
use b2c_fast_copy.Engine.Steps.{fail_entry, with_os}
use b2c_fast_copy.Engine.Read.{open_source, load, read}
use b2c_fast_copy.Engine.Write.{
  create_dest, carry_times, create_and_size, prepare_destination, prepare, open_dest, reserve,
  store, write, trim, finalize,
}

module _ {W : Type 0} (sys : Os W) (content : W → FilePath → Content)
    (laws : IsFileSystem sys content) where
  pub open_source-keeps :
      (sh : Shared W) (hs : List ℕ) (f : ℕ) (q : FilePath)
      → content (open_source sys sh hs f).0 q ≡ content sh.os q
  unfolding open_source open_read_unbuffered open_read_buffered
  open_source-keeps sh hs f q = ground (
    arith,
    laws.open_keeps sh.os (sh.entries f).task.src q 0x8000_0000 0x2000_0000,
    laws.open_keeps sh.os (sh.entries f).task.src q 0x8000_0000 0x0800_0000,
  )

  pub open_dest-keeps :
      (sh : Shared W) (hs : List ℕ) (f : ℕ) (q : FilePath)
      → content (open_dest sys sh hs f).0 q ≡ content sh.os q
  unfolding open_dest open_write_unbuffered open_existing_write
  open_dest-keeps sh hs f q = ground (
    arith,
    laws.open_keeps sh.os (sh.entries f).task.dst q 0x4000_0000 0x2000_0000,
    laws.open_keeps sh.os (sh.entries f).task.dst q 0x4000_0000 0,
  )

  read_at-keeps :
      (w : W) (path q : FilePath) (len offset : ℕ)
      → content (read_at sys w path len offset).0 q ≡ content w q
  unfolding read_at
  read_at-keeps w path q len offset = laws.read_keeps w path q len (overlapped offset)

  load-keeps :
      (sh : Shared W) (buf : ℕ) (job : Job) (q : FilePath)
      → content (load sys sh buf job).0.os q ≡ content sh.os q
  unfolding load fail_entry
  load-keeps sh buf job q = ground (
    arith,
    read_at-keeps sh.os (sh.entries job.file).task.src q (round_up job.len sh.align % 2 ^ 32)
        job.offset,
  )

  -- `try_read` changes no file.
  pub read-keeps :
      (sh : Shared W) (hs : List ℕ) (buf : ℕ) (job : Job) (q : FilePath)
      → content (read sys sh hs buf job).0.os q ≡ content sh.os q
  unfolding read fail_entry
  read-keeps sh hs buf job q = ground (
    arith,
    open_source-keeps sh hs job.file q,
    load-keeps (with_os sh (open_source sys sh hs job.file).0) buf job q,
  )

  create_dest-other :
      (sh : Shared W) (path q : FilePath)
      → q ≢ path
      → content (create_dest sys sh path).0 q ≡ content sh.os q
  unfolding create_dest create_write_unbuffered create_write_buffered
  create_dest-other sh path q ne = ground (
    arith,
    laws.create_other sh.os path q 0xC000_0000 2 0x2000_0000 ne,
    laws.create_other sh.os path q 0x4000_0000 2 0x0800_0000 ne,
  )

  set_len-other :
      (w : W) (path q : FilePath) (n : ℕ)
      → q ≢ path
      → content (set_len sys w path n).0 q ≡ content w q
  unfolding set_len
  set_len-other w path q n ne = laws.end_other w path q n ne

  reserve-other :
      (sh : Shared W) (path q : FilePath) (n : ℕ) (w : W)
      → q ≢ path
      → content (reserve sys sh path n w) q ≡ content w q
  unfolding reserve preallocate set_valid_data
  reserve-other sh path q n w ne = ground (
    arith,
    laws.allocation_other w path q n ne,
    laws.valid_other (sys.set_allocation w path n).0 path q n ne,
  )

  create_and_size-other :
      (sh : Shared W) (f : ℕ) (q : FilePath)
      → q ≢ (sh.entries f).task.dst
      → content (create_and_size sys sh f).0.os q ≡ content sh.os q
  unfolding create_and_size
  create_and_size-other sh f q ne = ground (
    arith,
    create_dest-other sh path q ne,
    set_len-other created path q padded ne,
    reserve-other sh path q padded (set_len sys created path padded).0 ne,
  )
    where
      path : FilePath
      path = (sh.entries f).task.dst

      padded : ℕ
      padded = round_up (sh.entries f).task.size sh.align

      created : W
      created = (create_dest sys sh path).0

  -- The preparation of a file that is not prepared changes that file only.
  pub prepare-other :
      (sh : Shared W) (c : Chunk) (q : FilePath)
      → q ≢ (sh.entries c.file).task.dst
      → content (prepare sys sh c).0.os q ≡ content sh.os q
  unfolding prepare prepare_destination fail_entry
  prepare-other sh c q ne = ground (arith, create_and_size-other sh c.file q ne)

  -- That of a file that is prepared changes nothing.
  pub prepare-again :
      (sh : Shared W) (c : Chunk)
      → (sh.entries c.file).prepared ≡ true
      → prepare sys sh c ≡ (sh, writing c)
  unfolding prepare prepare_destination
  prepare-again sh c e = ground arith

  store-other :
      (sh : Shared W) (c : Chunk) (q : FilePath)
      → q ≢ (sh.entries c.file).task.dst
      → content (store sys sh c).os q ≡ content sh.os q
  unfolding store write_at fail_entry
  store-other sh c q ne = ground (
    arith,
    laws.write_other sh.os (sh.entries c.file).task.dst q (sh.memory c.buf) c.padded
        (overlapped c.offset) ne,
  )

  -- `try_write` changes its destination only.
  pub write-other :
      (sh : Shared W) (hs : List ℕ) (c : Chunk) (q : FilePath)
      → q ≢ (sh.entries c.file).task.dst
      → content (write sys sh hs c).0.os q ≡ content sh.os q
  unfolding write fail_entry
  write-other sh hs c q ne = ground (
    arith,
    open_dest-keeps sh hs c.file q,
    store-other (with_os sh (open_dest sys sh hs c.file).0) c q ne,
  )

  trim-other :
      (sh : Shared W) (f : ℕ) (q : FilePath)
      → q ≢ (sh.entries f).task.dst
      → content (trim sys sh f).os q ≡ content sh.os q
  unfolding trim
  trim-other sh f q ne =
      ground (arith, set_len-other sh.os (sh.entries f).task.dst q (sh.entries f).task.size ne)

  pub carry_times-keeps :
      (sh : Shared W) (f : ℕ) (w : W) (q : FilePath)
      → content (carry_times sys sh f w) q ≡ content w q
  unfolding carry_times set_times
  carry_times-keeps sh f w q = elim (Option-cases (sys.metadata w (sh.entries f).task.src)) [
    | inl e ↦ rw (e, carry_times)
    | inr (md, e) ↦ rw (e, carry_times) (laws.times_keep w (sh.entries f).task.dst q _ _ _)
  ]

  pub finalize-other :
      (sh : Shared W) (f : ℕ) (q : FilePath)
      → q ≢ (sh.entries f).task.dst
      → content (finalize sys sh f).os q ≡ content sh.os q
  unfolding finalize
  finalize-other sh f q ne =
      ground (arith, trim-other sh f q ne, carry_times-keeps (trim sys sh f) f (trim sys sh f).os q)
