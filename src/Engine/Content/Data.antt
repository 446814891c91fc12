-- ===== src/Engine/Content/Data.antt =====
-- The bytes that a read loads and a write stores.
use b2c_fast_copy.Base.{
  ℕ, ◌+◌, ◌%◌, ◌^◌, ◌≤◌, ◌<◌, ◌≡◌, ◌⊎◌, inl, inr, refl, ap, subst, ◌∙◌, List, [], ◌∷◌, length,
  length-append, arith, Bool-cases, ◌==◌,
}
use b2c_fast_copy.Device.{round_up}
use b2c_fast_copy.Win.Defs.{FilePath, Os, ok, Reply, Bytes, Result-cases}
use b2c_fast_copy.Win.File.{
  overlapped, position, position-overlapped, read_at, write_at, read_result, error_handle_eof,
}
use b2c_fast_copy.Win.FileSystem.{Content, IsFileSystem}
use b2c_fast_copy.Rings.{Chunk}
use b2c_fast_copy.Engine.Defs.{Shared, Job, Message, pushing, fail}
use b2c_fast_copy.Engine.Steps.{fail_entry, with_os}
use b2c_fast_copy.Engine.Read.{open_source, load, read}
use b2c_fast_copy.Engine.Write.{open_dest, store, write}
use b2c_fast_copy.Engine.Content.Calls.{open_source-keeps, open_dest-keeps}

-- A failure is recorded, and no record is lost.
pub fail-errors :
    {W : Type 0} (sh : Shared W) (m : Message)
    → (0 < length (fail sh m).errors) × (length sh.errors ≤ length (fail sh m).errors)
unfolding fail
fail-errors sh m = ground (arith, length-append sh.errors (m ∷ []))

pub fail_entry-errors :
    {W : Type 0} (sh : Shared W) (f : ℕ) (m : Message)
    → (0 < length (fail_entry sh f m).errors)
      × (length sh.errors ≤ length (fail_entry sh f m).errors)
unfolding fail_entry
fail_entry-errors sh f m = fail-errors sh m

module _ {W : Type 0} (sys : Os W) (content : W → FilePath → Content)
    (laws : IsFileSystem sys content) where
  read_at-bytes :
      (w : W) (path : FilePath) (len offset : ℕ) (bytes : Bytes) (k : ℕ)
      → (read_at sys w path len offset).1 ≡ ok bytes
      → k < len
      → offset + k < (content w path).size
      → (content w path).size < 2 ^ 64
      → (k < bytes.got) × (bytes.byte k ≡ (content w path).byte (offset + k))
  unfolding read_at overlapped
  read_at-bytes w path len offset bytes k e short inside fits =
      go (sys.read_file w path len (overlapped offset)).1 refl e
    where
      at : position (overlapped offset) ≡ offset
      at = position-overlapped offset (omega arith)

      go :
          (r : Reply Bytes)
          → (sys.read_file w path len (overlapped offset)).1 ≡ r
          → read_result offset r ≡ ok bytes
          → (k < bytes.got) × (bytes.byte k ≡ (content w path).byte (offset + k))
      go (Reply.done b) is h =
          rw (← at)
            (laws.read_bytes w path len (overlapped offset) bytes k (cc) short (omega arith))
      go (Reply.failed code) is h = elim (Bool-cases (code == error_handle_eof)) [
        | inl end ↦
            absurd
              (omega (arith, at, laws.read_past_end w path len (overlapped offset) (ground arith)))
        | inr other ↦ absurd (ground arith)
      ]

  load-bytes :
      (sh : Shared W) (buf : ℕ) (job : Job) (chunk : Chunk) (k : ℕ)
      → (load sys sh buf job).1 ≡ pushing chunk
      → k < round_up job.len sh.align % 2 ^ 32
      → job.offset + k < (content sh.os (sh.entries job.file).task.src).size
      → (content sh.os (sh.entries job.file).task.src).size < 2 ^ 64
      → (load sys sh buf job).0.memory buf k
        ≡ (content sh.os (sh.entries job.file).task.src).byte (job.offset + k)
  unfolding load fail_entry
  load-bytes sh buf job chunk k e short inside fits =
      elim (Result-cases (read_at sys sh.os src padded job.offset).1) [
        | inl (bytes, r) ↦
            ground (arith, read_at-bytes sh.os src padded job.offset bytes k r short inside fits)
        | inr (x, r) ↦ absurd (ground arith)
      ]
    where
      src : FilePath
      src = (sh.entries job.file).task.src

      padded : ℕ
      padded = round_up job.len sh.align % 2 ^ 32

  -- After a read that hands its buffer on, the buffer holds the bytes of the job's piece.
  pub read-bytes :
      (sh : Shared W) (hs : List ℕ) (buf : ℕ) (job : Job) (chunk : Chunk) (k : ℕ)
      → (read sys sh hs buf job).1 ≡ pushing chunk
      → k < round_up job.len sh.align % 2 ^ 32
      → job.offset + k < (content sh.os (sh.entries job.file).task.src).size
      → (content sh.os (sh.entries job.file).task.src).size < 2 ^ 64
      → (read sys sh hs buf job).0.memory buf k
        ≡ (content sh.os (sh.entries job.file).task.src).byte (job.offset + k)
  unfolding read fail_entry
  read-bytes sh hs buf job chunk k e short inside fits =
      elim (Result-cases (open_source sys sh hs job.file).1) [
        | inl (x, r) ↦ ground (
          arith,
          same,
          load-bytes opened buf job chunk k (ground arith) short (rw same inside) (rw same fits),
        )
        | inr (x, r) ↦ absurd (ground arith)
      ]
    where
      opened : Shared W
      opened = with_os sh (open_source sys sh hs job.file).0

      same :
          content opened.os (sh.entries job.file).task.src
          ≡ content sh.os (sh.entries job.file).task.src
      same = open_source-keeps sys content laws sh hs job.file (sh.entries job.file).task.src

  -- A write with no error recorded has succeeded.
  store-done :
      (sh : Shared W) (c : Chunk)
      → length (store sys sh c).errors ≡ 0
      → (n : ℕ) × ((sys.write_file sh.os
            (sh.entries c.file).task.dst
            (sh.memory c.buf)
            c.padded
            (overlapped c.offset)).1
          ≡ Reply.done n)
  unfolding store write_at
  store-done sh c clean = go _ refl
    where
      go :
          (r : Reply ℕ)
          → (sys.write_file sh.os
              (sh.entries c.file).task.dst
              (sh.memory c.buf)
              c.padded
              (overlapped c.offset)).1
            ≡ r
          → (n : ℕ) × ((sys.write_file sh.os
                (sh.entries c.file).task.dst
                (sh.memory c.buf)
                c.padded
                (overlapped c.offset)).1
              ≡ Reply.done n)
      go (Reply.done n) is = (n, is)
      go (Reply.failed code) is = absurd (grind (arith, fail_entry-errors))

  -- `store` changes the content of its destination as `WriteFile` does.
  store-content :
      (sh : Shared W) (c : Chunk) (q : FilePath)
      → content (store sys sh c).os q
        ≡ content
            (sys.write_file sh.os
              (sh.entries c.file).task.dst
              (sh.memory c.buf)
              c.padded
              (overlapped c.offset)).0
            q
  unfolding store write_at fail_entry
  store-content sh c q = ground arith

  store-inside :
      (sh : Shared W) (c : Chunk) (k : ℕ)
      → length (store sys sh c).errors ≡ 0
      → c.offset < 2 ^ 64
      → k < c.padded
      → (content (store sys sh c).os (sh.entries c.file).task.dst).byte (c.offset + k)
        ≡ sh.memory c.buf k
  store-inside sh c k clean fits short =
      let (n, is) = store-done sh c clean in
      rw (store-content sh c (sh.entries c.file).task.dst) (
        subst
          (λ t.
            (content
                (sys.write_file sh.os (sh.entries c.file).task.dst (sh.memory c.buf) c.padded
                  (overlapped c.offset)).0
                (sh.entries c.file).task.dst).byte
              (t + k)
            ≡ sh.memory c.buf k)
          (position-overlapped c.offset fits)
          (laws.write_bytes sh.os (sh.entries c.file).task.dst (sh.memory c.buf) c.padded
            (overlapped c.offset) n k is short))

  store-outside :
      (sh : Shared W) (c : Chunk) (k : ℕ)
      → length (store sys sh c).errors ≡ 0
      → c.offset < 2 ^ 64
      → (k < c.offset) ⊎ (c.offset + c.padded ≤ k)
      → (content (store sys sh c).os (sh.entries c.file).task.dst).byte k
        ≡ (content sh.os (sh.entries c.file).task.dst).byte k
  store-outside sh c k clean fits out =
      let (n, is) = store-done sh c clean in
      rw (store-content sh c (sh.entries c.file).task.dst) (
        laws.write_outside sh.os (sh.entries c.file).task.dst (sh.memory c.buf) c.padded
          (overlapped c.offset) n k is (rw (position-overlapped c.offset fits) out))

  -- The same of `write`, which opens the destination first.
  write-opened :
      (sh : Shared W) (hs : List ℕ) (c : Chunk)
      → length (write sys sh hs c).0.errors ≡ 0
      → (write sys sh hs c).0 ≡ store sys (with_os sh (open_dest sys sh hs c.file).0) c
  unfolding write
  write-opened sh hs c clean = elim (Result-cases (open_dest sys sh hs c.file).1) [
    | inl (x, r) ↦ ground arith
    | inr (x, r) ↦ absurd (grind (arith, fail_entry-errors))
  ]

  pub write-inside :
      (sh : Shared W) (hs : List ℕ) (c : Chunk) (k : ℕ)
      → length (write sys sh hs c).0.errors ≡ 0
      → c.offset < 2 ^ 64
      → k < c.padded
      → (content (write sys sh hs c).0.os (sh.entries c.file).task.dst).byte (c.offset + k)
        ≡ sh.memory c.buf k
  write-inside sh hs c k clean fits short =
      let e = write-opened sh hs c clean in
      rw e (store-inside (with_os sh (open_dest sys sh hs c.file).0) c k (rw e at clean) fits short)

  pub write-outside :
      (sh : Shared W) (hs : List ℕ) (c : Chunk) (k : ℕ)
      → length (write sys sh hs c).0.errors ≡ 0
      → c.offset < 2 ^ 64
      → (k < c.offset) ⊎ (c.offset + c.padded ≤ k)
      → (content (write sys sh hs c).0.os (sh.entries c.file).task.dst).byte k
        ≡ (content sh.os (sh.entries c.file).task.dst).byte k
  write-outside sh hs c k clean fits out =
      let e = write-opened sh hs c clean in
      rw e (
        store-outside (with_os sh (open_dest sys sh hs c.file).0) c k (rw e at clean) fits out
        ∙ ap (λ (d : Content). d.byte k)
            (open_dest-keeps sys content laws sh hs c.file (sh.entries c.file).task.dst))
