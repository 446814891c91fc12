-- ===== src/Engine/Worker/Frame.antt =====
-- What the steps that call the operating system leave alone, and where they send the worker.
use b2c_fast_copy.Base.{
  ℕ, ◌%◌, ◌^◌, ◌≡◌, ◌⊎◌, inl, inr, Bool, none, some, List, [], ◌∷◌, arith, Option-cases, get_elem?,
}
use b2c_fast_copy.Device.{round_up}
use b2c_fast_copy.Win.Defs.{Os}
use b2c_fast_copy.Rings.{Chunk, acquire_free_cases, pop_filled_cases}
use b2c_fast_copy.Stats.{count_up}
use b2c_fast_copy.Engine.Defs.{
  Job, Shared, early, counted, claiming, returning, reading, preparing, pushing, writing, releasing,
}
use b2c_fast_copy.Engine.Steps.{fail_entry, after_read, after_write, acquire, claim, pop}
use b2c_fast_copy.Engine.Read.{open_source, load, read}
use b2c_fast_copy.Engine.Write.{
  open_dest, carry_times, create_and_size, prepare_destination, prepare, store, write, trim,
  finalize,
}

-- The rings, the jobs and the two counters of the pipeline are as before.
pub record Keeps {W : Type 0} (s t : Shared W) : Type 0 where
  pub rings : t.rings ≡ s.rings
  pub jobs : t.jobs ≡ s.jobs
  pub cursor : t.cursor ≡ s.cursor
  pub remaining : t.remaining ≡ s.remaining

-- The chunk of a job in a buffer.
abbrev pub chunk_of : (align buf : ℕ) → Job → Chunk
chunk_of align buf job = record {
  buf = buf;
  file = job.file;
  offset = job.offset;
  len = job.len;
  padded = round_up job.len align % 2 ^ 32;
}

module _ {W : Type 0} (sys : Os W) where
  pub read-Keeps :
      (sh : Shared W) (hs : List ℕ) (buf : ℕ) (job : Job) → Keeps sh (read sys sh hs buf job).0
  unfolding read open_source load fail_entry
  read-Keeps sh hs buf job = ground arith

  -- A read hands its buffer on, with the job's chunk, or gives it back.
  pub read_pc :
      (sh : Shared W) (hs : List ℕ) (buf : ℕ) (job : Job)
      → ((read sys sh hs buf job).1 ≡ pushing (chunk_of sh.align buf job))
        ⊎ ((read sys sh hs buf job).1 ≡ releasing buf early)
  unfolding read open_source load fail_entry
  read_pc sh hs buf job = ground arith

  pub prepare-Keeps : (sh : Shared W) (c : Chunk) → Keeps sh (prepare sys sh c).0
  unfolding prepare prepare_destination create_and_size fail_entry
  prepare-Keeps sh c = ground arith

  pub prepare_pc :
      (sh : Shared W) (c : Chunk)
      → ((prepare sys sh c).1 ≡ writing c) ⊎ ((prepare sys sh c).1 ≡ releasing c.buf early)
  unfolding prepare prepare_destination create_and_size fail_entry
  prepare_pc sh c = ground arith

  pub write-Keeps : (sh : Shared W) (hs : List ℕ) (c : Chunk) → Keeps sh (write sys sh hs c).0
  unfolding write open_dest store fail_entry
  write-Keeps sh hs c = ground arith

  pub write_pc :
      (sh : Shared W) (hs : List ℕ) (c : Chunk)
      → ((write sys sh hs c).1 ≡ releasing c.buf (counted c.file))
        ⊎ ((write sys sh hs c).1 ≡ releasing c.buf early)
  unfolding write open_dest store fail_entry
  write_pc sh hs c = ground arith

  pub finalize-Keeps : (sh : Shared W) (f : ℕ) → Keeps sh (finalize sys sh f)
  unfolding finalize trim carry_times
  finalize-Keeps sh f = ground arith

module _ {W : Type 0} (sh : Shared W) (last : Bool) where
  -- A reader takes the top of the free ring, or counts a stall.
  pub acquire_cases :
      (acquire sh last ≡ (
        record sh { stats = record sh.stats { read_stalls = count_up sh.stats.read_stalls 1 } },
        after_read last,
      ))
      ⊎ ((buf : ℕ) × (rest : List ℕ) × (sh.rings.free ≡ buf ∷ rest)
          × (acquire sh last
              ≡ (record sh { rings = record sh.rings { free = rest } }, claiming last buf)))
  unfolding acquire
  acquire_cases = elim (acquire_free_cases sh.rings) [
    | inl e ↦ inl (ground arith)
    | inr (buf, rest, free, e) ↦ inr (buf, rest, free, ground arith)
  ]

  -- A writer takes the front of the filled ring, or counts a stall if it is empty.
  pub pop_cases :
      ((sh.rings.filled ≡ [])
        × (pop sh last ≡ (
          record sh { stats = record sh.stats { write_stalls = count_up sh.stats.write_stalls 1 } },
          after_write last,
        )))
      ⊎ ((c : Chunk) × (rest : List Chunk) × (sh.rings.filled ≡ c ∷ rest)
          × (pop sh last ≡ (record sh { rings = record sh.rings { filled = rest } }, preparing c)))
  unfolding pop
  pop_cases = elim (pop_filled_cases sh.rings) [
    | inl (empty, e) ↦ inl (empty, ground arith)
    | inr (c, rest, filled, e) ↦ inr (c, rest, filled, ground arith)
  ]

  -- With a buffer in hand, a reader takes the job under the cursor if there is one.
  pub claim_cases :
      (buf : ℕ)
      → ((get_elem? sh.jobs sh.cursor ≡ none)
          × (claim sh last buf ≡ (record sh { cursor = count_up sh.cursor 1 }, returning last buf)))
        ⊎ ((job : Job) × (get_elem? sh.jobs sh.cursor ≡ some job)
            × (claim sh last buf ≡ (record sh { cursor = count_up sh.cursor 1 }, reading buf job)))
  unfolding claim
  claim_cases buf = elim (Option-cases (get_elem? sh.jobs sh.cursor)) [
    | inl e ↦ inl (e, ground arith)
    | inr (job, e) ↦ inr (job, e, ground arith)
  ]
