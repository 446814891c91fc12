-- ===== src/Engine/Content/Effect.antt =====
-- What every step of a worker keeps of the copy: the tasks, the alignment, what is prepared, and the
-- errors recorded.
use b2c_fast_copy.Base.{ℕ, ◌≤◌, ◌<◌, ◌≡◌, ◌≢◌, refl, true, List, length, arith}
use b2c_fast_copy.Win.Defs.{Os}
use b2c_fast_copy.Rings.{Chunk}
use b2c_fast_copy.Engine.Defs.{Shared, Job, Message, early, writing, releasing}
use b2c_fast_copy.Engine.Steps.{fail_entry}
use b2c_fast_copy.Engine.Read.{open_source, load, read}
use b2c_fast_copy.Engine.Write.{
  create_and_size, prepare_destination, prepare, open_dest, store, write, trim, finalize,
  carry_times,
}
use b2c_fast_copy.Engine.Content.Data.{fail-errors, fail_entry-errors}

pub record Effect {W : Type 0} (s t : Shared W) : Type 0 where
  pub tasks : (g : ℕ) → (t.entries g).task ≡ (s.entries g).task
  pub align : t.align ≡ s.align
  pub prepared : (g : ℕ) → (s.entries g).prepared ≡ true → (t.entries g).prepared ≡ true
  pub errors : length s.errors ≤ length t.errors
  pub done : (g : ℕ) → (t.entries g).done ≡ (s.entries g).done
  pub chunks : (g : ℕ) → (t.entries g).chunks ≡ (s.entries g).chunks
  pub mastered :
      (g : ℕ)
      → ((s.entries g).prepared ≡ true → (s.entries g).master ≡ true)
      → (t.entries g).prepared ≡ true
      → (t.entries g).master ≡ true

module _ {W : Type 0} where
  pub fail_entry-Effect : (sh : Shared W) (f : ℕ) (m : Message) → Effect sh (fail_entry sh f m)
  unfolding fail_entry
  fail_entry-Effect sh f m = record {
    tasks = λ g. ground arith;
    align = refl;
    prepared = λ g e. ground arith;
    errors = (fail-errors sh m).1;
    done = λ g. ground arith;
    chunks = λ g. ground arith;
    mastered = λ g h e. ground arith;
  }

module _ {W : Type 0} (sys : Os W) where
  pub read-Effect :
      (sh : Shared W) (hs : List ℕ) (buf : ℕ) (job : Job) → Effect sh (read sys sh hs buf job).0
  unfolding read open_source load fail_entry
  read-Effect sh hs buf job = record {
    tasks = λ g. ground arith;
    align = ground arith;
    prepared = λ g e. ground arith;
    errors = grind (arith, fail-errors);
    done = λ g. ground arith;
    chunks = λ g. ground arith;
    mastered = λ g h e. ground arith;
  }

  pub prepare-Effect : (sh : Shared W) (c : Chunk) → Effect sh (prepare sys sh c).0
  unfolding prepare prepare_destination create_and_size fail_entry
  prepare-Effect sh c = record {
    tasks = λ g. ground arith;
    align = ground arith;
    prepared = λ g e. ground arith;
    errors = grind (arith, fail-errors);
    done = λ g. ground arith;
    chunks = λ g. ground arith;
    mastered = λ g h e. ground arith;
  }

  pub write-Effect : (sh : Shared W) (hs : List ℕ) (c : Chunk) → Effect sh (write sys sh hs c).0
  unfolding write open_dest store fail_entry
  write-Effect sh hs c = record {
    tasks = λ g. ground arith;
    align = ground arith;
    prepared = λ g e. ground arith;
    errors = grind (arith, fail-errors);
    done = λ g. ground arith;
    chunks = λ g. ground arith;
    mastered = λ g h e. ground arith;
  }

  pub finalize-Effect : (sh : Shared W) (f : ℕ) → Effect sh (finalize sys sh f)
  unfolding finalize trim carry_times
  finalize-Effect sh f = record {
    tasks = λ g. ground arith;
    align = ground arith;
    prepared = λ g e. ground arith;
    errors = grind (arith, fail-errors);
    done = λ g. ground arith;
    chunks = λ g. ground arith;
    mastered = λ g h e. ground arith;
  }

  -- A try that gives its buffer back early has recorded an error.
  pub read_early :
      (sh : Shared W) (hs : List ℕ) (buf b : ℕ) (job : Job)
      → (read sys sh hs buf job).1 ≡ releasing b early
      → 0 < length (read sys sh hs buf job).0.errors
  unfolding read open_source load
  read_early sh hs buf b job e = grind (arith, fail_entry-errors)

  pub prepare_early :
      (sh : Shared W) (c : Chunk) (b : ℕ)
      → (prepare sys sh c).1 ≡ releasing b early
      → 0 < length (prepare sys sh c).0.errors
  unfolding prepare
  prepare_early sh c b e = grind (arith, fail_entry-errors)

  pub write_early :
      (sh : Shared W) (hs : List ℕ) (c : Chunk) (b : ℕ)
      → (write sys sh hs c).1 ≡ releasing b early
      → 0 < length (write sys sh hs c).0.errors
  unfolding write
  write_early sh hs c b e = grind (arith, fail_entry-errors)

  -- A chunk that is to be written has its destination prepared.
  pub prepare_prepared :
      (sh : Shared W) (c d : Chunk)
      → (prepare sys sh c).1 ≡ writing d
      → ((prepare sys sh c).0.entries c.file).prepared ≡ true
  unfolding prepare prepare_destination create_and_size
  prepare_prepared sh c d e = ground arith

  -- What the steps do to the buffers and to the other files' preparation.
  pub read-memory :
      (sh : Shared W) (hs : List ℕ) (buf : ℕ) (job : Job) (b : ℕ)
      → b ≢ buf
      → (read sys sh hs buf job).0.memory b ≡ sh.memory b
  unfolding read open_source load fail_entry
  read-memory sh hs buf job b ne = ground arith

  pub prepare-memory : (sh : Shared W) (c : Chunk) → (prepare sys sh c).0.memory ≡ sh.memory
  unfolding prepare prepare_destination create_and_size fail_entry
  prepare-memory sh c = ground arith

  pub write-memory :
      (sh : Shared W) (hs : List ℕ) (c : Chunk) → (write sys sh hs c).0.memory ≡ sh.memory
  unfolding write open_dest store fail_entry
  write-memory sh hs c = ground arith

  pub finalize-memory : (sh : Shared W) (f : ℕ) → (finalize sys sh f).memory ≡ sh.memory
  unfolding finalize trim carry_times
  finalize-memory sh f = ground arith
