-- ===== src/Engine/Content/Trim.antt =====
-- What a trim keeps, and the length that it gives.
use b2c_fast_copy.Base.{true, ℕ, ◌<◌, ◌≡◌, refl, length, arith}
use b2c_fast_copy.Win.Defs.{FilePath, Os, Reply}
use b2c_fast_copy.Win.File.{set_len}
use b2c_fast_copy.Win.FileSystem.{Content, IsFileSystem}
use b2c_fast_copy.Engine.Defs.{Shared}
use b2c_fast_copy.Engine.Write.{trim, finalize}
use b2c_fast_copy.Engine.Content.Calls.{carry_times-keeps}
use b2c_fast_copy.Engine.Content.Data.{fail-errors}

module _ {W : Type 0} (sys : Os W) (content : W → FilePath → Content)
    (laws : IsFileSystem sys content) where
  -- A file that is trimmed with no error keeps the bytes before its size, and has that size.
  trim-bytes :
      (sh : Shared W) (f k : ℕ)
      → length (trim sys sh f).errors ≡ 0
      → k < (sh.entries f).task.size
      → (content (trim sys sh f).os (sh.entries f).task.dst).byte k
        ≡ (content sh.os (sh.entries f).task.dst).byte k
  unfolding trim set_len
  trim-bytes sh f k clean short =
      go (sys.set_end_of_file sh.os (sh.entries f).task.dst (sh.entries f).task.size).1 refl
    where
      go :
          (r : Reply (Unit {0}))
          → (sys.set_end_of_file sh.os (sh.entries f).task.dst (sh.entries f).task.size).1 ≡ r
          → (content (trim sys sh f).os (sh.entries f).task.dst).byte k
            ≡ (content sh.os (sh.entries f).task.dst).byte k
      go (Reply.done t) is =
          ground (
            arith,
            laws.end_bytes sh.os (sh.entries f).task.dst (sh.entries f).task.size k is short,
          )
      go (Reply.failed code) is = absurd (grind (arith, fail-errors))

  pub finalize-bytes :
      (sh : Shared W) (f k : ℕ)
      → length (finalize sys sh f).errors ≡ 0
      → k < (sh.entries f).task.size
      → (content (finalize sys sh f).os (sh.entries f).task.dst).byte k
        ≡ (content sh.os (sh.entries f).task.dst).byte k
  unfolding finalize
  finalize-bytes sh f k clean short = ground (
    arith,
    trim-bytes sh f k,
    carry_times-keeps sys content laws (trim sys sh f) f (trim sys sh f).os (sh.entries f).task.dst,
  )

  -- A file that is trimmed with no error has its true size.
  trim-size :
      (sh : Shared W) (f : ℕ)
      → length (trim sys sh f).errors ≡ 0
      → (content (trim sys sh f).os (sh.entries f).task.dst).size ≡ (sh.entries f).task.size
  unfolding trim set_len
  trim-size sh f clean =
      go (sys.set_end_of_file sh.os (sh.entries f).task.dst (sh.entries f).task.size).1 refl
    where
      go :
          (r : Reply (Unit {0}))
          → (sys.set_end_of_file sh.os (sh.entries f).task.dst (sh.entries f).task.size).1 ≡ r
          → (content (trim sys sh f).os (sh.entries f).task.dst).size ≡ (sh.entries f).task.size
      go (Reply.done t) is =
          ground (arith, laws.end_size sh.os (sh.entries f).task.dst (sh.entries f).task.size is)
      go (Reply.failed code) is = absurd (grind (arith, fail-errors))

  pub finalize-size :
      (sh : Shared W) (f : ℕ)
      → length (finalize sys sh f).errors ≡ 0
      → (sh.entries f).master ≡ true
      → (content (finalize sys sh f).os (sh.entries f).task.dst).size ≡ (sh.entries f).task.size
  unfolding finalize
  finalize-size sh f clean held = ground (
    arith,
    trim-size sh f,
    carry_times-keeps sys content laws (trim sys sh f) f (trim sys sh f).os (sh.entries f).task.dst,
  )
