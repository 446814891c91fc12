-- ===== src/Stats.antt =====
-- crates/b2c-engine/src/stats.rs: the shared counters.
use b2c_fast_copy.Base.{ℕ, ◌+◌, ◌%◌, ◌^◌}

pub record Stats : Type 0 where
  pub bytes_read : ℕ
  pub bytes_written : ℕ
  pub bytes_total : ℕ
  pub files_done : ℕ
  pub files_total : ℕ
  pub small_files_done : ℕ
  pub read_stalls : ℕ
  pub write_stalls : ℕ
  pub readers : ℕ
  pub writers : ℕ
  pub errors : ℕ

-- `Stats::default`.
abbrev pub no_stats : Stats
no_stats = record {
  bytes_read = 0;
  bytes_written = 0;
  bytes_total = 0;
  files_done = 0;
  files_total = 0;
  small_files_done = 0;
  read_stalls = 0;
  write_stalls = 0;
  readers = 0;
  writers = 0;
  errors = 0;
}

-- `fetch_add` on a 64-bit atomic wraps.
abbrev pub count_up : ℕ → ℕ → ℕ
count_up a n = (a + n) % 2 ^ 64

unfoldable pub add_read : Stats → ℕ → Stats
add_read s n = record s { bytes_read = count_up s.bytes_read n }

unfoldable pub add_written : Stats → ℕ → Stats
add_written s n = record s { bytes_written = count_up s.bytes_written n }
