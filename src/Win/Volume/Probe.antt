-- ===== src/Win/Volume/Probe.antt =====
-- Where a probe reads, and what `for_path` finds.
use b2c_fast_copy.Base.{ℕ, ◌+◌, ◌/◌, ◌%◌, ◌^◌, ◌≤◌, ◌<◌, refl, max, arith}
use native.Mathlib.Nat.{mod-lt}
use b2c_fast_copy.Win.File.{position, overlapped, position-overlapped}
use b2c_fast_copy.Device.Sectors.{Divides}
use b2c_fast_copy.Win.Volume.{span_of, offset_of}

-- Whatever the seed, a read of a probe starts at a multiple of 4096 and ends within the disk, for a disk
-- that holds a block and whose length is an i64.
pub offset_of-inside :
    (len seed : ℕ)
    → 4096 ≤ len
    → len < 2 ^ 63
    → let at = position (overlapped (offset_of (span_of len) seed)) in
      Divides 4096 at × (at + 4096 ≤ len)
unfolding offset_of span_of
offset_of-inside len seed whole long =
    rw (position-overlapped (offset_of (span_of len) seed) (omega (arith, below)))
      ((seed / 2 ^ 16 % max (span_of len) 1 / 4096, refl), omega (arith, below))
  where
    below : seed / 2 ^ 16 % max (span_of len) 1 < max (span_of len) 1
    below = mod-lt (seed / 2 ^ 16) (omega arith)
