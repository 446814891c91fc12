-- ===== src/Engine/Copier/Ready.antt =====
-- What the parameters of a copier give the bulk copy and the scheduler.
use b2c_fast_copy.Base.{
  ℕ, ◌+◌, ◌^◌, ◌≤◌, ◌<◌, ◌≡◌, refl, Bool, true, false, List, max, length, arith, if◌then◌else◌,
}
use native.Mathlib.Nat.{one-le-pow}
use b2c_fast_copy.Win.Defs.{FilePath}
use b2c_fast_copy.Win.Privileges.{Privileges}
use b2c_fast_copy.Device.{DeviceProfile, round_up}
use b2c_fast_copy.Device.Align.{IsLeastMultiple, round_up_near}
use b2c_fast_copy.Device.Sectors.{Divides, Divides-trans, IsPowerOfTwo, max-Divides}
use b2c_fast_copy.Arena.{buffer_count}
use b2c_fast_copy.Scanner.{FileTask}
use b2c_fast_copy.Engine.Jobs.{plan_jobs}
use b2c_fast_copy.Engine.Bulk.{align_of}
use b2c_fast_copy.Engine.Content.Start.{IsReady}
use b2c_fast_copy.Engine.Copier.{Options, unwrap_or, new, setup_of}

module _ (src_path dst_path : FilePath) (opts : Options) (privs : Privileges)
    (src_dev dst_dev : DeviceProfile) (available cpus : ℕ) where
  -- A copier has at least two workers, and no device gets a queue deeper than that; and the arena of a
  -- bulk copy has at least four buffers.
  pub new_enough :
      (bulk : List FileTask)
      → let c = new src_path dst_path opts privs src_dev dst_dev available cpus in
        (2 ≤ c.limits.workers)
        × (c.limits.workers ≡ c.workers)
        × (c.limits.max_readers ≤ c.workers)
        × (c.limits.max_writers ≤ c.workers)
        × (4 ≤ (setup_of c bulk).buffers)
  unfolding new setup_of buffer_count
  new_enough bulk = (omega arith, refl, omega arith, omega arith, omega arith)

  -- The size asked for, or else the larger one of the devices; and the larger alignment.
  abbrev pub chosen : ℕ
  chosen = unwrap_or opts.block_size (max src_dev.block_size dst_dev.block_size)

  abbrev pub align : ℕ
  align = max src_dev.align dst_dev.align

  -- The block size of a copier is a multiple of the alignments of both devices, when these are powers of
  -- two; it is the size that was asked for, or by less than one alignment more. The size that was asked
  -- for and the larger alignment add up to at most 2 ^ 64.
  pub new-Divides :
      let c = new src_path dst_path opts privs src_dev dst_dev available cpus in
      IsPowerOfTwo src_dev.align
      → IsPowerOfTwo dst_dev.align
      → chosen + align ≤ 2 ^ 64
      → Divides src_dev.align c.block_size
        × Divides dst_dev.align c.block_size
        × (chosen ≤ c.block_size)
        × (c.block_size < chosen + align)
  unfolding new
  new-Divides p q near = (
    Divides-trans _ _ _ both.0 (least.quotient, least.multiple),
    Divides-trans _ _ _ both.1 (least.quotient, least.multiple),
    least.above,
    least.tight,
  )
    where
      both : Divides src_dev.align align × Divides dst_dev.align align
      both = max-Divides src_dev.align dst_dev.align p q

      positive : 0 < align
      positive = omega (arith, p.1, one-le-pow p.0 2 (omega arith))

      least : IsLeastMultiple chosen align (round_up chosen align)
      least = round_up_near chosen align positive near

  -- The block size of a copier makes every bulk copy ready, buffered or not, when the alignments of the
  -- devices and the size asked for are positive, this size and the larger alignment add up to at most
  -- 2 ^ 64, the block fits in 32 bits, and the files and their jobs can be counted.
  pub new-IsReady :
      (bulk : List FileTask)
      → let c = new src_path dst_path opts privs src_dev dst_dev available cpus in
        0 < chosen
        → 0 < src_dev.align
        → 0 < dst_dev.align
        → chosen + align ≤ 2 ^ 64
        → c.block_size < 2 ^ 32
        → length bulk ≤ 2 ^ 32
        → length (plan_jobs c.block_size 0 bulk) < 2 ^ 64
        → IsReady (setup_of c bulk)
  unfolding new setup_of align_of
  new-IsReady bulk asked src dst near narrow few countable = record {
    some_block = omega (arith, least.above);
    narrow = narrow;
    aligned = ground arith;
    whole = whole opts.unbuffered;
    few = few;
    countable = countable;
  }
    where
      least : IsLeastMultiple chosen align (round_up chosen align)
      least = round_up_near chosen align (omega arith) near

      whole :
          (unbuffered : Bool) → Divides (if◌then◌else◌ unbuffered align 1) (round_up chosen align)
      whole true = (least.quotient, least.multiple)
      whole false = (round_up chosen align, omega arith)
