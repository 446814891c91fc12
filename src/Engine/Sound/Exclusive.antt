-- ===== src/Engine/Sound/Exclusive.antt =====
-- Who has a buffer: what the safety contract of `Arena::ptr` asks of its callers.
use b2c_fast_copy.Base.{
  two-le-total, ℕ, zero, suc, ◌+◌, ◌^◌, ◌<◌, ◌≡◌, ◌≢◌, ◌∙◌, Option, none, some, List, arith, total,
  le-total, ◌%◌, length, get_elem?, ltb, ◌==◌, if◌then◌else◌,
}
use b2c_fast_copy.Win.Defs.{Os}
use b2c_fast_copy.Rings.{countdown}
use b2c_fast_copy.Stats.{Stats}
use b2c_fast_copy.Engine.Defs.{
  Pc, Worker, claiming, returning, reading, pushing, preparing, writing, releasing,
}
use b2c_fast_copy.Engine.Jobs.{plan_jobs}
use b2c_fast_copy.Engine.Worker.{Pipeline, run}
use b2c_fast_copy.Engine.Worker.Conserve.{holds, ringed}
use b2c_fast_copy.Engine.Bulk.{Setup, start}
use b2c_fast_copy.Engine.Sound.{held_by, reach-IsSound}

abbrev pub is_buf : ℕ → ℕ → ℕ
is_buf b x = if x == b then 1 else 0

-- How often buffer `b` occurs in the free ring, in the filled ring and in the hands of the workers.
abbrev pub places : {W : Type 0} → ℕ → Pipeline W → ℕ
places b p = ringed (is_buf b) p.shared + total (held_by (is_buf b)) p.workers

-- The buffer that a worker may touch.
abbrev pub buffer_of : Pc → Option ℕ
buffer_of (claiming last buf) = some buf
buffer_of (returning last buf) = some buf
buffer_of (reading buf job) = some buf
buffer_of (pushing c) = some c.buf
buffer_of (preparing c) = some c.buf
buffer_of (writing c) = some c.buf
buffer_of (releasing buf after) = some buf
buffer_of _ = none

pub countdown-count : (b n : ℕ) → total (is_buf b) (countdown n) ≡ (if ltb b n then 1 else 0)
countdown-count b zero = ground arith
countdown-count b (suc n) = ground (arith, countdown-count b n)

-- At every moment of a bulk copy, whatever the order of the workers, each buffer of the arena is in
-- exactly one place: in the free ring, in the filled ring or with one worker. No other buffer is in any.
pub run-places :
    {W : Type 0} (sys : Os W) (s : Setup) (stats : Stats) (memory : ℕ → ℕ → ℕ) (os : W)
    (ts : List (ℕ × ℕ)) (b : ℕ)
    → length ts < 2 ^ 64
    → length (plan_jobs s.block_size 0 s.bulk) < 2 ^ 64
    → places b (run sys (start s stats memory os) ts)
      ≡ (if ltb b (s.buffers % 2 ^ 32) then 1 else 0)
run-places sys s stats memory os ts b few fits =
    (reach-IsSound sys s stats memory os ts few fits).buffers (is_buf b)
    ∙ countdown-count b (s.buffers % 2 ^ 32)

pub holds-buffer_of : (pc : Pc) (b : ℕ) → buffer_of pc ≡ some b → holds (is_buf b) pc ≡ 1
holds-buffer_of pc b h = ground arith

-- No two workers ever hold the same buffer, and what a worker holds is in neither ring.
pub run-exclusive :
    {W : Type 0} (sys : Os W) (s : Setup) (stats : Stats) (memory : ℕ → ℕ → ℕ) (os : W)
    (ts : List (ℕ × ℕ)) (i j b : ℕ) (v w : Worker)
    → length ts < 2 ^ 64
    → length (plan_jobs s.block_size 0 s.bulk) < 2 ^ 64
    → let p = run sys (start s stats memory os) ts in
      get_elem? p.workers i ≡ some v
      → get_elem? p.workers j ≡ some w
      → i < j
      → buffer_of v.pc ≡ some b
      → (b < s.buffers % 2 ^ 32) × (ringed (is_buf b) p.shared ≡ 0) × (buffer_of w.pc ≢ some b)
run-exclusive {W} sys s stats memory os ts i j b v w few fits ev ew lt hv = (
  ground (arith, once, le-total (held_by (is_buf b)) p.workers i v ev, held),
  ground (arith, once, le-total (held_by (is_buf b)) p.workers i v ev, held),
  λ hw. ground (
    arith,
    once,
    two-le-total (held_by (is_buf b)) p.workers i j v w lt ev ew,
    held,
    holds-buffer_of w.pc b hw,
  ),
)
  where
    p : Pipeline W
    p = run sys (start s stats memory os) ts

    once : places b p ≡ (if ltb b (s.buffers % 2 ^ 32) then 1 else 0)
    once = run-places sys s stats memory os ts b few fits

    held : holds (is_buf b) v.pc ≡ 1
    held = holds-buffer_of v.pc b hv
