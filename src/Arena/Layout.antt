-- ===== src/Arena/Layout.antt =====
-- The buffers of an arena lie in the allocated region, one after another.
use b2c_fast_copy.Base.{
  ℕ, ◌+◌, ◌*◌, ◌%◌, ◌^◌, ◌≤◌, ◌<◌, ◌≡◌, Bool, true, false, some, arith, inl, inr, Option-cases,
}
use native.Mathlib.Nat.{div-add-mod, mod-eq_of_lt}
use b2c_fast_copy.Device.{div_ceil}
use b2c_fast_copy.Device.Align.{div_ceil-IsLeastMultiple}
use b2c_fast_copy.Arena.{
  Arena, Allocation, region_bytes, new_normal, new_large, Memory, buffer_count, new, ptr,
}

-- The region behind an arena: the allocator returned its base for at least the bytes of all buffers.
pub record IsBacked (m : Memory) (total block : ℕ) (a : Arena) : Type 0 where
  pub size : ℕ
  pub allocated : m.alloc size a.large_pages ≡ some a.base
  pub room : a.count * a.block ≤ size
  pub blocks : a.block ≡ block
  pub counted : a.count ≡ buffer_count total block
  pub some_block : 0 < block

-- Sizes for which no product wraps.
pub record IsModest (m : Memory) (total block : ℕ) : Type 0 where
  pub total_fits : total ≤ 2 ^ 63
  pub block_fits : block ≤ 2 ^ 61
  pub pages_fit : m.large_page_minimum ≤ 2 ^ 63

-- What is relied on in the allocator: a region lies in an address space of 64 bits.
abbrev pub IsAddressed : Memory → Type 0
IsAddressed m = (size p : ℕ) (large : Bool) → m.alloc size large ≡ some p → p + size ≤ 2 ^ 64

module _ (m : Memory) (total block : ℕ) (modest : IsModest m total block) (pos : 0 < block) where
  buffers_fit : buffer_count total block * block ≤ 2 ^ 63
  unfolding buffer_count
  buffers_fit = grind (arith, div-add-mod total block, modest.total_fits, modest.block_fits)

  whole : region_bytes block (buffer_count total block) ≡ buffer_count total block * block
  whole = mod-eq_of_lt (omega (arith, buffers_fit))

  new_normal-IsBacked :
      (a : Arena)
      → new_normal m block (buffer_count total block) ≡ Allocation.made a
      → IsBacked m total block a
  unfolding new_normal
  new_normal-IsBacked a h =
      elim (Option-cases (m.alloc (region_bytes block (buffer_count total block)) false)) [
        | inl e ↦ absurd (ground arith)
        | inr (p, e) ↦ record {
          size = region_bytes block (buffer_count total block);
          allocated = ground arith;
          room = ground (arith, whole);
          blocks = ground arith;
          counted = ground arith;
          some_block = pos;
        }
      ]

  new_large-IsBacked :
      (a : Arena)
      → 0 < m.large_page_minimum
      → new_large m block (buffer_count total block) ≡ Allocation.made a
      → IsBacked m total block a
  unfolding new_large
  new_large-IsBacked a some_pages h = elim (Option-cases (m.alloc (rounded % 2 ^ 64) true)) [
    | inl e ↦ new_normal-IsBacked a (ground arith)
    | inr (p, e) ↦ record {
      size = rounded % 2 ^ 64;
      allocated = ground arith;
      room = ground (arith, above, exact);
      blocks = ground arith;
      counted = ground arith;
      some_block = pos;
    }
  ]
    where
      bytes : ℕ
      bytes = region_bytes block (buffer_count total block)

      rounded : ℕ
      rounded = div_ceil bytes m.large_page_minimum * m.large_page_minimum

      above : buffer_count total block * block ≤ rounded
      above =
          omega
            (arith, whole, (div_ceil-IsLeastMultiple bytes m.large_page_minimum some_pages).above)

      exact : rounded % 2 ^ 64 ≡ rounded
      exact = mod-eq_of_lt (
          omega (
            arith,
            whole,
            buffers_fit,
            modest.pages_fit,
            (div_ceil-IsLeastMultiple bytes m.large_page_minimum some_pages).tight,
          ))

-- Every arena that `new` returns rests on an allocation that holds all its buffers, whether or not
-- the attempt with large pages succeeded. This holds for sizes that are `IsModest`: the total and the
-- large pages have at most 2 ^ 63 bytes, and a block at most 2 ^ 61.
pub new-IsBacked :
    (m : Memory) (total block : ℕ) (try_large : Bool) (a : Arena)
    → IsModest m total block
    → new m total block try_large ≡ Allocation.made a
    → IsBacked m total block a
unfolding new
new-IsBacked m total block try_large a modest h =
    let pos : 0 < block = ground arith in
    ground (
      arith,
      new_normal-IsBacked m total block modest pos a,
      new_large-IsBacked m total block modest pos a,
    )

mul_step : (i j b : ℕ) → i < j → i * b + b ≤ j * b
mul_step i j b h = grind arith

-- A buffer that starts inside the region is found without wrapping.
ptr_inside :
    (a : Arena) (i size : ℕ)
    → a.base + size ≤ 2 ^ 64
    → 0 < a.block
    → i * a.block + a.block ≤ size
    → ptr a i ≡ a.base + i * a.block
unfolding ptr
ptr_inside a i size top pos inside =
    let offset : i * a.block % 2 ^ 64 ≡ i * a.block = mod-eq_of_lt (omega arith) in
    rw offset (mod-eq_of_lt (omega arith))

-- What the callers of `Arena::ptr` rely on, for two buffers of an arena that `new` returned: both lie
-- in one allocation, which starts at the base, and the first ends where or before the second starts.
-- This holds for sizes that are `IsModest` and an allocator that is `IsAddressed`.
pub new-ptr_disjoint :
    (m : Memory) (total block : ℕ) (try_large : Bool) (a : Arena) (i j : ℕ)
    → IsModest m total block
    → IsAddressed m
    → new m total block try_large ≡ Allocation.made a
    → i < j
    → j < a.count
    → (size : ℕ) × (m.alloc size a.large_pages ≡ some a.base)
      × (a.base ≤ ptr a i)
      × (ptr a i + block ≤ ptr a j)
      × (ptr a j + block ≤ a.base + size)
new-ptr_disjoint m total block try_large a i j modest addressed h lt below = (
  r.size,
  r.allocated,
  omega (arith, first),
  omega (arith, first, second, ahead, r.blocks),
  omega (arith, second, last, r.blocks, r.room),
)
  where
    r : IsBacked m total block a
    r = new-IsBacked m total block try_large a modest h

    top : a.base + r.size ≤ 2 ^ 64
    top = addressed r.size a.base a.large_pages r.allocated

    pos : 0 < a.block
    pos = omega (arith, r.blocks, r.some_block)

    ahead : i * a.block + a.block ≤ j * a.block
    ahead = mul_step i j a.block lt

    last : j * a.block + a.block ≤ a.count * a.block
    last = mul_step j a.count a.block below

    first : ptr a i ≡ a.base + i * a.block
    first = ptr_inside a i r.size top pos (omega (arith, ahead, last, r.room))

    second : ptr a j ≡ a.base + j * a.block
    second = ptr_inside a j r.size top pos (omega (arith, last, r.room))
