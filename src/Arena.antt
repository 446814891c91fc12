-- ===== src/Arena.antt =====
-- crates/b2c-engine/src/arena.rs: one allocation, carved into buffers of one size.
pub mod Layout
use b2c_fast_copy.Base.{
  ℕ, ◌+◌, ◌*◌, ◌/◌, ◌%◌, ◌^◌, ◌≡◌, Bool, true, false, ◌&&◌, Option, none, some, max, ltb, ◌==◌,
  if◌then◌else◌,
}
use b2c_fast_copy.Device.{div_ceil}

pub record Arena : Type 0 where
  pub base : ℕ
  pub block : ℕ
  pub count : ℕ
  pub large_pages : Bool

-- `Arena::new` panics on a block size of 0: it divides by it.
pub data Allocation : Type 0 where
  made : Arena → Allocation
  refused : Allocation
  panicked : Allocation

-- `VirtualAlloc` by size and use of large pages, the address of a region or null; and
-- `GetLargePageMinimum`.
pub record Memory : Type 0 where
  pub alloc : ℕ → Bool → Option ℕ
  pub large_page_minimum : ℕ

unfoldable pub buffer_count : (total block : ℕ) → ℕ
buffer_count total block = max (total / block) 4

-- `count * block`, a product of `usize`, which wraps.
abbrev pub region_bytes : (block count : ℕ) → ℕ
region_bytes block count = count * block % 2 ^ 64

-- The allocation with normal pages.
new_normal : Memory → (block count : ℕ) → Allocation
new_normal m block count = elim (m.alloc (region_bytes block count) false) [
  | none ↦ Allocation.refused
  | some p ↦
      Allocation.made (record { base = p; block = block; count = count; large_pages = false })
]

-- The attempt with large pages, of whole large pages; its failure is no error.
new_large : Memory → (block count : ℕ) → Allocation
unfolding new_normal
new_large m block count =
    let pages = div_ceil (region_bytes block count) m.large_page_minimum in
    elim (m.alloc (pages * m.large_page_minimum % 2 ^ 64) true) [
      | none ↦ new_normal m block count
      | some p ↦
          Allocation.made (record { base = p; block = block; count = count; large_pages = true })
    ]

unfoldable pub new : Memory → (total block : ℕ) → Bool → Allocation
unfolding new_normal new_large buffer_count
new m total block try_large =
    if block == 0
    then Allocation.panicked
    else if try_large && ltb 0 m.large_page_minimum
    then new_large m block (buffer_count total block)
    else new_normal m block (buffer_count total block)

unfoldable pub total_bytes : Arena → ℕ
total_bytes a = a.block * a.count % 2 ^ 64

-- The address of a buffer; offset and address have 64 bits.
unfoldable pub ptr : Arena → ℕ → ℕ
ptr a idx = (a.base + idx * a.block % 2 ^ 64) % 2 ^ 64
