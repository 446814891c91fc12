-- ===== src/Tests/Devices.antt =====
-- The theorems on devices, the arena and the file calls, at concrete inputs.
use b2c_fast_copy.Base.{
  ℕ, ◌+◌, ◌≤◌, ◌≡◌, refl, true, false, some, none, arith, if◌then◌else◌, ltb, ◌||◌,
}
use b2c_fast_copy.Device.{round_up}
use b2c_fast_copy.Device.Align.{IsLeastMultiple, round_up-IsLeastMultiple}
use b2c_fast_copy.Arena.{Arena, Allocation, Memory, new, ptr}
use b2c_fast_copy.Arena.Layout.{IsBacked, IsModest, IsAddressed, new-IsBacked, new-ptr_disjoint}
use b2c_fast_copy.Win.File.{position, overlapped, position-overlapped}

round_up-IsLeastMultiple_example : IsLeastMultiple 5000 4096 (round_up 5000 4096)
round_up-IsLeastMultiple_example =
    round_up-IsLeastMultiple 5000 4096 2 (omega arith) (omega arith) (omega arith)

-- Memory that has large pages of 64 bytes, but grants none.
abbrev no_large_pages : Memory
no_large_pages = record {
  alloc = λ size large. if ltb 1_000_000 size || large then none else some 4096;
  large_page_minimum = 64;
}

modest : IsModest no_large_pages 43 8
modest = record { total_fits = omega arith; block_fits = omega arith; pages_fit = omega arith }

addressed : IsAddressed no_large_pages
addressed size p large e = ground arith

abbrev five_blocks : Arena
five_blocks = record { base = 4096; block = 8; count = 5; large_pages = false }

five_blocks_made : new no_large_pages 43 8 true ≡ Allocation.made five_blocks
unfolding new
five_blocks_made = refl

new-IsBacked_example : IsBacked no_large_pages 43 8 five_blocks
new-IsBacked_example = new-IsBacked no_large_pages 43 8 true five_blocks modest five_blocks_made

new-ptr_disjoint_example :
    (size : ℕ) × (no_large_pages.alloc size false ≡ some 4096)
    × (4096 ≤ ptr five_blocks 1)
    × (ptr five_blocks 1 + 8 ≤ ptr five_blocks 3)
    × (ptr five_blocks 3 + 8 ≤ 4096 + size)
new-ptr_disjoint_example =
    new-ptr_disjoint no_large_pages 43 8 true five_blocks 1 3 modest addressed five_blocks_made
      (omega arith) (omega arith)

position-overlapped_example : position (overlapped 5_000_000_000) ≡ 5_000_000_000
position-overlapped_example = position-overlapped 5_000_000_000 (omega arith)
