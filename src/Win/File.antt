-- ===== src/Win/File.antt =====
-- crates/b2c-engine/src/win/file.rs: opening files, and reads and writes that carry their offset.
use b2c_fast_copy.Base.{ℕ, ◌+◌, ◌*◌, ◌/◌, ◌%◌, ◌^◌, ◌<◌, ◌≡◌, arith, ◌==◌, if◌then◌else◌}
use b2c_fast_copy.Win.Defs.{
  FilePath, Context, Result, ok, err, Overlapped, Reply, Bytes, Os, open_read, create_new,
  open_for_write, open_for_update, read_at_offset, write_at_offset, preallocation, end_of_file,
  valid_data, file_times,
}

abbrev pub access_read : ℕ
access_read = 0x8000_0000

abbrev access_write : ℕ
access_write = 0x4000_0000

-- `ACCESS_READ | ACCESS_WRITE`: the two bits differ.
abbrev access_read_write : ℕ
access_read_write = 0xC000_0000

abbrev create_always : ℕ
create_always = 2

abbrev pub open_existing : ℕ
open_existing = 3

abbrev pub no_buffering : ℕ
no_buffering = 0x2000_0000

abbrev sequential_scan : ℕ
sequential_scan = 0x0800_0000

abbrev pub error_handle_eof : ℕ
error_handle_eof = 38

-- A failed call gives the error with its call site.
abbrev pub to_result {ℓ} : {A : Type ℓ} → Context → Reply A → Result A
to_result ctx (Reply.done a) = ok a
to_result ctx (Reply.failed code) = err (record { ctx = ctx; code = code })

unfoldable pub overlapped : ℕ → Overlapped
overlapped offset = record { offset = offset % 2 ^ 32; offset_high = offset / 2 ^ 32 % 2 ^ 32 }

-- The position that an `OVERLAPPED` stands for.
abbrev pub position : Overlapped → ℕ
position ov = ov.offset + ov.offset_high * 2 ^ 32

-- Every 64-bit offset reaches the system unchanged through the two halves of its `OVERLAPPED`.
pub position-overlapped : (offset : ℕ) → offset < 2 ^ 64 → position (overlapped offset) ≡ offset
unfolding overlapped
position-overlapped offset h = omega arith

-- The end of the file is no error: it reads nothing.
abbrev pub read_result : ℕ → Reply Bytes → Result Bytes
read_result offset (Reply.done bytes) = ok bytes
read_result offset (Reply.failed code) =
    if code == error_handle_eof
    then ok (record { got = 0; byte = λ i. 0 })
    else err (record { ctx = read_at_offset offset; code = code })

module _ {W : Type 0} (os : Os W) where
  create : W → FilePath → ℕ → ℕ → ℕ → Context → W × Result (Unit {0})
  create w path access disposition flags ctx =
      let (w', reply) = os.create_file w path access disposition flags in (w', to_result ctx reply)

  unfoldable pub open_read_unbuffered : W → FilePath → W × Result (Unit {0})
  unfolding create
  open_read_unbuffered w path = create w path access_read open_existing no_buffering open_read

  unfoldable pub open_read_buffered : W → FilePath → W × Result (Unit {0})
  unfolding create
  open_read_buffered w path = create w path access_read open_existing sequential_scan open_read

  unfoldable pub create_write_unbuffered : W → FilePath → W × Result (Unit {0})
  unfolding create
  create_write_unbuffered w path =
      create w path access_read_write create_always no_buffering create_new

  unfoldable pub create_write_buffered : W → FilePath → W × Result (Unit {0})
  unfolding create
  create_write_buffered w path = create w path access_write create_always sequential_scan create_new

  unfoldable pub open_write_unbuffered : W → FilePath → W × Result (Unit {0})
  unfolding create
  open_write_unbuffered w path =
      create w path access_write open_existing no_buffering open_for_write

  unfoldable pub open_existing_write : W → FilePath → W × Result (Unit {0})
  unfolding create
  open_existing_write w path = create w path access_write open_existing 0 open_for_update

  unfoldable pub read_at : W → FilePath → ℕ → ℕ → W × Result Bytes
  read_at w path len offset =
      let (w', reply) = os.read_file w path len (overlapped offset) in
      (w', read_result offset reply)

  unfoldable pub write_at : W → FilePath → (ℕ → ℕ) → ℕ → ℕ → W × Result ℕ
  write_at w path buf len offset =
      let (w', reply) = os.write_file w path buf len (overlapped offset) in
      (w', to_result (write_at_offset offset) reply)

  unfoldable pub set_len : W → FilePath → ℕ → W × Result (Unit {0})
  set_len w path bytes =
      let (w', reply) = os.set_end_of_file w path bytes in (w', to_result end_of_file reply)

  unfoldable pub preallocate : W → FilePath → ℕ → W × Result (Unit {0})
  preallocate w path bytes =
      let (w', reply) = os.set_allocation w path bytes in (w', to_result preallocation reply)

  unfoldable pub set_valid_data : W → FilePath → ℕ → W × Result (Unit {0})
  set_valid_data w path bytes =
      let (w', reply) = os.set_valid_data w path bytes in (w', to_result valid_data reply)

  unfoldable pub set_times : W → FilePath → (created accessed written : ℕ) → W × Result (Unit {0})
  set_times w path created accessed written =
      let (w', reply) = os.set_file_time w path created accessed written in
      (w', to_result file_times reply)
