-- ===== src/Tests/Disk.antt =====
-- A disk of whole files, which meets the laws that the copier relies on.
use b2c_fast_copy.Base.{
  List, length, ◌++◌, sym, ap, ◌∙◌, list_eq, list_eq_sound, list_eq_refl, ℕ, ◌+◌, ◌-◌, ◌<◌, ◌≡◌,
  ◌≢◌, refl, none, [], ◌&&◌, min, max, arith, ltb, leb, ◌==◌, if◌then◌else◌,
}
use mathlib.Core.List.{append-nil, append_assoc}
use b2c_fast_copy.Win.Defs.{FilePath, Overlapped, Reply, Bytes, Os}
use b2c_fast_copy.Win.File.{position, open_existing}
use b2c_fast_copy.Win.FileSystem.{Content, IsFileSystem}
use b2c_fast_copy.Win.Std.{Std, IsStd}
use b2c_fast_copy.Engine.Verify.{Hasher}
use b2c_fast_copy.Engine.Verify.Digest.{slice, slice-length, IsReadable, IsStreaming}

abbrev pub Disk : Type 0
Disk = FilePath → Content

abbrev replace : Disk → FilePath → Content → Disk
replace w path c q = if list_eq q path then c else w q

abbrev empty_file : Content
empty_file = record { size = 0; byte = λ k. 0 }

abbrev overwrite : Content → (ℕ → ℕ) → (len pos : ℕ) → Content
overwrite c buf len pos = record {
  size = max c.size (pos + len);
  byte = λ k. if leb pos k && ltb k (pos + len) then buf (k - pos) else c.byte k;
}

-- `create_always` is 2; every file exists.
abbrev pub disk : Os Disk
disk = record {
  create_file = λ w path a d f.
      (λ q. if d == open_existing then w q else replace w path empty_file q, Reply.done tt);
  read_file = λ w path len ov. (
    w,
    Reply.done (record {
      got = min len ((w path).size - position ov);
      byte = λ k. (w path).byte (position ov + k);
    }),
  );
  write_file = λ w path buf len ov.
      (replace w path (overwrite (w path) buf len (position ov)), Reply.done len);
  set_end_of_file =
      λ w path n. (replace w path (record { size = n; byte = (w path).byte }), Reply.done tt);
  set_allocation = λ w path n. (w, Reply.done tt);
  set_valid_data = λ w path n. (w, Reply.done tt);
  set_file_time = λ w path c a m. (w, Reply.done tt);
  metadata = λ w path. none;
}

abbrev pub content : Disk → FilePath → Content
content w path = w path

replace_other : (w : Disk) (path q : FilePath) (c : Content) → q ≢ path → replace w path c q ≡ w q
replace_other w path q c ne = ground (arith, list_eq_sound q path)

replace_same : (w : Disk) (path : FilePath) (c : Content) → replace w path c path ≡ c
replace_same w path c = ground (arith, list_eq_refl path)

read_lem :
    (w : Disk) (path : FilePath) (len : ℕ) (ov : Overlapped) (bytes : Bytes) (k : ℕ)
    → (disk.read_file w path len ov).1 ≡ Reply.done bytes
    → k < len
    → position ov + k < (w path).size
    → (k < bytes.got) × (bytes.byte k ≡ (w path).byte (position ov + k))
read_lem w path len ov bytes k e h inside = rw (← same) (omega arith, refl)
  where
    read : Bytes
    read = record {
      got = min len ((w path).size - position ov);
      byte = λ j. (w path).byte (position ov + j);
    }

    same : read ≡ bytes
    same = cc

pub disk-IsFileSystem : IsFileSystem disk content
disk-IsFileSystem = record {
  create_other = λ w path q a d f ne. ground (arith, replace_other w path q empty_file ne);
  write_other = λ w path q buf len ov ne. replace_other w path q _ ne;
  end_other = λ w path q n ne. replace_other w path q _ ne;
  allocation_other = λ w path q n ne. refl;
  valid_other = λ w path q n ne. refl;
  open_keeps = λ w path q a f. refl;
  read_keeps = λ w path q len ov. refl;
  times_keep = λ w path q c a m. refl;
  read_bytes = λ w path len ov bytes k e h inside. read_lem w path len ov bytes k e h inside;
  read_past_end = λ w path len ov e. cc;
  write_bytes = λ w path buf len ov n k e h. rw (replace_same w path _) (ground arith);
  write_outside = λ w path buf len ov n k e h. rw (replace_same w path _) (ground arith);
  end_bytes = λ w path n k e h. rw (replace_same w path _);
  end_size = λ w path n e. rw (replace_same w path _);
}

-- The calls of the standard library on the same disk.
abbrev pub std : Std Disk
std = record {
  copy = λ w src dst. (replace w dst (w src), Reply.done (w src).size);
  create_dir_all = λ w path. (w, Reply.done tt);
  remove_file = λ w path. (replace w path empty_file, Reply.done tt);
  open_file = λ w path. Reply.done tt;
  read = λ w path p len. Reply.done (slice (w path) p (min len ((w path).size - p)));
}

pub std-IsStd : IsStd std content
std-IsStd = record {
  copy_other = λ w src dst q ne. replace_other w dst q (w src) ne;
  copy_same = λ w src dst n e.
      rw (replace_same w dst (w src)) (record { size = refl; byte = λ k lt. refl });
  create_keeps = λ w path q. refl;
  remove_other = λ w path q ne. replace_other w path q empty_file ne;
}

read_std :
    (w : Disk) (path : FilePath) (p len : ℕ) (bytes : List ℕ)
    → std.read w path p len ≡ Reply.done bytes
    → (bytes ≡ slice (w path) p (length bytes)) × (length bytes ≡ min len ((w path).size - p))
read_std w path p len bytes e =
    let same : slice (w path) p (min len ((w path).size - p)) ≡ bytes = cc in
    let n : length bytes ≡ min len ((w path).size - p) =
      sym (ap (length {A = ℕ}) same) ∙ slice-length (w path) p (min len ((w path).size - p)) in
    (sym same ∙ ap (slice (w path) p) (sym n), n)

pub std-IsReadable : IsReadable std content
std-IsReadable = record {
  read_slice = λ w path p len bytes e. (read_std w path p len bytes e).0;
  read_inside = λ w path p len bytes e le. omega (arith, (read_std w path p len bytes e).1);
  read_end = λ w path p len some_room e. omega (arith, (read_std w path p len [] e).1);
}

-- A hasher that keeps what it is given.
abbrev pub keeper : Hasher (List ℕ)
keeper = record { new = []; update = λ h bytes. h ++ bytes; finalize = λ h. h }

pub keeper-IsStreaming : IsStreaming keeper
keeper-IsStreaming = record {
  update_nil = λ h. append-nil h;
  update_append = λ h a b. append_assoc h a b;
}
