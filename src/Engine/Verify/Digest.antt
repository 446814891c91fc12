-- ===== src/Engine/Verify/Digest.antt =====
-- `hash_file` ends, and hashes the whole file however its reads cut it.
use b2c_fast_copy.Base.{
  ℕ, zero, suc, ◌+◌, ◌-◌, ◌^◌, ◌≤◌, ◌<◌, ◌≡◌, ◌⊎◌, refl, inl, inr, ap, ◌∙◌, Option, some, false,
  List, [], ◌∷◌, ◌++◌, length, arith, ◌==◌,
}
use b2c_fast_copy.Win.Defs.{FilePath, Reply}
use b2c_fast_copy.Win.FileSystem.{Content}
use b2c_fast_copy.Win.Std.{Std}
use b2c_fast_copy.Engine.Verify.{Hasher, hash_loop, hash_file}

-- `n` bytes of a file from a position on.
abbrev pub slice : Content → (position n : ℕ) → List ℕ
slice c p zero = []
slice c p (suc n) = c.byte p ∷ slice c (p + 1) n

-- What is relied on in the hasher: the pieces do not matter.
pub record IsStreaming {H : Type 0} (hasher : Hasher H) : Type 0 where
  pub update_nil : (h : H) → hasher.update h [] ≡ h
  pub update_append :
      (h : H) (a b : List ℕ) → hasher.update (hasher.update h a) b ≡ hasher.update h (a ++ b)

-- What is relied on in reads: they give the bytes at the position, and none only at the end, if the buffer
-- is not empty.
pub record IsReadable {W : Type 0} (fs : Std W) (content : W → FilePath → Content) : Type 0 where
  pub read_slice :
      (w : W) (path : FilePath) (p len : ℕ) (bytes : List ℕ)
      → fs.read w path p len ≡ Reply.done bytes
      → bytes ≡ slice (content w path) p (length bytes)
  pub read_inside :
      (w : W) (path : FilePath) (p len : ℕ) (bytes : List ℕ)
      → fs.read w path p len ≡ Reply.done bytes
      → p ≤ (content w path).size
      → p + length bytes ≤ (content w path).size
  pub read_end :
      (w : W) (path : FilePath) (p len : ℕ)
      → 0 < len
      → fs.read w path p len ≡ Reply.done []
      → (content w path).size ≤ p

pub slice-length : (c : Content) (p n : ℕ) → length (slice c p n) ≡ n
slice-length c p zero = refl
slice-length c p (suc n) = ap suc (slice-length c (p + 1) n)

slice-append : (c : Content) (p a b : ℕ) → slice c p a ++ slice c (p + a) b ≡ slice c p (a + b)
slice-append c p zero b =
    let e : p + 0 ≡ p = omega arith in let z : 0 + b ≡ b = omega arith in rw (e, z) refl
slice-append c p (suc a) b =
    let e : p + suc a ≡ p + 1 + a = omega arith in
    let z : suc a + b ≡ suc (a + b) = omega arith in
    rw (e, z) (ap (λ (xs : List ℕ). c.byte p ∷ xs) (slice-append c (p + 1) a b))

-- The digest of a file.
abbrev pub digest : {H : Type 0} → Hasher H → Content → List ℕ
digest hasher c = hasher.finalize (hasher.update hasher.new (slice c 0 c.size))

module _ {W H : Type 0} (fs : Std W) (hasher : Hasher H) (content : W → FilePath → Content)
    (reads : IsReadable fs content) (streams : IsStreaming hasher) (w : W) (path : FilePath) where
  -- A read at a position of the file fails with a code.
  abbrev pub FailsToRead : ℕ → Type 0
  FailsToRead code =
      (p : ℕ) × (p ≤ (content w path).size) × (fs.read w path p (2 ^ 20) ≡ Reply.failed code)

  -- The rest of the file goes into the digest, or a read fails.
  abbrev Ends : ℕ → H → Option (Reply (List ℕ)) → Type 0
  Ends p h r =
      ((code : ℕ) × FailsToRead code × (r ≡ some (Reply.failed code)))
      ⊎ (r
          ≡ some (
              Reply.done (
                hasher.finalize
                  (hasher.update h (slice (content w path) p ((content w path).size - p))))))

  hash_loop-Ends :
      (fuel p : ℕ) (h : H)
      → p ≤ (content w path).size
      → (content w path).size - p < fuel
      → Ends p h (hash_loop fs hasher fuel w path p h)
  unfolding hash_loop
  hash_loop-Ends zero p h le few = absurd (omega arith)
  hash_loop-Ends (suc fuel) p h le few =
      by_reply (fs.read w path p (2 ^ 20)) refl (hash_loop-Ends fuel)
    where
      size : ℕ
      size = (content w path).size

      -- The bytes that were read, and the rest, are the file from `p` on.
      joined :
          (bytes : List ℕ)
          → fs.read w path p (2 ^ 20) ≡ Reply.done bytes
          → bytes ++ slice (content w path) (p + length bytes) (size - (p + length bytes))
            ≡ slice (content w path) p (size - p)
      joined bytes e =
          let fits = reads.read_inside w path p (2 ^ 20) bytes e le in
          let whole : length bytes + (size - (p + length bytes)) ≡ size - p = omega arith in
          ap
            (λ (b : List ℕ).
              b ++ slice (content w path) (p + length bytes) (size - (p + length bytes)))
            (reads.read_slice w path p (2 ^ 20) bytes e)
          ∙ slice-append (content w path) p (length bytes) (size - (p + length bytes))
          ∙ ap (slice (content w path) p) whole

      by_reply :
          (r : Reply (List ℕ))
          → fs.read w path p (2 ^ 20) ≡ r
          → ((q : ℕ) (g : H)
              → q ≤ size
              → size - q < fuel
              → Ends q g (hash_loop fs hasher fuel w path q g))
          → Ends p h (hash_loop fs hasher (suc fuel) w path p h)
      by_reply (Reply.failed code) e ih = inl (code, (p, le, e), rw (e, hash_loop) refl)
      by_reply (Reply.done []) e ih =
          let end : size - p ≡ 0 =
            omega (arith, reads.read_end w path p (2 ^ 20) (omega arith) e) in
          inr (rw (e, hash_loop) (rw (end, streams.update_nil h) refl))
      by_reply (Reply.done (x ∷ xs)) e ih =
          let fits = reads.read_inside w path p (2 ^ 20) (x ∷ xs) e le in
          let some_bytes : (suc (length xs) == 0) ≡ false = ground arith in
          elim (ih (p + length (x ∷ xs)) (hasher.update h (x ∷ xs)) fits (omega arith)) [
            | inl (code, why, failed) ↦ inl (code, why, rw (e, hash_loop) (rw some_bytes failed))
            | inr done ↦ inr (
                rw (e, hash_loop)
                  (rw some_bytes (
                    done
                    ∙ ap (λ (g : H). some (Reply.done (hasher.finalize g)))
                        (streams.update_append h (x ∷ xs) _
                          ∙ ap (hasher.update h) (joined (x ∷ xs) e)))))
          ]

  -- With more fuel than the file has bytes, `hash_file` ends: it fails with the code of a call that fails,
  -- which is the opening of the file or a read at a position of it, or the file could be opened and it
  -- gives the digest of the whole file, however the reads cut it. This holds for reads that follow
  -- `IsReadable` and a hasher that follows `IsStreaming`.
  pub hash_file-digest :
      (fuel : ℕ)
      → (content w path).size < fuel
      → ((code : ℕ) × ((fs.open_file w path ≡ Reply.failed code) ⊎ FailsToRead code)
          × (hash_file fs hasher fuel w path ≡ some (Reply.failed code)))
        ⊎ ((fs.open_file w path ≡ Reply.done tt)
            × (hash_file fs hasher fuel w path
                ≡ some (Reply.done (digest hasher (content w path)))))
  unfolding hash_file
  hash_file-digest fuel few = by_reply (fs.open_file w path) refl
    where
      by_reply :
          (r : Reply (Unit {0}))
          → fs.open_file w path ≡ r
          → ((code : ℕ) × ((fs.open_file w path ≡ Reply.failed code) ⊎ FailsToRead code)
              × (hash_file fs hasher fuel w path ≡ some (Reply.failed code)))
            ⊎ ((fs.open_file w path ≡ Reply.done tt)
                × (hash_file fs hasher fuel w path
                    ≡ some (Reply.done (digest hasher (content w path)))))
      by_reply (Reply.failed code) e = inl (code, inl e, rw (e, hash_file) refl)
      by_reply (Reply.done _) e =
          let whole : (content w path).size - 0 ≡ (content w path).size = omega arith in
          elim (hash_loop-Ends fuel 0 hasher.new (omega arith) (omega arith)) [
            | inl (code, why, failed) ↦ inl (code, inr why, rw (e, hash_file) failed)
            | inr done ↦ inr (e, rw (e, hash_file) (rw whole at done))
          ]
