-- ===== src/Rings.antt =====
-- crates/b2c-engine/src/rings.rs: the free buffers and the filled chunks. The locks make each
-- operation one step. A wait that times out is the branch of an empty queue; a wait that is woken is
-- the operation, begun later.
use b2c_fast_copy.Base.{
  ◌≡◌, refl, ◌⊎◌, inl, inr, arith, Bool-cases, ℕ, ◌%◌, ◌^◌, zero, suc, Bool, true, false, Option,
  none, some, List, [], ◌∷◌, ◌++◌, length,
}

pub record Chunk : Type 0 where
  pub buf : ℕ
  pub file : ℕ
  pub offset : ℕ
  pub len : ℕ
  pub padded : ℕ

-- The head of `free` is the end of the vector, from which it pops; the head of `filled` is the front.
pub record Rings : Type 0 where
  pub free : List ℕ
  pub filled : List Chunk
  pub capacity : ℕ
  pub is_shutdown : Bool

-- The vector `0..n` from its end.
abbrev pub countdown : ℕ → List ℕ
countdown zero = []
countdown (suc n) = n ∷ countdown n

unfoldable pub new : ℕ → Rings
new buffers = record {
  free = countdown (buffers % 2 ^ 32);
  filled = [];
  capacity = buffers;
  is_shutdown = false;
}

pop_free : List ℕ → Rings → Rings × Option ℕ
pop_free [] r = (r, none)
pop_free (id ∷ rest) r = (record r { free = rest }, some id)

unfoldable pub acquire_free : Rings → Rings × Option ℕ
unfolding pop_free
acquire_free r = elim r.is_shutdown [ true ↦ (r, none) | false ↦ pop_free r.free r ]

unfoldable pub release_free : Rings → ℕ → Rings
release_free r buf = record r { free = buf ∷ r.free }

unfoldable pub push_filled : Rings → Chunk → Rings
push_filled r c = record r { filled = r.filled ++ c ∷ [] }

pop_front : List Chunk → Rings → Rings × Option Chunk
pop_front [] r = (r, none)
pop_front (c ∷ rest) r = (record r { filled = rest }, some c)

-- An empty queue gives `none` on the time-out and on shutdown alike.
unfoldable pub pop_filled : Rings → Rings × Option Chunk
unfolding pop_front
pop_filled r = pop_front r.filled r

unfoldable pub free_len : Rings → ℕ
free_len r = length r.free

unfoldable pub filled_len : Rings → ℕ
filled_len r = length r.filled

unfoldable pub shutdown : Rings → Rings
shutdown r = record r { is_shutdown = true }

-- `acquire_free` takes the buffer that was released last, and changes nothing if it takes none.
pub acquire_free_cases :
    (r : Rings)
    → (acquire_free r ≡ (r, none))
      ⊎ ((buf : ℕ) × (rest : List ℕ) × (r.free ≡ buf ∷ rest)
          × (acquire_free r ≡ (record r { free = rest }, some buf)))
unfolding acquire_free
acquire_free_cases r = elim (Bool-cases r.is_shutdown) [
  | inl e ↦ inl (ground arith)
  | inr e ↦ go r.free refl e
]
  where
    go :
        (l : List ℕ)
        → r.free ≡ l
        → r.is_shutdown ≡ false
        → (acquire_free r ≡ (r, none))
          ⊎ ((buf : ℕ) × (rest : List ℕ) × (r.free ≡ buf ∷ rest)
              × (acquire_free r ≡ (record r { free = rest }, some buf)))
    go [] e f = inl (ground arith)
    go (buf ∷ rest) e f = inr (buf, rest, e, ground arith)

-- `pop_filled` takes the oldest chunk, and changes nothing if there is none.
pub pop_filled_cases :
    (r : Rings)
    → ((r.filled ≡ []) × (pop_filled r ≡ (r, none)))
      ⊎ ((c : Chunk) × (rest : List Chunk) × (r.filled ≡ c ∷ rest)
          × (pop_filled r ≡ (record r { filled = rest }, some c)))
unfolding pop_filled
pop_filled_cases r = go r.filled refl
  where
    go :
        (l : List Chunk)
        → r.filled ≡ l
        → ((r.filled ≡ []) × (pop_filled r ≡ (r, none)))
          ⊎ ((c : Chunk) × (rest : List Chunk) × (r.filled ≡ c ∷ rest)
              × (pop_filled r ≡ (record r { filled = rest }, some c)))
    go [] e = inl (e, ground arith)
    go (c ∷ rest) e = inr (c, rest, e, ground arith)
