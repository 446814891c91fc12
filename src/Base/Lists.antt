-- ===== src/Base/Lists.antt =====
-- Lists measured and indexed by native numbers, under the library's names.
use Prim.Native.Nat.{ℕ, zero, suc, ◌+◌, ◌<◌}
use mathlib.Core.Path.{◌≡◌, refl, ap, subst}
use mathlib.Core.Logic.{◌≢◌, ◌⊎◌, inl, inr}
use mathlib.Core.List.{List, [], ◌∷◌, ◌++◌}
use mathlib.Core.Option.{Option, none, some}
use mathlib.Core.Bool.{Bool, true, false, ◌&&◌}
use native.Mathlib.Omega.{arith}
use b2c_fast_copy.Base.Tests.{◌==◌}

module _ {ℓ} {A : Type ℓ} where
  abbrev pub length : List A → ℕ
  length [] = 0
  length (x ∷ xs) = suc (length xs)

  abbrev pub get_elem? : List A → ℕ → Option A
  get_elem? [] i = none
  get_elem? (x ∷ xs) zero = some x
  get_elem? (x ∷ xs) (suc i) = get_elem? xs i

  -- A write out of bounds changes nothing.
  abbrev pub set : List A → ℕ → A → List A
  set [] i v = []
  set (x ∷ xs) zero v = v ∷ xs
  set (x ∷ xs) (suc i) v = x ∷ set xs i v

  abbrev pub drop : ℕ → List A → List A
  drop zero xs = xs
  drop (suc n) [] = []
  drop (suc n) (x ∷ xs) = drop n xs

  pub length-append : (xs ys : List A) → length (xs ++ ys) ≡ length xs + length ys
  length-append [] ys = omega arith
  length-append (x ∷ xs) ys = omega (arith, length-append xs ys)

  pub length-set : (xs : List A) (i : ℕ) (v : A) → length (set xs i v) ≡ length xs
  length-set [] i v = refl
  length-set (x ∷ xs) zero v = refl
  length-set (x ∷ xs) (suc i) v = ap suc (length-set xs i v)

  -- What stands at the cursor, and what is left after it.
  pub drop-get_elem? :
      (xs : List A) (n : ℕ) (x : A) → get_elem? xs n ≡ some x → drop n xs ≡ x ∷ drop (suc n) xs
  drop-get_elem? [] n x h = cc
  drop-get_elem? (y ∷ ys) zero x h = cc
  drop-get_elem? (y ∷ ys) (suc n) x h = drop-get_elem? ys n x h

  pub drop_end : (xs : List A) (n : ℕ) → get_elem? xs n ≡ none → drop n xs ≡ []
  drop_end [] zero h = refl
  drop_end [] (suc n) h = refl
  drop_end (y ∷ ys) zero h = cc
  drop_end (y ∷ ys) (suc n) h = drop_end ys n h

  -- The cursor moves on by one.
  pub drop_past : (xs : List A) (n : ℕ) → drop n xs ≡ [] → drop (n + 1) xs ≡ []
  drop_past xs n h = let e : n + 1 ≡ suc n = omega arith in rw e (go xs n h)
    where
      go : (ys : List A) (m : ℕ) → drop m ys ≡ [] → drop (suc m) ys ≡ []
      go [] zero g = refl
      go [] (suc m) g = refl
      go (y ∷ ys) zero g = cc
      go (y ∷ ys) (suc m) g = go ys m g

  pub drop_next :
      (xs : List A) (n : ℕ) (x : A) → get_elem? xs n ≡ some x → drop n xs ≡ x ∷ drop (n + 1) xs
  drop_next xs n x h = let e : n + 1 ≡ suc n = omega arith in rw e (drop-get_elem? xs n x h)

-- A predicate by recursion computes to tuples, which the tactics read and build.
module _ {ℓ κ} {A : Type ℓ} (P : A → Type κ) where
  abbrev pub All : List A → Type κ
  All [] = Unit
  All (x ∷ xs) = P x × All xs

  pub All-append : (xs ys : List A) → All xs → All ys → All (xs ++ ys)
  All-append [] ys hx hy = hy
  All-append (x ∷ xs) ys hx hy = (hx.0, All-append xs ys hx.1 hy)

  pub All-get_elem? : (xs : List A) (i : ℕ) (x : A) → All xs → get_elem? xs i ≡ some x → P x
  All-get_elem? [] i x h e = absurd (cc)
  All-get_elem? (y ∷ ys) zero x h e = let q : y ≡ x = cc in subst P q h.0
  All-get_elem? (y ∷ ys) (suc i) x h e = All-get_elem? ys i x h.1 e

  pub All-set : (xs : List A) (i : ℕ) (v : A) → All xs → P v → All (set xs i v)
  All-set [] i v h p = h
  All-set (x ∷ xs) zero v h p = (p, h.1)
  All-set (x ∷ xs) (suc i) v h p = (h.0, All-set xs i v h.1 p)

module _ {ℓ} {A : Type ℓ} where
  pub get_elem?-set : (xs : List A) (i : ℕ) (v x : A) → get_elem? (set xs i v) i ≡ some x → x ≡ v
  get_elem?-set [] i v x e = absurd (cc)
  get_elem?-set (y ∷ ys) zero v x e = cc
  get_elem?-set (y ∷ ys) (suc i) v x e = get_elem?-set ys i v x e

  pub get_elem?-set_here :
      (xs : List A) (i : ℕ) (v x : A) → get_elem? xs i ≡ some x → get_elem? (set xs i v) i ≡ some v
  get_elem?-set_here [] i v x e = absurd (cc)
  get_elem?-set_here (y ∷ ys) zero v x e = refl
  get_elem?-set_here (y ∷ ys) (suc i) v x e = get_elem?-set_here ys i v x e

  pub get_elem?-set_other :
      (xs : List A) (i j : ℕ) (v : A) → i ≢ j → get_elem? (set xs i v) j ≡ get_elem? xs j
  get_elem?-set_other [] i j v ne = refl
  get_elem?-set_other (y ∷ ys) zero zero v ne = absurd (ne refl)
  get_elem?-set_other (y ∷ ys) zero (suc j) v ne = refl
  get_elem?-set_other (y ∷ ys) (suc i) zero v ne = refl
  get_elem?-set_other (y ∷ ys) (suc i) (suc j) v ne =
      get_elem?-set_other ys i j v (λ e. ne (ap suc e))

  pub get_elem?-lt : (xs : List A) (i : ℕ) → i < length xs → (x : A) × (get_elem? xs i ≡ some x)
  get_elem?-lt [] i lt = absurd (omega arith)
  get_elem?-lt (x ∷ xs) zero lt = (x, refl)
  get_elem?-lt (x ∷ xs) (suc i) lt = get_elem?-lt xs i (omega arith)

  pub get_elem?-le : (xs : List A) (i : ℕ) (x : A) → get_elem? xs i ≡ some x → i < length xs
  get_elem?-le [] i x e = absurd (cc)
  get_elem?-le (y ∷ ys) zero x e = omega arith
  get_elem?-le (y ∷ ys) (suc i) x e = omega (arith, get_elem?-le ys i x e)

-- Equality of texts and byte sequences.
abbrev pub list_eq : List ℕ → List ℕ → Bool
list_eq [] [] = true
list_eq [] (y ∷ ys) = false
list_eq (x ∷ xs) [] = false
list_eq (x ∷ xs) (y ∷ ys) = x == y && list_eq xs ys

pub list_eq_sound : (p q : List ℕ) → list_eq p q ≡ true → p ≡ q
list_eq_sound [] [] h = refl
list_eq_sound [] (y ∷ ys) h = cc
list_eq_sound (x ∷ xs) [] h = cc
list_eq_sound (x ∷ xs) (y ∷ ys) h = ground (arith, list_eq_sound xs ys)

pub list_eq_refl : (p : List ℕ) → list_eq p p ≡ true
list_eq_refl [] = refl
list_eq_refl (x ∷ xs) = ground (arith, list_eq_refl xs)

module _ {ℓ} {A : Type ℓ} where
  pub append-eq_nil : (xs ys : List A) → xs ++ ys ≡ [] → (xs ≡ []) × (ys ≡ [])
  append-eq_nil [] ys e = (refl, e)
  append-eq_nil (x ∷ xs) ys e = absurd (cc)

  pub nil_of_length : (xs : List A) → length xs ≡ 0 → xs ≡ []
  nil_of_length [] e = refl
  nil_of_length (x ∷ xs) e = absurd (omega arith)

  -- What stands in two lists put together.
  pub get_elem?-append_left :
      (xs ys : List A) (i : ℕ) (x : A) → get_elem? xs i ≡ some x → get_elem? (xs ++ ys) i ≡ some x
  get_elem?-append_left [] ys i x e = absurd (cc)
  get_elem?-append_left (z ∷ zs) ys zero x e = e
  get_elem?-append_left (z ∷ zs) ys (suc i) x e = get_elem?-append_left zs ys i x e

  pub get_elem?-append_right :
      (xs ys : List A) (i : ℕ) → get_elem? (xs ++ ys) (length xs + i) ≡ get_elem? ys i
  get_elem?-append_right [] ys i = let e : 0 + i ≡ i = omega arith in rw e refl
  get_elem?-append_right (z ∷ zs) ys i =
      let e : suc (length zs) + i ≡ suc (length zs + i) = omega arith in
      rw e (get_elem?-append_right zs ys i)

  pub get_elem?-append_cases :
      (xs ys : List A) (i : ℕ) (x : A)
      → get_elem? (xs ++ ys) i ≡ some x
      → (get_elem? xs i ≡ some x) ⊎ ((j : ℕ) × (get_elem? ys j ≡ some x))
  get_elem?-append_cases [] ys i x e = inr (i, e)
  get_elem?-append_cases (z ∷ zs) ys zero x e = inl e
  get_elem?-append_cases (z ∷ zs) ys (suc i) x e = get_elem?-append_cases zs ys i x e

-- The lists of a list, one after the other.
abbrev pub flat {ℓ} : {A : Type ℓ} → List (List A) → List A
flat [] = []
flat (xs ∷ xss) = xs ++ flat xss

pub All-of {ℓ κ} :
    {A : Type ℓ} (P : A → Type κ) (xs : List A)
    → ((i : ℕ) (x : A) → get_elem? xs i ≡ some x → P x)
    → All P xs
All-of P [] h = tt
All-of P (x ∷ xs) h = (h 0 x refl, All-of P xs (λ i y at. h (suc i) y at))
