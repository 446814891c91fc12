-- ===== src/Base/Sums.antt =====
-- Weights added up over a list.
use Prim.Native.Nat.{ℕ, zero, suc, ◌+◌, ◌≤◌, ◌<◌}
use mathlib.Core.Path.{◌≡◌, refl}
use mathlib.Core.List.{List, [], ◌∷◌, ◌++◌}
use mathlib.Core.Option.{some}
use native.Mathlib.Omega.{arith}
use native.Mathlib.Decide.{dec_lt}
use b2c_fast_copy.Base.Lists.{get_elem?, set, length}

module _ {ℓ} {A : Type ℓ} (w : A → ℕ) where
  abbrev pub total : List A → ℕ
  total [] = 0
  total (x ∷ xs) = w x + total xs

  pub total-append : (xs ys : List A) → total (xs ++ ys) ≡ total xs + total ys
  total-append [] ys = omega arith
  total-append (x ∷ xs) ys = omega (arith, total-append xs ys)

  pub total-set :
      (xs : List A) (i : ℕ) (x v : A)
      → get_elem? xs i ≡ some x
      → total (set xs i v) + w x ≡ total xs + w v
  total-set [] i x v h = absurd (cc)
  total-set (y ∷ ys) zero x v h = ground arith
  total-set (y ∷ ys) (suc i) x v h = omega (arith, total-set ys i x v h)

  pub le-total : (xs : List A) (i : ℕ) (x : A) → get_elem? xs i ≡ some x → w x ≤ total xs
  le-total [] i x h = absurd (cc)
  le-total (y ∷ ys) zero x h = ground arith
  le-total (y ∷ ys) (suc i) x h = omega (arith, le-total ys i x h)

pub total_cong {ℓ} :
    {A : Type ℓ} (w v : A → ℕ) → ((x : A) → w x ≡ v x) → (xs : List A) → total w xs ≡ total v xs
total_cong w v same [] = refl
total_cong w v same (x ∷ xs) = omega (arith, same x, total_cong w v same xs)

-- Two entries of a list weigh no more than the whole.
pub two-le-total {ℓ} :
    {A : Type ℓ} (w : A → ℕ) (xs : List A) (i j : ℕ) (x y : A)
    → i < j
    → get_elem? xs i ≡ some x
    → get_elem? xs j ≡ some y
    → w x + w y ≤ total w xs
two-le-total w [] i j x y lt ex ey = absurd (cc)
two-le-total w (z ∷ zs) i zero x y lt ex ey = absurd (omega arith)
two-le-total w (z ∷ zs) zero (suc j) x y lt ex ey =
    let e : w z ≡ w x = cc in omega (arith, le-total w zs j y ey)
two-le-total w (z ∷ zs) (suc i) (suc j) x y lt ex ey =
    omega (arith, two-le-total w zs i j x y (omega arith) ex ey)

-- Weights that are smaller one by one.
pub total_mono {ℓ} :
    {A : Type ℓ} (v w : A → ℕ) (xs : List A) → ((x : A) → v x ≤ w x) → total v xs ≤ total w xs
total_mono v w [] h = omega arith
total_mono v w (x ∷ xs) h = omega (arith, h x, total_mono v w xs h)

pub total-le-length {ℓ} :
    {A : Type ℓ} (w : A → ℕ) (xs : List A) → ((x : A) → w x ≤ 1) → total w xs ≤ length xs
total-le-length w [] h = omega arith
total-le-length w (x ∷ xs) h = omega (arith, h x, total-le-length w xs h)

-- A total that is not 0 has an entry that is not.
pub total-pos {ℓ} :
    {A : Type ℓ} (w : A → ℕ) (xs : List A)
    → 0 < total w xs
    → (i : ℕ) × (x : A) × (get_elem? xs i ≡ some x) × (0 < w x)
total-pos w [] h = absurd (omega (arith, h))
total-pos w (x ∷ xs) h = elim (dec_lt 0 (w x)) [
  | yes pos ↦ (0, x, refl, pos)
  | no none ↦ let (i, y, at, pos) = total-pos w xs (omega (arith, h, none)) in (suc i, y, at, pos)
]
