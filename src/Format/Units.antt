-- ===== src/Format/Units.antt =====
-- A number with a unit stands for the product.
use b2c_fast_copy.Base.{
  ℕ, ◌*◌, ◌^◌, ◌≤◌, ◌<◌, ◌≡◌, refl, ap, ◌∙◌, false, some, zero, suc, get_elem?, List, [], ◌∷◌, ◌++◌,
  arith, All, All-append,
}
use b2c_fast_copy.Format.{
  Numeral, is_space, trim_start, trim_end, trim, keep_char, unsnoc, split_last, unit_of, size,
  number, parse_size,
}

-- `0` to `9`
abbrev pub IsDigit : ℕ → Type 0
IsDigit c = (48 ≤ c) × (c ≤ 57)

-- A text of digits that stands for a number, and what is relied on for it: it is read exactly, it is not
-- negative, and a product below 2 ^ 53 is exact.
pub record IsExact {F : Type 0} (nu : Numeral F) (digits : List ℕ) (n : ℕ) : Type 0 where
  pub digit : All IsDigit digits
  pub parsed : nu.parse digits ≡ some (nu.of_nat n)
  pub not_negative : nu.less (nu.of_nat n) (nu.of_nat 0) ≡ false
  pub product : (m : ℕ) → n * m < 2 ^ 53 → nu.to_u64 (nu.mul (nu.of_nat n) (nu.of_nat m)) ≡ n * m

abbrev IsInk : ℕ → Type 0
IsInk c = is_space c ≡ false

digit-IsInk : (c : ℕ) → IsDigit c → IsInk c
digit-IsInk c (lo, hi) = ground arith

digits-IsInk : (cs : List ℕ) → All IsDigit cs → All IsInk cs
digits-IsInk [] h = tt
digits-IsInk (c ∷ cs) h = (digit-IsInk c h.0, digits-IsInk cs h.1)

unit_of-IsInk : (c k : ℕ) → unit_of c ≡ some k → IsInk c
unfolding unit_of
unit_of-IsInk c k h = ground (arith, h)

trim_start-IsInk : (cs : List ℕ) → All IsInk cs → trim_start cs ≡ cs
trim_start-IsInk [] h = refl
trim_start-IsInk (c ∷ cs) h = rw (h.0) refl

trim_end-IsInk : (cs : List ℕ) → All IsInk cs → trim_end cs ≡ cs
trim_end-IsInk [] h = refl
trim_end-IsInk (c ∷ []) h = rw (h.0) refl
trim_end-IsInk (c ∷ d ∷ ds) h = ap (keep_char c) (trim_end-IsInk (d ∷ ds) h.1)

trim-IsInk : (cs : List ℕ) → All IsInk cs → trim cs ≡ cs
trim-IsInk cs h = ap trim_end (trim_start-IsInk cs h) ∙ trim_end-IsInk cs h

unsnoc-append : (d : ℕ) (ds : List ℕ) (c : ℕ) → unsnoc d (ds ++ c ∷ []) ≡ (d ∷ ds, c)
unsnoc-append d [] c = refl
unsnoc-append d (e ∷ es) c = ap (λ (p : List ℕ × ℕ). (d ∷ p.0, p.1)) (unsnoc-append e es c)

split_last-append : (cs : List ℕ) (c : ℕ) → split_last (cs ++ c ∷ []) ≡ some (cs, c)
split_last-append [] c = refl
split_last-append (d ∷ ds) c = ap some (unsnoc-append d ds c)

-- The letters and what they stand for: `K` and `k`, `M` and `m`, `G` and `g`, `T` and `t`, each 1024
-- times the one before.
abbrev pub units : List (ℕ × ℕ)
units =
    (75, 1024)
    ∷ (107, 1024)
    ∷ (77, 1024 * 1024)
    ∷ (109, 1024 * 1024)
    ∷ (71, 1024 * 1024 * 1024)
    ∷ (103, 1024 * 1024 * 1024)
    ∷ (84, 1024 * 1024 * 1024 * 1024)
    ∷ (116, 1024 * 1024 * 1024 * 1024)
    ∷ []

unit_of-units :
    (i letter unit : ℕ)
    → get_elem? units i ≡ some (letter, unit)
    → (k : ℕ) × (unit_of letter ≡ some k) × (2 ^ k ≡ unit)
unfolding unit_of
unit_of-units zero letter unit e =
    let a : 75 ≡ letter = cc in let b : 1024 ≡ unit = cc in rw (← a, ← b) (10, refl, refl)
unit_of-units (suc zero) letter unit e =
    let a : 107 ≡ letter = cc in let b : 1024 ≡ unit = cc in rw (← a, ← b) (10, refl, refl)
unit_of-units (suc (suc zero)) letter unit e =
    let a : 77 ≡ letter = cc in let b : 1024 * 1024 ≡ unit = cc in rw (← a, ← b) (20, refl, refl)
unit_of-units (suc (suc (suc zero))) letter unit e =
    let a : 109 ≡ letter = cc in let b : 1024 * 1024 ≡ unit = cc in rw (← a, ← b) (20, refl, refl)
unit_of-units (suc (suc (suc (suc zero)))) letter unit e =
    let a : 71 ≡ letter = cc in
    let b : 1024 * 1024 * 1024 ≡ unit = cc in rw (← a, ← b) (30, refl, refl)
unit_of-units (suc (suc (suc (suc (suc zero))))) letter unit e =
    let a : 103 ≡ letter = cc in
    let b : 1024 * 1024 * 1024 ≡ unit = cc in rw (← a, ← b) (30, refl, refl)
unit_of-units (suc (suc (suc (suc (suc (suc zero)))))) letter unit e =
    let a : 84 ≡ letter = cc in
    let b : 1024 * 1024 * 1024 * 1024 ≡ unit = cc in rw (← a, ← b) (40, refl, refl)
unit_of-units (suc (suc (suc (suc (suc (suc (suc zero))))))) letter unit e =
    let a : 116 ≡ letter = cc in
    let b : 1024 * 1024 * 1024 * 1024 ≡ unit = cc in rw (← a, ← b) (40, refl, refl)
unit_of-units (suc (suc (suc (suc (suc (suc (suc (suc i)))))))) letter unit e = absurd (cc)

-- Digits with a unit letter behind them are read as the number times the unit in `units`, as long as
-- that is below 2 ^ 53 and f64 `IsExact` on the number.
pub parse_size-units :
    {F : Type 0} (nu : Numeral F) (digits : List ℕ) (n i letter unit : ℕ)
    → IsExact nu digits n
    → get_elem? units i ≡ some (letter, unit)
    → n * unit < 2 ^ 53
    → parse_size nu (digits ++ letter ∷ []) ≡ size (n * unit)
unfolding parse_size number
parse_size-units nu digits n i letter unit exact listed small =
    let (k, read, means) = unit_of-units i letter unit listed in
    let ink = digits-IsInk digits exact.digit in
    let whole =
      trim-IsInk (digits ++ letter ∷ [])
        (All-append IsInk digits (letter ∷ []) ink (unit_of-IsInk letter k read, tt)) in
    rw
      (
        parse_size,
        whole,
        split_last-append digits letter,
        read,
        number,
        trim-IsInk digits ink,
        exact.parsed,
        exact.not_negative,
        exact.product (2 ^ k) (rw means small),
        means,
      )
      refl
