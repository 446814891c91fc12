-- ===== src/Format.antt =====
-- crates/b2c-engine/src/fmt.rs: sizes that are read from text.
pub mod Units
use b2c_fast_copy.Base.{
  ℕ, ◌+◌, ◌*◌, ◌/◌, ◌%◌, ◌^◌, Bool, true, false, ◌||◌, ◌&&◌, Option, none, some, List, [], ◌∷◌, leb,
  ltb, ◌==◌, if◌then◌else◌,
}

-- What is used of f64: `str::parse`, the cast of a u64 and the cast to it, products and the order.
pub record Numeral (F : Type 0) : Type 0 where
  pub parse : List ℕ → Option F
  pub of_nat : ℕ → F
  pub to_u64 : F → ℕ
  pub mul : F → F → F
  pub less : F → F → Bool

-- `char::is_whitespace`
abbrev pub is_space : ℕ → Bool
is_space c =
    leb 9 c && leb c 13
    || c == 32
    || c == 0x85
    || c == 0xA0
    || c == 0x1680
    || leb 0x2000 c && leb c 0x200A
    || c == 0x2028
    || c == 0x2029
    || c == 0x202F
    || c == 0x205F
    || c == 0x3000

abbrev pub trim_start : List ℕ → List ℕ
trim_start [] = []
trim_start (c ∷ cs) = let rest = trim_start cs in if is_space c then rest else c ∷ cs

-- A character before what is left of the text after it.
abbrev pub keep_char : ℕ → List ℕ → List ℕ
keep_char c [] = if is_space c then [] else c ∷ []
keep_char c (d ∷ ds) = c ∷ d ∷ ds

abbrev pub trim_end : List ℕ → List ℕ
trim_end [] = []
trim_end (c ∷ cs) = keep_char c (trim_end cs)

abbrev pub trim : List ℕ → List ℕ
trim text = trim_end (trim_start text)

abbrev pub unsnoc : ℕ → List ℕ → List ℕ × ℕ
unsnoc c [] = ([], c)
unsnoc c (d ∷ ds) = let (front, last) = unsnoc d ds in (c ∷ front, last)

-- All but the last character, and the last.
abbrev pub split_last : List ℕ → Option (List ℕ × ℕ)
split_last [] = none
split_last (c ∷ cs) = some (unsnoc c cs)

-- The exponent of a unit: `K`, `M`, `G` and `T`, in upper or lower case.
unfoldable pub unit_of : ℕ → Option ℕ
unit_of c =
    if c == 75 || c == 107
    then some 10
    else if c == 77 || c == 109
    then some 20
    else if c == 71 || c == 103
    then some 30
    else if c == 84 || c == 116
    then some 40
    else none

-- `Result<u64, String>`, with the three messages.
pub data Size : Type 0 where
  size : ℕ → Size
  empty bad negative : Size

module _ {F : Type 0} (nu : Numeral F) where
  unfoldable pub number : (text : List ℕ) → (unit : ℕ) → Size
  number text unit = elim (nu.parse (trim text)) [
    | none ↦ bad
    | some n ↦
        if nu.less n (nu.of_nat 0) then negative else size (nu.to_u64 (nu.mul n (nu.of_nat unit)))
  ]

  unfoldable pub parse_size : List ℕ → Size
  parse_size text = elim (split_last (trim text)) [
    | none ↦ empty
    | some (front, last) ↦ elim (unit_of last) [
      | none ↦ number (trim text) 1
      | some k ↦ number front (2 ^ k)
    ]
  ]
