-- ===== src/Cli/Json.antt =====
-- The errors in `json_summary` of crates/b2c-cli/src/main.rs, and how JSON reads them.
use b2c_fast_copy.Base.{
  ℕ, zero, suc, ◌≤◌, ◌≡◌, inl, inr, refl, ap, ◌∙◌, Bool, true, false, not, ◌&&◌, ◌||◌, Option, none,
  some, List, [], ◌∷◌, ◌++◌, map, arith, length, ltb, ◌==◌, if◌then◌else◌, All, Bool-cases,
}
use mathlib.Core.Option
use mathlib.Core.List.{append_assoc}

-- `"`, `\`, `,` and `]`
abbrev quote : ℕ
quote = 34

abbrev backslash : ℕ
backslash = 92

abbrev comma : ℕ
comma = 44

abbrev bracket : ℕ
bracket = 93

-- `str::replace` of a character.
abbrev pub replace : (from : ℕ) → (to : List ℕ) → List ℕ → List ℕ
replace from to [] = []
replace from to (c ∷ cs) = (if c == from then to else c ∷ []) ++ replace from to cs

abbrev pub escape : List ℕ → List ℕ
escape e = replace quote (backslash ∷ quote ∷ []) (replace backslash (backslash ∷ backslash ∷ []) e)

abbrev take : {A : Type 0} → ℕ → List A → List A
take zero xs = []
take (suc n) [] = []
take (suc n) (x ∷ xs) = x ∷ take n xs

abbrev quoted : List ℕ → List ℕ
quoted e = quote ∷ escape e ++ quote ∷ []

-- `join(",")`
abbrev join : List (List ℕ) → List ℕ
join [] = []
join (x ∷ []) = x
join (x ∷ y ∷ ys) = x ++ comma ∷ join (y ∷ ys)

-- The errors between the brackets of the summary: twenty at most.
unfoldable pub errors_json : List (List ℕ) → List ℕ
errors_json es = join (map quoted (take 20 es))

length-take : {A : Type 0} (n : ℕ) (xs : List A) → length (take n xs) ≤ n
length-take zero xs = omega arith
length-take (suc n) [] = omega arith
length-take (suc n) (x ∷ xs) = omega (arith, length-take n xs)

-- One more in front.
abbrev put {ℓ} : {A B : Type ℓ} → A → List A × B → List A × B
put a p = (a ∷ p.0, p.1)

-- A string of JSON after its first quotation mark, with the rest of the text: the grammar of RFC 8259 without the
-- escapes that stand for control characters. `escaped` tells that a backslash has just been read.
abbrev pub read_string : (escaped : Bool) → List ℕ → Option (List ℕ × List ℕ)
read_string escaped [] = none
read_string escaped (c ∷ cs) =
    let rest = read_string (not escaped && c == backslash) cs in
    let next = Option.map (put c) rest in
    if escaped
    then (if c == quote || c == backslash || c == 47 then next else none)
    else if c == quote
    then some ([], cs)
    else if c == backslash
    then rest
    else if ltb c 32
    then none
    else next

abbrev read_quoted : List ℕ → Option (List ℕ × List ℕ)
read_quoted [] = none
read_quoted (c ∷ cs) = if c == quote then read_string false cs else none

-- What stands behind an item: the end of the array, or a comma.
abbrev after_item : List ℕ → Option (Bool × List ℕ)
after_item [] = none
after_item (c ∷ cs) =
    if c == bracket then some (true, cs) else if c == comma then some (false, cs) else none

abbrev read_items : (fuel : ℕ) → List ℕ → Option (List (List ℕ) × List ℕ)
read_items zero text = none
read_items (suc fuel) text = elim (read_quoted text) [
  | none ↦ none
  | some (e, rest) ↦ elim (after_item rest) [
    | none ↦ none
    | some (last, after) ↦
        let more = read_items fuel after in
        if last then some (e ∷ [], after) else Option.map (put e) more
  ]
]

-- An array of strings after its first bracket, of at most `fuel` strings, with the rest of the text.
unfoldable pub read_array : (fuel : ℕ) → List ℕ → Option (List (List ℕ) × List ℕ)
read_array fuel [] = none
read_array fuel (c ∷ cs) = if c == bracket then some ([], cs) else read_items fuel (c ∷ cs)

abbrev pub IsPrintable : List ℕ → Type 0
IsPrintable e = All (λ (c : ℕ). 32 ≤ c) e

-- A string that was escaped is read back, up to the quotation mark that closes it.
read_string-escape :
    (e rest : List ℕ)
    → IsPrintable e
    → read_string false (escape e ++ quote ∷ rest) ≡ some (e, rest)
read_string-escape [] rest h = refl
read_string-escape (c ∷ cs) rest h =
    let ih = read_string-escape cs rest h.1 in
    elim (Bool-cases (c == backslash)) [
      | inl is ↦ let e : c ≡ 92 = ground (arith, is) in rw e (ap (Option.map (put 92)) ih)
      | inr plain ↦ elim (Bool-cases (c == quote)) [
        | inl is ↦ let e : c ≡ 34 = ground (arith, is) in rw e (ap (Option.map (put 34)) ih)
        | inr inner ↦
            let shown : ltb c 32 ≡ false = ground (arith, h.0) in
            rw (plain, inner) (rw (plain, inner, shown) (ap (Option.map (put c)) ih))
      ]
    ]

join-quoted :
    (e : List ℕ) (rest : List ℕ) → IsPrintable e → read_quoted (quoted e ++ rest) ≡ some (e, rest)
join-quoted e rest h =
    ap (read_string false) (append_assoc (escape e) (quote ∷ []) rest) ∙ read_string-escape e rest h

read_items-join :
    (fuel : ℕ) (e : List ℕ) (es : List (List ℕ)) (rest : List ℕ)
    → length (e ∷ es) ≤ fuel
    → All IsPrintable (e ∷ es)
    → read_items fuel (join (map quoted (e ∷ es)) ++ bracket ∷ rest) ≡ some (e ∷ es, rest)
read_items-join zero e es rest few h = absurd (omega (arith, few))
read_items-join (suc fuel) e [] rest few h =
    rw (read_items, join-quoted e (bracket ∷ rest) h.0) refl
read_items-join (suc fuel) e (f ∷ fs) rest few h =
    let tail = join (map quoted (f ∷ fs)) ++ bracket ∷ rest in
    let ih = read_items-join fuel f fs rest (omega (arith, few)) h.1 in
    let split : join (map quoted (e ∷ f ∷ fs)) ++ bracket ∷ rest ≡ quoted e ++ comma ∷ tail =
      append_assoc (quoted e) (comma ∷ join (map quoted (f ∷ fs))) (bracket ∷ rest) in
    ap (read_items (suc fuel)) split
    ∙ rw (read_items, join-quoted e (comma ∷ tail) h.0) (ap (Option.map (put e)) ih)

-- The errors in the summary, at most the first twenty, are read back from it by a JSON reader as they
-- were, if no error has a control character.
pub read_array-errors_json :
    (es : List (List ℕ)) (rest : List ℕ)
    → All IsPrintable (take 20 es)
    → read_array 20 (errors_json es ++ bracket ∷ rest) ≡ some (take 20 es, rest)
unfolding errors_json read_array
read_array-errors_json es rest h = by_items (take 20 es) (length-take 20 es) h
  where
    by_items :
        (xs : List (List ℕ))
        → length xs ≤ 20
        → All IsPrintable xs
        → read_array 20 (join (map quoted xs) ++ bracket ∷ rest) ≡ some (xs, rest)
    by_items [] few h = refl
    by_items (x ∷ []) few h = read_items-join 20 x [] rest few h
    by_items (x ∷ y ∷ ys) few h = read_items-join 20 x (y ∷ ys) rest few h
