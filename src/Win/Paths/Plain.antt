-- ===== src/Win/Paths/Plain.antt =====
-- What `is_canonical` rules out, said without splitting the text.
use b2c_fast_copy.Base.{
  ℕ, ◌≡◌, ◌≢◌, refl, ap, subst, ◌∙◌, inl, inr, Bool, true, false, List, [], ◌∷◌, ◌++◌, arith, ◌==◌,
  All, All-append, Bool-cases, drop,
}
use b2c_fast_copy.Win.Paths.{backslash, has_slash, split_from, is_dots, good_parts, is_canonical}

-- A text with no slash that, after its first two characters, has no part `.` or `..` between backslashes,
-- its ends counting as backslashes, and no two backslashes in a row.
pub record IsPlain (text : List ℕ) : Type 0 where
  pub no_slash : All (λ (c : ℕ). c ≢ 47) text
  pub no_dot : (front back : List ℕ) → 92 ∷ drop 2 text ++ 92 ∷ [] ≢ front ++ 92 ∷ 46 ∷ 92 ∷ back
  pub no_dots :
      (front back : List ℕ) → 92 ∷ drop 2 text ++ 92 ∷ [] ≢ front ++ 92 ∷ 46 ∷ 46 ∷ 92 ∷ back
  pub no_double : (front back : List ℕ) → drop 2 text ≢ front ++ 92 ∷ 92 ∷ back

split_from-append :
    (part front rest : List ℕ)
    → split_from part (front ++ 92 ∷ rest) ≡ split_from part front ++ split_from [] rest
split_from-append part [] rest = refl
split_from-append part (c ∷ cs) rest = elim (Bool-cases (c == backslash)) [
  | inl cut ↦ rw cut (ap (λ (ps : List (List ℕ)). part ∷ ps) (split_from-append [] cs rest))
  | inr kept ↦ rw kept (split_from-append (part ++ c ∷ []) cs rest)
]

-- A split has a first part.
split_from_first :
    (part text : List ℕ) → (p : List ℕ) × (ps : List (List ℕ)) × (split_from part text ≡ p ∷ ps)
split_from_first part [] = (part, [], refl)
split_from_first part (c ∷ cs) = elim (Bool-cases (c == backslash)) [
  | inl cut ↦ (part, split_from [] cs, rw cut refl)
  | inr kept ↦ rw kept (split_from_first (part ++ c ∷ []) cs)
]

abbrev IsNamed : List ℕ → Type 0
IsNamed p = is_dots p ≡ false

good_parts-IsNamed :
    (leading : Bool) (ps : List (List ℕ)) → good_parts leading ps ≡ true → All IsNamed ps
good_parts-IsNamed leading [] h = tt
good_parts-IsNamed leading (p ∷ []) h = (ground arith, tt)
good_parts-IsNamed leading (p ∷ q ∷ ps) h =
    (ground arith, good_parts-IsNamed false (q ∷ ps) (ground arith))

-- After a first part, good parts end with good parts.
good_parts_rest :
    (leading : Bool) (p : List ℕ) (ps : List (List ℕ)) (q : List ℕ) (qs : List (List ℕ))
    → good_parts leading (p ∷ ps ++ q ∷ qs) ≡ true
    → good_parts false (q ∷ qs) ≡ true
good_parts_rest leading p [] q qs h = ground arith
good_parts_rest leading p (r ∷ ps) q qs h = good_parts_rest false r ps q qs (ground arith)

All-split :
    (P : List ℕ → Type 0) (xs : List (List ℕ)) (y : List ℕ) (ys : List (List ℕ))
    → All P (xs ++ y ∷ ys)
    → P y
All-split P [] y ys h = h.0
All-split P (x ∷ xs) y ys h = All-split P xs y ys h.1

no_slash_lem : (text : List ℕ) → has_slash text ≡ false → All (λ (c : ℕ). c ≢ 47) text
no_slash_lem [] h = tt
no_slash_lem (c ∷ cs) h = (λ e. absurd (ground arith), no_slash_lem cs (ground arith))

module _ (text : List ℕ) (good : good_parts true (split_from [] (drop 2 text)) ≡ true) where
  -- Every part of the text between backslashes is neither `.` nor `..`.
  parts-IsNamed : All IsNamed (split_from [] (92 ∷ drop 2 text ++ 92 ∷ []))
  parts-IsNamed = (
    refl,
    rw (split_from-append [] (drop 2 text) []) (
        All-append IsNamed (split_from [] (drop 2 text)) ([] ∷ []) (good_parts-IsNamed true _ good)
          (refl, tt)),
  )

  -- What begins after a backslash begins a part.
  part-IsNamed :
      (front rest p : List ℕ) (ps : List (List ℕ))
      → split_from [] rest ≡ p ∷ ps
      → 92 ∷ drop 2 text ++ 92 ∷ [] ≡ front ++ 92 ∷ rest
      → is_dots p ≡ false
  part-IsNamed front rest p ps first e = All-split IsNamed (split_from [] front) p ps (
      subst (All IsNamed)
        (ap (split_from []) e
          ∙ split_from-append [] front rest
          ∙ ap (λ (qs : List (List ℕ)). split_from [] front ++ qs) first)
        parts-IsNamed)

  no_double_lem : (front back : List ℕ) → drop 2 text ≢ front ++ 92 ∷ 92 ∷ back
  no_double_lem front back e =
      let (p, ps, first) = split_from_first [] front in
      let (q, qs, last) = split_from_first [] back in
      let bad = rw (e, split_from-append [] front (92 ∷ back), first, last) at good in
      let worse = good_parts_rest true p ps [] (q ∷ qs) bad in absurd (cc)

pub is_canonical-IsPlain : (text : List ℕ) → is_canonical text ≡ true → IsPlain text
unfolding is_canonical
is_canonical-IsPlain text h =
    let slashless : has_slash text ≡ false = ground arith in
    let good : good_parts true (split_from [] (drop 2 text)) ≡ true = rw slashless at h in
    record {
      no_slash = no_slash_lem text slashless;
      no_dot = λ front back e.
          let named = part-IsNamed text good front _ (46 ∷ []) (split_from [] back) refl e in cc;
      no_dots = λ front back e.
          let named = part-IsNamed text good front _ (46 ∷ 46 ∷ []) (split_from [] back) refl e in
          cc;
      no_double = no_double_lem text good;
    }
