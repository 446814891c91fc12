-- ===== src/Scanner/Glob/Reference.antt =====
-- What a pattern means, read from the left, and what the last star of a matcher stands for.
use b2c_fast_copy.Base.{
  ℕ, zero, suc, ◌≡◌, ◌≢◌, inl, inr, refl, sym, subst, ◌∙◌, Bool, true, false, ◌&&◌, ◌||◌, none,
  some, List, [], ◌∷◌, arith, ◌==◌, if◌then◌else◌, Bool-cases, ==_iff,
}
use b2c_fast_copy.Scanner.Glob.{star_char, any_char, only_stars, Star}

-- Some end of the text is accepted.
abbrev pub some_end : (List ℕ → Bool) → List ℕ → Bool
some_end f [] = f []
some_end f (c ∷ t) = f (c ∷ t) || some_end f t

-- The text starts with a character that `a` stands for, and the rest is accepted.
abbrev pub first : ℕ → (List ℕ → Bool) → List ℕ → Bool
first a f [] = false
first a f (c ∷ t) = (a == any_char || a == c) && f t

abbrev pub is_empty : List ℕ → Bool
is_empty [] = true
is_empty (c ∷ t) = false

-- A star stands for any characters, a question mark for one, and any other character for itself.
abbrev pub matches : List ℕ → List ℕ → Bool
matches [] t = is_empty t
matches (a ∷ p) t = if a == star_char then some_end (matches p) t else first a (matches p) t

-- What going back to the last star can still give.
abbrev pub retried : Star → Bool
retried none = false
retried (some (ps, [])) = false
retried (some (ps, m ∷ ms)) = some_end (matches ps) ms

-- The matcher has gone `n` characters past the star: from `ps` and `ms` to `p` and `t`, with no star
-- between.
abbrev pub Behind : ℕ → (ps ms p t : List ℕ) → Type 0
Behind zero ps ms p t = (ps ≡ p) × (ms ≡ t)
Behind (suc n) ps ms p t =
    (a : ℕ) × (ps' : List ℕ) × (m : ℕ) × (ms' : List ℕ) × (ps ≡ a ∷ ps')
    × (ms ≡ m ∷ ms')
    × (a ≢ star_char)
    × Behind n ps' ms' p t

pub Behind-step :
    (n : ℕ) (ps ms p t : List ℕ) (a c : ℕ)
    → a ≢ star_char
    → Behind n ps ms (a ∷ p) (c ∷ t)
    → Behind (suc n) ps ms p t
Behind-step zero ps ms p t a c plain (e, e') = (a, p, c, t, e, e', plain, (refl, refl))
Behind-step (suc n) ps ms p t a c plain (x, ps', m, ms', e, e', plain', rest) =
    (x, ps', m, ms', e, e', plain', Behind-step n ps' ms' p t a c plain rest)

pub matches-nothing : (p : List ℕ) → matches p [] ≡ only_stars p
matches-nothing [] = refl
matches-nothing (a ∷ p) = ground (arith, matches-nothing p)

some_end-twice :
    (f : List ℕ → Bool) (t : List ℕ) → some_end (some_end f) t ≡ true → some_end f t ≡ true
some_end-twice f [] h = h
some_end-twice f (c ∷ t) h = ground (arith, some_end-twice f t)

some_end-first :
    (a : ℕ) (f : List ℕ → Bool) (m : ℕ) (ms : List ℕ)
    → some_end (first a f) (m ∷ ms) ≡ true
    → some_end f ms ≡ true
some_end-first a f m [] h = ground arith
some_end-first a f m (c ∷ ms) h = ground (arith, some_end-first a f c ms)

false_not_true : false ≢ true
false_not_true e = cc

matches_plain : (a : ℕ) (p : List ℕ) → a ≢ star_char → matches (a ∷ p) ≡ first a (matches p)
matches_plain a p plain = elim (Bool-cases (a == star_char)) [
  | inl e ↦ absurd (plain ((==_iff a star_char).0 e))
  | inr e ↦ λ i t.
      (subst
          (λ b.
            (if b then some_end (matches p) t else first a (matches p) t) ≡ first a (matches p) t)
          (sym e) refl)
        i
]

-- An older star gives nothing that a newer one does not.
pub newer_star :
    (n : ℕ) (ps ms p t : List ℕ)
    → Behind n ps ms (star_char ∷ p) t
    → some_end (matches ps) ms ≡ true
    → some_end (matches p) t ≡ true
newer_star zero ps ms p t (e, e') h = some_end-twice (matches p) t (
    subst (λ q. some_end (matches q) t ≡ true) e (subst (λ q. some_end (matches ps) q ≡ true) e' h))
newer_star (suc n) ps ms p t (a, ps', m, ms', e, e', plain, rest) h =
    newer_star n ps' ms' p t rest (
      some_end-first a (matches ps') m ms' (
        subst (λ f. some_end f (m ∷ ms') ≡ true) (matches_plain a ps' plain)
          (subst (λ q. some_end (matches q) (m ∷ ms') ≡ true) e
            (subst (λ q. some_end (matches ps) q ≡ true) e' h))))

-- At the end of the text going back gives nothing.
pub no_retry : (n : ℕ) (ps ms p : List ℕ) → Behind n ps ms p [] → retried (some (ps, ms)) ≡ false
no_retry zero ps ms p (e, e') = rw e' refl
no_retry (suc n) ps ms p (a, ps', m, ms', e, e', plain, rest) =
    subst (λ q. retried (some (q, ms)) ≡ false) (sym e)
      (subst (λ q. retried (some (a ∷ ps', q)) ≡ false) (sym e')
        (subst (λ f. some_end f ms' ≡ false) (sym (matches_plain a ps' plain))
          (go ms' (no_retry n ps' ms' p rest))))
  where
    go :
        (xs : List ℕ)
        → retried (some (ps', xs)) ≡ false
        → some_end (first a (matches ps')) xs ≡ false
    go [] h = refl
    go (x ∷ xs) h = elim (Bool-cases (some_end (first a (matches ps')) (x ∷ xs))) [
      | inl yes_some ↦
          absurd (false_not_true (sym h ∙ some_end-first a (matches ps') x xs yes_some))
      | inr e ↦ e
    ]
