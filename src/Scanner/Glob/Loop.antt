-- ===== src/Scanner/Glob/Loop.antt =====
-- The backtracking loop of `glob_match` against the meaning of a pattern.
use b2c_fast_copy.Base.{
  ℕ, zero, suc, ◌≡◌, ◌≢◌, refl, sym, subst, ◌∙◌, Bool, true, false, ◌&&◌, ◌||◌, Option, none, some,
  List, [], ◌∷◌, arith, ◌==◌, if◌then◌else◌, All, ==_iff,
}
use b2c_fast_copy.Scanner.Glob.{star_char, any_char, Star, retry, turn, glob_loop}
use b2c_fast_copy.Scanner.Glob.Reference.{
  some_end, matches, retried, Behind, Behind-step, matches-nothing, newer_star, no_retry,
}

-- The text has no star of its own.
abbrev pub IsPlain : List ℕ → Type 0
IsPlain t = All (λ c. c ≢ star_char) t

-- The state of the loop: it stands behind its last star, in a plain text.
abbrev pub IsState : (p t : List ℕ) → Star → Type 0
IsState p t none = IsPlain t
IsState p t (some (ps, ms)) = IsPlain ms × IsPlain t × (n : ℕ) × Behind n ps ms p t

-- Going back starts right behind the star.
retry_sound :
    (ps : List ℕ) (m : ℕ) (ms : List ℕ)
    → (matches ps ms || retried (some (ps, ms))) ≡ some_end (matches ps) ms
retry_sound ps m [] = ground arith
retry_sound ps m (c ∷ ms) = refl

-- What the pattern means from here, or from the last star on.
abbrev pub value : (p t : List ℕ) → Star → Bool
value p t star = matches p t || retried star

-- A turn returns only where nothing matches, and otherwise keeps the value.
abbrev IsSound : Option (List ℕ × List ℕ × Star) → Bool → Type 0
IsSound none v = v ≡ false
IsSound (some (p, t, star)) v = IsState p t star × (value p t star ≡ v)

Behind-some : (n : ℕ) (ps p : List ℕ) (c : ℕ) (t : List ℕ) → Behind n ps [] p (c ∷ t) → ⊥
Behind-some zero ps p c t (e, e') = cc
Behind-some (suc n) ps p c t (a, ps', m, ms', e, e', plain, rest) = cc

retry-IsSound :
    (p : List ℕ) (c : ℕ) (t : List ℕ) (star : Star)
    → IsState p (c ∷ t) star
    → IsSound (retry star) (retried star)
retry-IsSound p c t none s = refl
retry-IsSound p c t (some (ps, [])) (h, h', n, behind) = absurd (Behind-some n ps p c t behind)
retry-IsSound p c t (some (ps, m ∷ ms)) (h, h', n, behind) =
    ((h.1, h.1, 0, (refl, refl)), retry_sound ps m ms)

IsState-IsPlain : (p t : List ℕ) (star : Star) → IsState p t star → IsPlain t
IsState-IsPlain p t none s = s
IsState-IsPlain p t (some (ps, ms)) s = s.1

hit-IsState :
    (a c : ℕ) (p t : List ℕ) (star : Star)
    → a ≢ star_char
    → IsState (a ∷ p) (c ∷ t) star
    → IsState p t star
hit-IsState a c p t none plain s = s.1
hit-IsState a c p t (some (ps, ms)) plain (h, h', n, behind) =
    (h, h'.1, suc n, Behind-step n ps ms p t a c plain behind)

star-value :
    (p : List ℕ) (c : ℕ) (t : List ℕ) (star : Star)
    → IsState (star_char ∷ p) (c ∷ t) star
    → some_end (matches p) (c ∷ t) ≡ (some_end (matches p) (c ∷ t) || retried star)
star-value p c t none s = ground arith
star-value p c t (some (ps, [])) s = ground arith
star-value p c t (some (ps, m ∷ ms)) (h, h', n, behind) =
    ground (arith, newer_star n ps (m ∷ ms) p (c ∷ t) behind)

turn-IsSound :
    (p : List ℕ) (c : ℕ) (t : List ℕ) (star : Star)
    → IsState p (c ∷ t) star
    → IsSound (turn p c t star) (value p (c ∷ t) star)
turn-IsSound [] c t star s = retry-IsSound [] c t star s
turn-IsSound (a ∷ p) c t star s = go (a == any_char || a == c) (a == star_char) refl refl
  where
    text : IsPlain (c ∷ t)
    text = IsState-IsPlain (a ∷ p) (c ∷ t) star s

    go :
        (hit is_star : Bool)
        → (a == any_char || a == c) ≡ hit
        → (a == star_char) ≡ is_star
        → IsSound
            (if hit
              then some (p, t, star)
              else if is_star
              then some (p, c ∷ t, some (p, c ∷ t))
              else retry star)
            ((if is_star then some_end (matches p) (c ∷ t) else hit && matches p t) || retried star)
    go true true e e' = absurd (text.0 (ground (arith, e, e')))
    go true false e e' = (hit-IsState a c p t star (λ q. ground (arith, e', q)) s, refl)
    go false true e e' =
        let same : a ≡ star_char = (==_iff a star_char).0 e' in
        (
          (text, text, 0, (refl, refl)),
          star-value p c t star (subst (λ x. IsState (x ∷ p) (c ∷ t) star) same s),
        )
    go false false e e' = retry-IsSound (a ∷ p) c t star s

abbrev pub after : (fuel : ℕ) → Option (List ℕ × List ℕ × Star) → Option Bool
after fuel none = some false
after fuel (some (p, t, star)) = glob_loop fuel p t star

after_sound :
    (fuel : ℕ) (next : Option (List ℕ × List ℕ × Star)) (b v : Bool)
    → ((p t : List ℕ) (star : Star)
        → IsState p t star
        → glob_loop fuel p t star ≡ some b
        → b ≡ value p t star)
    → after fuel next ≡ some b
    → IsSound next v
    → b ≡ v
after_sound fuel none b v loop e sound = cc
after_sound fuel (some (p, t, star)) b v loop e (state, same) = loop p t star state e ∙ same

pub glob_loop-turn :
    (fuel : ℕ) (p : List ℕ) (c : ℕ) (t : List ℕ) (star : Star)
    → glob_loop (suc fuel) p (c ∷ t) star ≡ after fuel (turn p c t star)
unfolding glob_loop
glob_loop-turn fuel p c t star = go (turn p c t star)
  where
    go :
        (next : Option (List ℕ × List ℕ × Star))
        → elim next [ none ↦ some false | some (p', t', star') ↦ glob_loop fuel p' t' star' ]
          ≡ after fuel next
    go none = refl
    go (some (p', t', star')) = refl

-- What the loop returns is the value that it started with.
pub glob_loop_sound :
    (fuel : ℕ) (p t : List ℕ) (star : Star) (b : Bool)
    → IsState p t star
    → glob_loop fuel p t star ≡ some b
    → b ≡ value p t star
unfolding glob_loop
glob_loop_sound zero p t star b s e = absurd (cc)
glob_loop_sound (suc fuel) p [] none b s e = ground (arith, matches-nothing p)
glob_loop_sound (suc fuel) p [] (some (ps, ms)) b (plain, h, n, behind) e =
    ground (arith, matches-nothing p, no_retry n ps ms p behind)
glob_loop_sound (suc fuel) p (c ∷ t) star b s e =
    after_sound fuel (turn p c t star) b (value p (c ∷ t) star)
      (λ p' t' star' s' e'. glob_loop_sound fuel p' t' star' b s' e')
      (sym (glob_loop-turn fuel p c t star) ∙ e) (turn-IsSound p c t star s)
