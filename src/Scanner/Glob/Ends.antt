-- ===== src/Scanner/Glob/Ends.antt =====
-- The loop of `glob_match` ends, and so the matcher decides what the pattern means.
use b2c_fast_copy.Base.{
  ℕ, zero, suc, ◌-◌, ◌+◌, ◌*◌, ◌≤◌, ◌<◌, ◌≡◌, refl, sym, ap, subst, ◌∙◌, Bool, true, false, ◌||◌,
  Option, none, some, List, [], ◌∷◌, length, arith, ◌==◌, if◌then◌else◌,
}
use b2c_fast_copy.Scanner.Glob.{
  star_char, any_char, only_stars, Star, retry, turn, glob_loop, glob_match, enough,
}
use b2c_fast_copy.Scanner.Glob.Reference.{is_empty, some_end, matches}
use b2c_fast_copy.Scanner.Glob.Loop.{IsPlain, after, glob_loop-turn, glob_loop_sound}

-- The turns that are left: for each place of the mark a run over pattern and text.
abbrev marks : (t : List ℕ) → Star → ℕ
marks t none = suc (length t)
marks t (some (ps, ms)) = length ms

abbrev budget : ℕ → ℕ → ℕ
budget k zero = 0
budget k (suc m) = budget k m + (k + 1)

-- Nothing is longer than pattern and text together.
abbrev IsShort : ℕ → (p t : List ℕ) → Star → Type 0
IsShort k p t none = length p + length t ≤ k
IsShort k p t (some (ps, ms)) =
    (length p + length t ≤ k) × (length ps + length ms ≤ k) × (length t ≤ length ms)

abbrev left : ℕ → (p t : List ℕ) → Star → ℕ
left k p t star = budget k (marks t star) + length p + length t

abbrev IsShrinking : ℕ → Option (List ℕ × List ℕ × Star) → ℕ → Type 0
IsShrinking k none n = Unit
IsShrinking k (some (p, t, star)) n = IsShort k p t star × (left k p t star < n)

retry-IsShrinking :
    (k : ℕ) (p : List ℕ) (c : ℕ) (t : List ℕ) (star : Star)
    → IsShort k p (c ∷ t) star
    → IsShrinking k (retry star) (left k p (c ∷ t) star)
retry-IsShrinking k p c t none s = tt
retry-IsShrinking k p c t (some (ps, [])) s = tt
retry-IsShrinking k p c t (some (ps, m ∷ ms)) s = (omega (arith, s), omega (arith, s))

budget_mono : (k m n : ℕ) → m ≤ n → budget k m ≤ budget k n
budget_mono k zero n le = omega arith
budget_mono k (suc m) zero le = absurd (omega arith)
budget_mono k (suc m) (suc n) le = omega (arith, budget_mono k m n (omega arith))

budget_lem : (k m : ℕ) → budget k m ≡ m * (k + 1)
budget_lem k zero = grind arith
budget_lem k (suc m) = grind (arith, budget_lem k m)

hit-IsShrinking :
    (k a : ℕ) (p : List ℕ) (c : ℕ) (t : List ℕ) (star : Star)
    → IsShort k (a ∷ p) (c ∷ t) star
    → IsShrinking k (some (p, t, star)) (left k (a ∷ p) (c ∷ t) star)
hit-IsShrinking k a p c t none s = (omega (arith, s), omega (arith, s))
hit-IsShrinking k a p c t (some (ps, ms)) s =
    ((omega (arith, s), s.1, omega (arith, s)), omega arith)

star-IsShrinking :
    (k a : ℕ) (p : List ℕ) (c : ℕ) (t : List ℕ) (star : Star)
    → IsShort k (a ∷ p) (c ∷ t) star
    → IsShrinking k (some (p, c ∷ t, some (p, c ∷ t))) (left k (a ∷ p) (c ∷ t) star)
star-IsShrinking k a p c t none s = ((omega (arith, s), omega (arith, s), omega arith), omega arith)
star-IsShrinking k a p c t (some (ps, ms)) s = (
  (omega (arith, s), omega (arith, s), omega arith),
  omega (arith, budget_mono k (length (c ∷ t)) (length ms) s.2),
)

turn-IsShrinking :
    (k : ℕ) (p : List ℕ) (c : ℕ) (t : List ℕ) (star : Star)
    → IsShort k p (c ∷ t) star
    → IsShrinking k (turn p c t star) (left k p (c ∷ t) star)
turn-IsShrinking k [] c t star s = retry-IsShrinking k [] c t star s
turn-IsShrinking k (a ∷ p) c t star s = go (a == any_char || a == c) (a == star_char)
  where
    go :
        (hit is_star : Bool)
        → IsShrinking k
            (if hit
              then some (p, t, star)
              else if is_star
              then some (p, c ∷ t, some (p, c ∷ t))
              else retry star)
            (left k (a ∷ p) (c ∷ t) star)
    go true is_star = hit-IsShrinking k a p c t star s
    go false true = star-IsShrinking k a p c t star s
    go false false = retry-IsShrinking k (a ∷ p) c t star s

after_ends :
    (fuel k n : ℕ) (next : Option (List ℕ × List ℕ × Star))
    → ((p t : List ℕ) (star : Star)
        → IsShort k p t star
        → left k p t star < fuel
        → (b : Bool) × (glob_loop fuel p t star ≡ some b))
    → IsShrinking k next n
    → n ≤ fuel
    → (b : Bool) × (after fuel next ≡ some b)
after_ends fuel k n none loop s le = (false, refl)
after_ends fuel k n (some (p, t, star)) loop (short, less) le = loop p t star short (omega arith)

glob_loop_ends :
    (fuel k : ℕ) (p t : List ℕ) (star : Star)
    → IsShort k p t star
    → left k p t star < fuel
    → (b : Bool) × (glob_loop fuel p t star ≡ some b)
unfolding glob_loop
glob_loop_ends zero k p t star s lt = absurd (omega arith)
glob_loop_ends (suc fuel) k p [] star s lt = (only_stars p, refl)
glob_loop_ends (suc fuel) k p (c ∷ t) star s lt =
    let (b, e) =
      after_ends fuel k (left k p (c ∷ t) star) (turn p c t star)
        (λ p' t' star' s' lt'. glob_loop_ends fuel k p' t' star' s' lt')
        (turn-IsShrinking k p c t star s) (omega arith) in
    (b, glob_loop-turn fuel p c t star ∙ e)

-- The matcher, with its single mark to go back to, decides what the pattern means, for every text
-- without a star; and it returns within (m + 2) (n + m + 1) turns, n and m being the lengths of pattern
-- and text.
pub glob_match-matches : (p t : List ℕ) → IsPlain t → glob_match p t ≡ some (matches p t)
unfolding glob_match
glob_match-matches p t plain =
    let k : ℕ = length p + length t in
    let (b, e) =
      glob_loop_ends (enough p t) k p t none (omega arith)
        (grind (arith, budget_lem k (length t))) in
    e ∙ ap some (glob_loop_sound (enough p t) p t none b plain e ∙ ground arith)

some_end_empty : (t : List ℕ) → some_end is_empty t ≡ true
some_end_empty [] = refl
some_end_empty (c ∷ t) = some_end_empty t

-- A star that stands in the text itself is taken for a plain character of the pattern: the pattern `*`,
-- which means any text, does not match a text that starts with a star and goes on.
pub glob_match_literal :
    (c : ℕ) (t : List ℕ)
    → (glob_match (star_char ∷ []) (star_char ∷ c ∷ t) ≡ some false)
      × (matches (star_char ∷ []) (star_char ∷ c ∷ t) ≡ true)
unfolding glob_match glob_loop
glob_match_literal c t =
    let n : ℕ = enough (star_char ∷ []) (star_char ∷ c ∷ t) - 2 in
    let e : enough (star_char ∷ []) (star_char ∷ c ∷ t) ≡ suc (suc n) = ground (arith, large) in
    (
      subst (λ k. glob_loop k (star_char ∷ []) (star_char ∷ c ∷ t) none ≡ some false) (sym e) refl,
      some_end_empty t,
    )
  where
    large : 2 ≤ enough (star_char ∷ []) (star_char ∷ c ∷ t)
    large = grind arith
