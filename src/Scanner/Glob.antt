-- ===== src/Scanner/Glob.antt =====
-- `glob_match` and `excluded` of crates/b2c-engine/src/scanner.rs.
pub mod Reference
pub mod Loop
pub mod Ends
use b2c_fast_copy.Base.{
  ℕ, zero, suc, ◌+◌, ◌*◌, Bool, true, false, ◌&&◌, ◌||◌, Option, none, some, List, [], ◌∷◌, length,
  ◌==◌, if◌then◌else◌,
}

-- the characters `*` and `?`
abbrev pub star_char : ℕ
star_char = 42

abbrev pub any_char : ℕ
any_char = 63

-- The place after the last star, and the text from the mark on.
abbrev pub Star : Type 0
Star = Option (List ℕ × List ℕ)

-- The loop after the main one: only stars may be left.
abbrev pub only_stars : List ℕ → Bool
only_stars [] = true
only_stars (a ∷ p) = a == star_char && only_stars p

-- The last branches of the main loop: back to the last star, which takes one more character.
abbrev pub retry : Star → Option (List ℕ × List ℕ × Star)
retry none = none
retry (some (ps, [])) = none
retry (some (ps, m ∷ ms)) = some (ps, ms, some (ps, ms))

-- One turn of the main loop, on what is left of the pattern and of the text `c ∷ t`; none for a return.
abbrev pub turn : (p : List ℕ) (c : ℕ) (t : List ℕ) → Star → Option (List ℕ × List ℕ × Star)
turn [] c t star = retry star
turn (a ∷ p) c t star =
    if a == any_char || a == c
    then some (p, t, star)
    else if a == star_char
    then some (p, c ∷ t, some (p, c ∷ t))
    else retry star

-- The loops, for at most `fuel` turns; none if that is too few. The indices of the source are the
-- lists that are left from them on.
unfoldable pub glob_loop : (fuel : ℕ) → (p t : List ℕ) → Star → Option Bool
glob_loop zero p t star = none
glob_loop (suc fuel) p [] star = some (only_stars p)
glob_loop (suc fuel) p (c ∷ t) star =
    let next = turn p c t star in
    elim next [ none ↦ some false | some (p', t', star') ↦ glob_loop fuel p' t' star' ]

-- Turns that suffice.
abbrev pub enough : (p t : List ℕ) → ℕ
enough p t = (length t + 2) * (length p + length t + 1)

-- `glob_match` on the lower-case characters.
unfoldable pub glob_match : (p t : List ℕ) → Option Bool
glob_match p t = glob_loop (enough p t) p t none

-- `lower` is `str::to_lowercase`, from the text of a name to its characters.
unfoldable pub excluded : (lower : List ℕ → List ℕ) → (name : List ℕ) → List (List ℕ) → Bool
excluded lower name [] = false
excluded lower name (pattern ∷ patterns) =
    let rest = excluded lower name patterns in
    elim (glob_match (lower pattern) (lower name)) [ none ↦ rest | some matched ↦ matched || rest ]
