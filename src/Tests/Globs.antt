-- ===== src/Tests/Globs.antt =====
-- The theorem on the glob matcher, at `*b?` and `abbc`.
use b2c_fast_copy.Base.{ℕ, ◌<◌, ◌≡◌, ◌≢◌, true, false, some, List, [], ◌∷◌, arith}
use b2c_fast_copy.Scanner.Glob.{glob_match}
use b2c_fast_copy.Scanner.Glob.Reference.{matches}
use b2c_fast_copy.Scanner.Glob.Ends.{glob_match-matches, glob_match_literal}

abbrev pattern_chars : List ℕ
pattern_chars = 42 ∷ 98 ∷ 63 ∷ []

abbrev text_chars : List ℕ
text_chars = 97 ∷ 98 ∷ 98 ∷ 99 ∷ []

plain : (c : ℕ) → 42 < c → c ≢ 42
plain c lt e = absurd (omega (arith, e))

glob_match-matches_example : glob_match pattern_chars text_chars ≡ some true
glob_match-matches_example = glob_match-matches pattern_chars text_chars (
  plain 97 (omega arith),
  (plain 98 (omega arith), (plain 98 (omega arith), (plain 99 (omega arith), tt))),
)

glob_match_literal_example :
    (glob_match (42 ∷ []) (42 ∷ 120 ∷ []) ≡ some false) × (matches (42 ∷ []) (42 ∷ 120 ∷ []) ≡ true)
glob_match_literal_example = glob_match_literal 120 []
