-- ===== src/Tests/Paths.antt =====
-- The theorems on path prefixes, at `C:\a`, with a text that loses nothing.
use b2c_fast_copy.Base.{ℕ, ◌≡◌, refl, List, [], ◌∷◌, ◌++◌}
use b2c_fast_copy.Win.Defs.{FilePath}
use b2c_fast_copy.Win.Paths.{verbatim, encode, is_canonical}
use b2c_fast_copy.Win.Paths.Plain.{IsPlain}
use b2c_fast_copy.Win.Paths.Prefix.{encode-IsPlain}

abbrev text_of : List ℕ → List ℕ
text_of t = t

abbrev drive_path : FilePath
drive_path = 67 ∷ 58 ∷ 92 ∷ 97 ∷ []

prefixed : encode text_of drive_path ≡ verbatim ++ drive_path
unfolding encode is_canonical
prefixed = refl

encode-IsPlain_example : IsPlain drive_path
encode-IsPlain_example = encode-IsPlain text_of (λ c cs lt. refl) drive_path prefixed
