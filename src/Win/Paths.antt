-- ===== src/Win/Paths.antt =====
-- `wide`, `is_canonical` and `wide_path` of crates/b2c-engine/src/win/mod.rs.
pub mod Plain
pub mod Prefix
use b2c_fast_copy.Base.{
  ℕ, zero, suc, ◌+◌, ◌<◌, ◌≤◌, ◌≡◌, ◌≢◌, refl, ap, sym, ◌∙◌, Bool, true, false, not, ◌&&◌, ◌||◌,
  List, [], ◌∷◌, ◌++◌, arith, ltb, ◌==◌, if◌then◌else◌, drop, All, Bool-cases,
}
use b2c_fast_copy.Win.Defs.{FilePath}

-- `\`, `/`, `.`, `:` and `?`
abbrev pub backslash : ℕ
backslash = 92

abbrev slash : ℕ
slash = 47

abbrev dot : ℕ
dot = 46

abbrev colon : ℕ
colon = 58

abbrev question : ℕ
question = 63

-- Text for a call, closed by a NUL.
abbrev pub wide : List ℕ → List ℕ
wide text = text ++ 0 ∷ []

abbrev pub has_slash : List ℕ → Bool
has_slash [] = false
has_slash (c ∷ cs) = c == slash || has_slash cs

-- `str::split`, with the part that is being read.
abbrev pub split_from : (part : List ℕ) → List ℕ → List (List ℕ)
split_from part [] = part ∷ []
split_from part (c ∷ cs) =
    if c == backslash then part ∷ split_from [] cs else split_from (part ++ c ∷ []) cs

abbrev is_empty : List ℕ → Bool
is_empty [] = true
is_empty (c ∷ cs) = false

-- `.` and `..`
abbrev pub is_dots : List ℕ → Bool
is_dots [] = false
is_dots (c ∷ []) = c == dot
is_dots (c ∷ d ∷ []) = c == dot && d == dot
is_dots (c ∷ d ∷ e ∷ cs) = false

-- The loop over the parts; an empty part is allowed as the first and as the last.
abbrev pub good_parts : (leading : Bool) → List (List ℕ) → Bool
good_parts leading [] = true
good_parts leading (p ∷ []) = not (is_dots p)
good_parts leading (p ∷ q ∷ ps) =
    not (is_dots p) && (not (is_empty p) || leading) && good_parts false (q ∷ ps)

unfoldable pub is_canonical : List ℕ → Bool
is_canonical text = if has_slash text then false else good_parts true (split_from [] (drop 2 text))

abbrev pub starts_with : (prefix text : List ℕ) → Bool
starts_with [] text = true
starts_with (a ∷ rest) [] = false
starts_with (a ∷ rest) (c ∷ cs) = a == c && starts_with rest cs

-- `\\?\`, `\\.\`, `\\` and `\\?\UNC\`
abbrev pub verbatim : List ℕ
verbatim = 92 ∷ 92 ∷ 63 ∷ 92 ∷ []

abbrev pub device : List ℕ
device = 92 ∷ 92 ∷ 46 ∷ 92 ∷ []

abbrev share : List ℕ
share = 92 ∷ 92 ∷ []

abbrev verbatim_unc : List ℕ
verbatim_unc = 92 ∷ 92 ∷ 63 ∷ 92 ∷ 85 ∷ 78 ∷ 67 ∷ 92 ∷ []

-- The second byte is a colon and something follows: the first byte is then a character of its own.
abbrev has_drive : List ℕ → Bool
has_drive (c ∷ d ∷ e ∷ cs) = ltb c 128 && d == colon
has_drive _ = false

-- The units of the path before the closing NUL. `lossy` is `to_string_lossy` on UTF-16 units.
unfoldable pub encode : (lossy : List ℕ → List ℕ) → FilePath → List ℕ
encode lossy p =
    let text = lossy p in
    let prefixed = starts_with verbatim text || starts_with device text in
    if not prefixed && starts_with share text
    then verbatim_unc ++ drop 2 text
    else if not prefixed && (has_drive text && is_canonical text)
    then verbatim ++ p
    else p

unfoldable pub wide_path : (lossy : List ℕ → List ℕ) → FilePath → List ℕ
unfolding encode
wide_path lossy p = wide (encode lossy p)
