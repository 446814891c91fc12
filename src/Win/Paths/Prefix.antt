-- ===== src/Win/Paths/Prefix.antt =====
-- When a path gets the extended-length prefix.
use b2c_fast_copy.Base.{
  ℕ, ◌<◌, ◌≡◌, refl, ap, sym, ◌∙◌, ◌⊎◌, inl, inr, true, false, List, ◌∷◌, ◌++◌, length, arith, drop,
}
use b2c_fast_copy.Win.Defs.{FilePath}
use b2c_fast_copy.Win.Paths.Plain.{IsPlain, is_canonical-IsPlain}
use b2c_fast_copy.Win.Paths.{verbatim, share, verbatim_unc, starts_with, is_canonical, encode}

-- What is relied on in `to_string_lossy`: an ASCII unit stays as it is.
abbrev pub IsLossy : (List ℕ → List ℕ) → Type 0
IsLossy lossy = (c : ℕ) (cs : List ℕ) → c < 128 → lossy (c ∷ cs) ≡ c ∷ lossy cs

module _ (lossy : List ℕ → List ℕ) (ascii : IsLossy lossy) where
  -- The three ways to encode a path.
  encode_cases :
      (p : FilePath)
      → (encode lossy p ≡ verbatim_unc ++ drop 2 (lossy p)) × (starts_with share (lossy p) ≡ true)
        ⊎ ((encode lossy p ≡ verbatim ++ p) × (is_canonical (lossy p) ≡ true))
        ⊎ (encode lossy p ≡ p)
  unfolding encode
  encode_cases p = ground arith

  not_share : (p d : List ℕ) → p ≡ 85 ∷ 78 ∷ 67 ∷ 92 ∷ d → starts_with share (lossy p) ≡ false
  not_share p d e = rw e (rw (ascii 85 (78 ∷ 67 ∷ 92 ∷ d) (omega arith)) refl)

  cancel : (d p : List ℕ) → verbatim_unc ++ d ≡ verbatim ++ p → p ≡ 85 ∷ 78 ∷ 67 ∷ 92 ∷ d
  cancel d p e = cc

  -- The extended-length prefix, which switches off the normalisation of a path, is put before a whole
  -- path only if that path is plain: it has no slash, no part `.` or `..`, and no doubled backslash after
  -- the drive. A UNC path, of which only the rest stands behind a prefix, is not meant.
  pub encode-IsPlain : (p : FilePath) → encode lossy p ≡ verbatim ++ p → IsPlain (lossy p)
  encode-IsPlain p h = elim (encode_cases p) [
    | inl (e, unc) ↦
        absurd (ground (arith, unc, not_share p (drop 2 (lossy p)) (cancel _ p (sym e ∙ h))))
    | inr (inl (e, canonical)) ↦ is_canonical-IsPlain (lossy p) canonical
    | inr (inr e) ↦ absurd (omega (arith, ap length (sym e ∙ h)))
  ]
