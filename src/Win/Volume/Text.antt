-- ===== src/Win/Volume/Text.antt =====
-- Text that is passed to the system and read back.
use b2c_fast_copy.Base.{ℕ, ◌≡◌, ◌≢◌, refl, List, [], ◌∷◌, ◌++◌, arith, All}
use b2c_fast_copy.Win.Paths.{wide}
use b2c_fast_copy.Win.Volume.{from_wide}

-- Text without a NUL is read back from a buffer that it was written to, whatever stands behind it.
pub from_wide-wide :
    (text rest : List ℕ) → All (λ (c : ℕ). c ≢ 0) text → from_wide (wide text ++ rest) ≡ text
unfolding from_wide
from_wide-wide [] rest h = refl
from_wide-wide (c ∷ cs) rest h = ground (arith, from_wide-wide cs rest h.1, h.0)
