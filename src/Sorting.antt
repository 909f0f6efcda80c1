-- ===== src/Sorting.antt =====
-- Python's stable sort of values by a text key, for src/dlt_matterbeam/deploy.py and
-- tests/fake_matterbeam/fold.py.
pub mod Reordered
use dlt_matterbeam.Prelude.{String, Bool, List, [], ◌∷◌, if◌then◌else◌}
use dlt_matterbeam.Json.Text.{codes, ltb_codes}

-- `a < b` on texts
abbrev pub text_lt : String → String → Bool
text_lt a b = ltb_codes (codes a) (codes b)

module _ {ℓ} {A : Type ℓ} (key : A → String) where
  unfoldable pub place : A → List A → List A
  place x [] = x ∷ []
  place x (y ∷ ys) =
      let rest = place x ys in if text_lt (key y) (key x) then y ∷ rest else x ∷ y ∷ ys

  unfoldable pub sort : List A → List A
  sort [] = []
  sort (x ∷ xs) = place x (sort xs)
