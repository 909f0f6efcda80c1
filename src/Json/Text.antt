-- ===== src/Json/Text.antt =====
-- Texts compared as Python compares `str`: by code points, the first difference deciding.
use Prim.Native.Char.{code}
use dlt_matterbeam.Prelude.{
  ℕ, String, Bool, true, false, List, [], ◌∷◌, ltb, nat_beq, if◌then◌else◌,
}

abbrev pub codes : String → List ℕ
codes String.[] = []
codes (String.◌∷◌ c s) = code c ∷ codes s

abbrev pub ltb_codes : List ℕ → List ℕ → Bool
ltb_codes xs [] = false
ltb_codes [] (y ∷ ys) = true
ltb_codes (x ∷ xs) (y ∷ ys) =
    if ltb x y then true else if nat_beq x y then ltb_codes xs ys else false
