-- ===== src/Envelope/Sort/Order.antt =====
-- `<` on keys, as the sort needs it: asymmetric, and its failure is transitive.
use dlt_matterbeam.Prelude.{ℕ, ◌≡◌, refl, Bool, true, false, List, [], ◌∷◌, arith}
use dlt_matterbeam.Json.{Json}
use dlt_matterbeam.Json.Int.{ℤ, pos, negsuc, ltb_ℤ}
use dlt_matterbeam.Json.Text.{ltb_codes}
use dlt_matterbeam.Exec.{ok}
use dlt_matterbeam.Envelope.Sort.{Key, number, text, sort_key, key_lt, py_lt, before}

ltb_ℤ_asymm : (a b : ℤ) → ltb_ℤ a b ≡ true → ltb_ℤ b a ≡ false
ltb_ℤ_asymm (pos a) (pos b) h = ground arith
ltb_ℤ_asymm (pos a) (negsuc b) h = cc
ltb_ℤ_asymm (negsuc a) (pos b) h = refl
ltb_ℤ_asymm (negsuc a) (negsuc b) h = ground arith

ltb_ℤ_trans : (a b c : ℤ) → ltb_ℤ a b ≡ false → ltb_ℤ b c ≡ false → ltb_ℤ a c ≡ false
ltb_ℤ_trans a b c h k = ground arith

pub ltb_codes_asymm : (xs ys : List ℕ) → ltb_codes xs ys ≡ true → ltb_codes ys xs ≡ false
ltb_codes_asymm xs [] h = absurd (ground arith)
ltb_codes_asymm [] (y ∷ ys) h = refl
ltb_codes_asymm (x ∷ xs) (y ∷ ys) h = ground (arith, ltb_codes_asymm xs ys)

pub ltb_codes_trans :
    (xs ys zs : List ℕ)
    → ltb_codes xs ys ≡ false
    → ltb_codes ys zs ≡ false
    → ltb_codes xs zs ≡ false
ltb_codes_trans xs ys [] h k = ground arith
ltb_codes_trans xs [] (z ∷ zs) h k = absurd (ground arith)
ltb_codes_trans [] (y ∷ ys) (z ∷ zs) h k = absurd (ground arith)
ltb_codes_trans (x ∷ xs) (y ∷ ys) (z ∷ zs) h k = ground (arith, ltb_codes_trans xs ys zs)

key_lt_asymm : (a b : Key) → key_lt a b ≡ ok true → key_lt b a ≡ ok false
key_lt_asymm (number a) (number b) h = ground (arith, ltb_ℤ_asymm a b)
key_lt_asymm (text a) (text b) h = ground (arith, ltb_codes_asymm a b)
key_lt_asymm _ _ h = absurd (ground arith)

key_lt_trans : (a b c : Key) → key_lt a b ≡ ok false → key_lt b c ≡ ok false → key_lt a c ≡ ok false
key_lt_trans (number a) (number b) (number c) h k = ground (arith, ltb_ℤ_trans a b c)
key_lt_trans (text a) (text b) (text c) h k = ground (arith, ltb_codes_trans a b c)
key_lt_trans _ _ _ h k = absurd (ground arith)

pub before_asymm : (r : Bool) (a b : Json) → before r a b ≡ ok true → before r b a ≡ ok false
unfolding py_lt
before_asymm true a b h = key_lt_asymm (sort_key b) (sort_key a) h
before_asymm false a b h = key_lt_asymm (sort_key a) (sort_key b) h

-- what does not come before `b`, which does not come before `c`, does not come before `c`
pub before_trans :
    (r : Bool) (a b c : Json)
    → before r a b ≡ ok false
    → before r b c ≡ ok false
    → before r a c ≡ ok false
unfolding py_lt
before_trans true a b c h k = key_lt_trans (sort_key c) (sort_key b) (sort_key a) k h
before_trans false a b c h k = key_lt_trans (sort_key a) (sort_key b) (sort_key c) h k
