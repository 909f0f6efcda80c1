-- ===== src/Sorting/Reordered.antt =====
-- Lists that differ in their order, and the sort by a text key.
use dlt_matterbeam.Prelude.{
  ℕ, String, ◌≡◌, ◌≢◌, refl, ap, ◌∙◌, ◌⊎◌, inl, inr, Bool, true, false, List, [], ◌∷◌, ◌++◌, map,
  arith, any, All, Bool-cases,
}
use dlt_matterbeam.Json.Text.{codes, ltb_codes}
use dlt_matterbeam.Envelope.Sort.Order.{ltb_codes_asymm, ltb_codes_trans}
use dlt_matterbeam.Sorting.{text_lt, place, sort}

ltb_codes_total : (xs ys : List ℕ) → ltb_codes xs ys ≡ false → ltb_codes ys xs ≡ false → xs ≡ ys
ltb_codes_total [] [] h k = refl
ltb_codes_total [] (y ∷ ys) h k = absurd (ground arith)
ltb_codes_total (x ∷ xs) [] h k = absurd (ground arith)
ltb_codes_total (x ∷ xs) (y ∷ ys) h k =
    let same : x ≡ y = ground arith in
    let rest = ltb_codes_total xs ys (ground arith) (ground arith) in λ i. same i ∷ rest i

-- of two keys that differ, one comes before the other
text_lt-apart :
    (a b : String)
    → codes a ≢ codes b
    → ((text_lt a b ≡ true) × (text_lt b a ≡ false))
      ⊎ ((text_lt a b ≡ false) × (text_lt b a ≡ true))
text_lt-apart a b differ = elim (Bool-cases (text_lt a b)) [
  | inl before ↦ inl (before, ltb_codes_asymm (codes a) (codes b) before)
  | inr not_before ↦ elim (Bool-cases (text_lt b a)) [
    | inl after ↦ inr (not_before, after)
    | inr not_after ↦ absurd (differ (ltb_codes_total (codes a) (codes b) not_before not_after))
  ]
]

-- one list is the other with values of different keys exchanged
pub data Reordered {A : Type 0} (key : A → String) : List A → List A → Type 0 where
  same : {xs : List A} → Reordered key xs xs
  behind : (x : A) {xs ys : List A} → Reordered key xs ys → Reordered key (x ∷ xs) (x ∷ ys)
  exchange :
      (x y : A) {xs : List A}
      → codes (key x) ≢ codes (key y)
      → Reordered key (x ∷ y ∷ xs) (y ∷ x ∷ xs)
  after : {xs ys zs : List A} → Reordered key xs ys → Reordered key ys zs → Reordered key xs zs

module _ {A : Type 0} (key : A → String) where
  place-place :
      (x y : A) (zs : List A)
      → codes (key x) ≢ codes (key y)
      → place key x (place key y zs) ≡ place key y (place key x zs)
  unfolding place
  place-place x y [] differ = elim (text_lt-apart (key x) (key y) differ) [
    | inl (p, q) ↦ rw (p, q) refl
    | inr (p, q) ↦ rw (p, q) refl
  ]
  place-place x y (z ∷ zs) differ =
      let kx = codes (key x) in
      let ky = codes (key y) in
      let kz = codes (key z) in
      ground (
        arith,
        place-place x y zs differ,
        text_lt-apart (key x) (key y) differ,
        ltb_codes_trans kz kx ky,
        ltb_codes_trans kz ky kx,
      )

  pub sort-Reordered : {xs ys : List A} → Reordered key xs ys → sort key xs ≡ sort key ys
  unfolding sort
  sort-Reordered same = refl
  sort-Reordered (behind x r) = ap (place key x) (sort-Reordered r)
  sort-Reordered (exchange x y {xs} differ) = place-place x y (sort key xs) differ
  sort-Reordered (after r s) = sort-Reordered r ∙ sort-Reordered s

  pub any-Reordered : (p : A → Bool) {xs ys : List A} → Reordered key xs ys → any p xs ≡ any p ys
  any-Reordered p same = refl
  any-Reordered p (behind x r) = ground (arith, any-Reordered p r)
  any-Reordered p (exchange x y differ) = ground arith
  any-Reordered p (after r s) = any-Reordered p r ∙ any-Reordered p s

  pub append-Reordered :
      (zs : List A) {xs ys : List A} → Reordered key xs ys → Reordered key (xs ++ zs) (ys ++ zs)
  append-Reordered zs same = same
  append-Reordered zs (behind x r) = behind x (append-Reordered zs r)
  append-Reordered zs (exchange x y differ) = exchange x y differ
  append-Reordered zs (after r s) = after (append-Reordered zs r) (append-Reordered zs s)

  pub All-Reordered : (P : A → Type 0) {xs ys : List A} → Reordered key xs ys → All P xs → All P ys
  All-Reordered P same all = all
  All-Reordered P (behind x r) (here, others) = (here, All-Reordered P r others)
  All-Reordered P (exchange x y differ) (first, (second, others)) = (second, (first, others))
  All-Reordered P (after r s) all = All-Reordered P s (All-Reordered P r all)

module _ {A B : Type 0} (key : B → String) (f : A → B) where
  pub map-Reordered :
      {xs ys : List A} → Reordered (λ x. key (f x)) xs ys → Reordered key (map f xs) (map f ys)
  map-Reordered same = same
  map-Reordered (behind x r) = behind (f x) (map-Reordered r)
  map-Reordered (exchange x y differ) = exchange (f x) (f y) differ
  map-Reordered (after r s) = after (map-Reordered r) (map-Reordered s)
