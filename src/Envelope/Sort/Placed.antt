-- ===== src/Envelope/Sort/Placed.antt =====
-- A successful run of `place` or `sort_by` as a derivation, for proofs by induction.
use dlt_matterbeam.Prelude.{String, ◌≡◌, Bool, true, false, List, [], ◌∷◌, arith, inl, inr}
use dlt_matterbeam.Json.{Row}
use dlt_matterbeam.Exec.{ok, Result-cases, ok-injective}
use dlt_matterbeam.Envelope.Sort.{before, key, place, sort_by}

module _ (reverse : Bool) (col : String) where
  pub data Placed (x : Row) : List Row → List Row → Type 0 where
    alone : Placed x [] (x ∷ [])
    front :
        (y : Row) (ys : List Row)
        → before reverse (key col y) (key col x) ≡ ok false
        → Placed x (y ∷ ys) (x ∷ y ∷ ys)
    behind :
        (y : Row) {ys rest : List Row}
        → before reverse (key col y) (key col x) ≡ ok true
        → Placed x ys rest
        → Placed x (y ∷ ys) (y ∷ rest)

  pub data Sorts : List Row → List Row → Type 0 where
    none : Sorts [] []
    more : (x : Row) {xs mid out : List Row} → Sorts xs mid → Placed x mid out → Sorts (x ∷ xs) out

  pub place-Placed :
      (x : Row) (ys : List Row) {out : List Row} → place reverse col x ys ≡ ok out → Placed x ys out
  unfolding place
  place-Placed x [] h = rw (← ok-injective h) alone
  place-Placed x (y ∷ ys) h = elim (Result-cases (before reverse (key col y) (key col x))) [
    | inl (true, p) ↦ elim (Result-cases (place reverse col x ys)) [
      | inl (rest, q) ↦
          rw (← ok-injective (rw (place, p, q) at h)) (behind y p (place-Placed x ys q))
      | inr (e, q) ↦ absurd (ground arith)
    ]
    | inl (false, p) ↦ rw (← ok-injective (rw (place, p) at h)) (front y ys p)
    | inr (e, p) ↦ absurd (ground arith)
  ]

  pub sort_by-Sorts :
      (xs : List Row) {out : List Row} → sort_by reverse col xs ≡ ok out → Sorts xs out
  unfolding sort_by
  sort_by-Sorts [] h = rw (← ok-injective h) none
  sort_by-Sorts (x ∷ xs) h = elim (Result-cases (sort_by reverse col xs)) [
    | inl (mid, p) ↦ more x (sort_by-Sorts xs p) (place-Placed x mid (rw (sort_by, p) at h))
    | inr (e, p) ↦ absurd (ground arith)
  ]
