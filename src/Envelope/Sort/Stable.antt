-- ===== src/Envelope/Sort/Stable.antt =====
-- What the sort leaves alone: the rows themselves, and the order of rows that tie.
use dlt_matterbeam.Prelude.{String, ◌≡◌, refl, Bool, true, false, List, ◌∷◌, arith, filter, length}
use dlt_matterbeam.Json.{Row}
use dlt_matterbeam.Exec.{ok}
use dlt_matterbeam.Envelope.Sort.{before, key}
use dlt_matterbeam.Envelope.Sort.Placed.{Placed, alone, front, behind, Sorts, none, more}

module _ (reverse : Bool) (col : String) (p : Row → Bool) where
  Placed-count :
      {x : Row} {ys out : List Row}
      → Placed reverse col x ys out
      → length (filter p out) ≡ length (filter p (x ∷ ys))
  Placed-count alone = refl
  Placed-count (front y ys h) = refl
  Placed-count (behind y h r) = ground (arith, Placed-count r)

  pub Sorts-count :
      {xs out : List Row} → Sorts reverse col xs out → length (filter p out) ≡ length (filter p xs)
  Sorts-count none = refl
  Sorts-count (more x s r) = ground (arith, Placed-count r, Sorts-count s)

  module _
      (tie : (x y : Row)
        → p x ≡ true
        → p y ≡ true
        → before reverse (key col y) (key col x) ≡ ok false) where
    Placed-stable :
        {x : Row} {ys out : List Row}
        → Placed reverse col x ys out
        → filter p out ≡ filter p (x ∷ ys)
    Placed-stable alone = refl
    Placed-stable (front y ys h) = refl
    Placed-stable {x} (behind y h r) = ground (arith, Placed-stable r, tie x y)

    pub Sorts-stable : {xs out : List Row} → Sorts reverse col xs out → filter p out ≡ filter p xs
    Sorts-stable none = refl
    Sorts-stable (more x s r) = ground (arith, Placed-stable r, Sorts-stable s)
