-- ===== src/Envelope/Sort/Sorted.antt =====
-- The rows with a sort column come out in its order, and nothing is lost.
use dlt_matterbeam.Prelude.{String, ◌≡◌, Bool, false, List, [], ◌∷◌, All}
use dlt_matterbeam.Json.{Row}
use dlt_matterbeam.Exec.{ok}
use dlt_matterbeam.Envelope.Sort.{before, key}
use dlt_matterbeam.Envelope.Sort.Order.{before_asymm, before_trans}
use dlt_matterbeam.Envelope.Sort.Placed.{Placed, alone, front, behind, Sorts, none, more}

module _ (reverse : Bool) (col : String) where
  -- `y` need not come before `x`
  abbrev pub NotBefore : Row → Row → Type 0
  NotBefore x y = before reverse (key col y) (key col x) ≡ ok false

  -- no later row comes before an earlier one
  abbrev pub InOrder : List Row → Type 0
  InOrder [] = Unit
  InOrder (x ∷ xs) = All (NotBefore x) xs × InOrder xs

  All-trans :
      (x y : Row) (zs : List Row) → NotBefore x y → All (NotBefore y) zs → All (NotBefore x) zs
  All-trans x y [] h a = tt
  All-trans x y (z ∷ zs) h a =
      (before_trans reverse (key col z) (key col y) (key col x) a.0 h, All-trans x y zs h a.1)

  Placed-All :
      (P : Row → Type 0) {x : Row} {ys out : List Row}
      → Placed reverse col x ys out
      → P x
      → All P ys
      → All P out
  Placed-All P alone p a = (p, tt)
  Placed-All P (front y ys h) p a = (p, a)
  Placed-All P (behind y h r) p a = (a.0, Placed-All P r p a.1)

  Placed-InOrder :
      {x : Row} {ys out : List Row} → Placed reverse col x ys out → InOrder ys → InOrder out
  Placed-InOrder alone s = (tt, tt)
  Placed-InOrder {x} (front y ys h) s = ((h, All-trans x y ys h s.0), s)
  Placed-InOrder {x} (behind y h r) s = (
    Placed-All (NotBefore y) r (before_asymm reverse (key col y) (key col x) h) s.0,
    Placed-InOrder r s.1,
  )

  pub Sorts-InOrder : {xs out : List Row} → Sorts reverse col xs out → InOrder out
  Sorts-InOrder none = tt
  Sorts-InOrder (more x s p) = Placed-InOrder p (Sorts-InOrder s)
