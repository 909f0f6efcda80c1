-- ===== src/Envelope/Sort/Returns.antt =====
-- Where `sort_rows` of src/dlt_matterbeam/envelope.py returns.
use dlt_matterbeam.Prelude.{
  String, ◌≡◌, refl, Bool, true, false, not, some, none, List, [], ◌∷◌, ◌++◌, arith, All, filter,
  inl, inr, Bool-cases,
}
use dlt_matterbeam.Json.{Json, Row}
use dlt_matterbeam.Json.Int.{ltb_ℤ}
use dlt_matterbeam.Json.Text.{ltb_codes}
use dlt_matterbeam.Exec.{ok}
use dlt_matterbeam.Envelope.Sort.{
  Key, number, text, sort_key, key_lt, py_lt, before, key, is_present, place, sort_by, is_desc,
  sort_rows,
}

-- keys that `<` compares with one another
abbrev pub is_number : Key → Bool
is_number (number z) = true
is_number _ = false

abbrev pub is_text_key : Key → Bool
is_text_key (text cs) = true
is_text_key _ = false

module _ (reverse : Bool) (col : String) (kind : Key → Bool)
    (compared : (a b : Key)
      → kind a ≡ true
      → kind b ≡ true
      → (c : Bool) × (key_lt a b ≡ ok c)) where
  abbrev OfKind : Row → Type 0
  OfKind r = kind (sort_key (key col r)) ≡ true

  before_compared :
      (x y : Row)
      → OfKind x
      → OfKind y
      → (c : Bool) × (before reverse (key col y) (key col x) ≡ ok c)
  unfolding py_lt
  before_compared x y h k = flip reverse
    where
      flip : (r : Bool) → (c : Bool) × (before r (key col y) (key col x) ≡ ok c)
      flip true = compared (sort_key (key col x)) (sort_key (key col y)) h k
      flip false = compared (sort_key (key col y)) (sort_key (key col x)) k h

  place_returns :
      (x : Row) (ys : List Row)
      → OfKind x
      → All OfKind ys
      → (out : List Row) × (place reverse col x ys ≡ ok out) × All OfKind out
  unfolding place
  place_returns x [] h a = (x ∷ [], refl, (h, tt))
  place_returns x (y ∷ ys) h a =
      let (c, e) = before_compared x y h a.0 in
      let (rest, p, b) = place_returns x ys h a.1 in
      elim (Bool-cases c) [
        | inl t ↦ (y ∷ rest, rw (e, t, p), (a.0, b))
        | inr f ↦ (x ∷ y ∷ ys, rw (e, f), (h, a))
      ]

  sort_by_returns :
      (xs : List Row)
      → All OfKind xs
      → (out : List Row) × (sort_by reverse col xs ≡ ok out) × All OfKind out
  unfolding sort_by
  sort_by_returns [] a = ([], refl, tt)
  sort_by_returns (x ∷ xs) a =
      let (mid, p, b) = sort_by_returns xs a.1 in
      let (out, q, c) = place_returns x mid a.0 b in (out, rw p q, c)

pub data Kind : Type 0 where
  numbers texts : Kind

abbrev pub is_kind : Kind → Key → Bool
is_kind numbers = is_number
is_kind texts = is_text_key

kind_compared :
    (k : Kind) (a b : Key)
    → is_kind k a ≡ true
    → is_kind k b ≡ true
    → (c : Bool) × (key_lt a b ≡ ok c)
kind_compared numbers (number a) (number b) h k = (ltb_ℤ a b, refl)
kind_compared texts (text a) (text b) h k = (ltb_codes a b, refl)
kind_compared numbers _ _ h k = absurd (ground arith)
kind_compared texts _ _ h k = absurd (ground arith)

-- The sort returns where the sort column holds numbers only, or texts only, in the rows that have
-- it, in either direction; and where the table asks for no order.
pub sort_rows_returns :
    (rows : List Row) (col : String) (direction : Json) (k : Kind)
    → All (λ r. is_kind k (sort_key (key col r)) ≡ true) (filter (is_present col) rows)
    → (sort_rows rows none ≡ ok rows)
      × ((out : List Row) × (sort_rows rows (some (col, direction)) ≡ ok out))
unfolding sort_rows
sort_rows_returns rows col direction k a =
    let (front, p, _) =
      sort_by_returns (is_desc direction) col (is_kind k) (kind_compared k)
        (filter (is_present col) rows) a in
    (refl, (front ++ filter (λ r. not (is_present col r)) rows, rw p))
