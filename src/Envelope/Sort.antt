-- ===== src/Envelope/Sort.antt =====
-- `sort_rows` of src/dlt_matterbeam/envelope.py. `list.sort` is a stable insertion sort here; like
-- Python's it raises `TypeError` where it meets two keys that `<` does not compare. Keys are
-- numbers or texts: a list as a sort key is taken to raise too, as a dict does.
pub mod Order
pub mod Laws
pub mod Placed
pub mod Returns
pub mod Stable
pub mod Sorted
use dlt_matterbeam.Prelude.{
  ℕ, String, Bool, true, false, not, Option, none, some, List, [], ◌∷◌, ◌++◌, ◌==◌, lookup, filter,
  if◌then◌else◌,
}
use dlt_matterbeam.Json.{Json, Row, null, boolean, num, str}
use dlt_matterbeam.Json.Int.{ℤ, pos, ltb_ℤ}
use dlt_matterbeam.Json.Text.{codes, ltb_codes}
use dlt_matterbeam.Exec.{Result, ok, err, ◌>>=◌, type_error}

-- What `<` looks at. `bool` is a number in Python.
pub data Key : Type 0 where
  number : ℤ → Key
  text : List ℕ → Key
  other : Key

abbrev pub sort_key : Json → Key
sort_key (boolean true) = number (pos 1)
sort_key (boolean false) = number (pos 0)
sort_key (num z) = number z
sort_key (str s) = text (codes s)
sort_key _ = other

abbrev pub key_lt : Key → Key → Result Bool
key_lt (number a) (number b) = ok (ltb_ℤ a b)
key_lt (text a) (text b) = ok (ltb_codes a b)
key_lt _ _ = err type_error

-- `a < b`
unfoldable pub py_lt : Json → Json → Result Bool
py_lt a b = key_lt (sort_key a) (sort_key b)

-- whether the sort puts a row with the first key before one with the second
abbrev pub before : Bool → Json → Json → Result Bool
before reverse a b = if reverse then py_lt b a else py_lt a b

abbrev pub key : String → Row → Json
key col row = elim (lookup col row) [ none ↦ null | some v ↦ v ]

-- `r.get(col) is None`
abbrev pub is_null : Json → Bool
is_null null = true
is_null _ = false

abbrev pub is_present : String → Row → Bool
is_present col row = not (is_null (key col row))

module _ (reverse : Bool) (col : String) where
  unfoldable pub place : Row → List Row → Result (List Row)
  place x [] = ok (x ∷ [])
  place x (y ∷ ys) = do
    first ← before reverse (key col y) (key col x)
    if first then (do rest ← place x ys; ok (y ∷ rest)) else ok (x ∷ y ∷ ys)

  unfoldable pub sort_by : List Row → Result (List Row)
  sort_by [] = ok []
  sort_by (x ∷ xs) = do sorted ← sort_by xs; place x sorted

abbrev pub is_desc : Json → Bool
is_desc (str s) = s == "desc"
is_desc _ = false

unfoldable pub sort_rows : List Row → Option (String × Json) → Result (List Row)
sort_rows rows none = ok rows
sort_rows rows (some (col, direction)) = do
  present ← sort_by (is_desc direction) col (filter (is_present col) rows)
  ok (present ++ filter (λ r. not (is_present col r)) rows)
