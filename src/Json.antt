-- ===== src/Json.antt =====
-- The JSON values that rows, metadata, requests and replies hold (Python's `json` on src/dlt_matterbeam).
-- A number is an integer.
pub mod Text
pub mod Int
use dlt_matterbeam.Prelude.{
  String, ◌≡◌, refl, Bool, true, false, not, Option, none, some, List, [], ◌∷◌, ◌==◌, Dict,
}
use Int.{ℤ, is_zero}

mutual
  pub data Json : Type 0 where
    null : Json
    boolean : Bool → Json
    num : ℤ → Json
    str : String → Json
    arr : Items → Json
    obj : Fields → Json

  pub data Items : Type 0 where
    nil : Items
    cons : Json → Items → Items

  pub data Fields : Type 0 where
    end : Fields
    field : String → Json → Fields → Fields

-- `bool(value)`
unfoldable pub truthy : Json → Bool
truthy null = false
truthy (boolean b) = b
truthy (num z) = not (is_zero z)
truthy (str s) = not (s == "")
truthy (arr nil) = false
truthy (arr (cons x xs)) = true
truthy (obj end) = false
truthy (obj (field k v fs)) = true

abbrev pub truthy? : Option Json → Bool
truthy? none = false
truthy? (some j) = truthy j

-- JSON's null is Python's `None`
abbrev pub as_doc : Json → Option Json
as_doc null = none
as_doc j = some j

-- a row, or any other object that the code reads and writes by key
abbrev pub Row : Type 0
Row = Dict Json

abbrev pub to_fields : Row → Fields
to_fields [] = end
to_fields ((k, v) ∷ d) = field k v (to_fields d)

abbrev pub from_fields : Fields → Row
from_fields end = []
from_fields (field k v fs) = (k, v) ∷ from_fields fs

pub from_fields-to_fields : (d : Row) → from_fields (to_fields d) ≡ d
from_fields-to_fields [] = refl
from_fields-to_fields ((k, v) ∷ d) = λ i. (k, v) ∷ from_fields-to_fields d i

abbrev pub object : Row → Json
object d = obj (to_fields d)
