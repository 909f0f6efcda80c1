-- ===== src/Fold.antt =====
-- `fold` and `body` of tests/fake_matterbeam/fold.py: the current state of a table from its facts.
-- Python's `str`, by which a key is written, is a parameter.
pub mod LastValue
pub mod Scan
use Prim.Native.String.{◌++◌ as str_append}
use dlt_matterbeam.Prelude.{
  ℕ, String, Bool, true, false, not, ◌||◌, Option, none, some, List, [], ◌∷◌, map, ◌==◌, Dict,
  lookup, insert, remove, filter, is_empty, if◌then◌else◌,
}
use dlt_matterbeam.Json.{Json, Row, obj, from_fields, truthy?}
use dlt_matterbeam.Exec
use dlt_matterbeam.Exec.{Result, ok, err, attribute_error}

-- a fact: its record id and its record
abbrev pub Fact : Type 0
Fact = ℕ × Row

-- `",".join(parts)`
abbrev pub join : List String → String
join [] = ""
join (p ∷ []) = p
join (p ∷ q ∷ ps) = str_append p (str_append "," (join (q ∷ ps)))

-- `meta.get("is_tombstone")`, of metadata that is no dict if it is not an object
abbrev pub tombstone_of : Option Json → Result Bool
tombstone_of none = ok false
tombstone_of (some (obj fs)) = ok (truthy? (lookup "is_tombstone" (from_fields fs)))
tombstone_of (some _) = err attribute_error

abbrev pub is_tombstone : Row → Result Bool
is_tombstone record' = tombstone_of (lookup "mb.metadata" record')

-- what one fact does to the state
abbrev pub replay : String → Row → Bool → Dict Row → Dict Row
replay key record' true state = remove key state
replay key record' false state = insert key record' state

module _ (show : Option Json → String) (key_fields : List String) where
  abbrev pub key_of : Row → String
  key_of record' = join (map (λ f. show (lookup f record')) key_fields)

  -- the loop over the facts of a keyed table
  unfoldable pub fold_from : Dict Row → List Fact → Result (Dict Row)
  fold_from state [] = ok state
  fold_from state ((rid, record') ∷ facts) =
      Exec.◌>>=◌ (is_tombstone record')
        λ t. fold_from (replay (key_of record') record' t state) facts

-- the state of a keyed table, or the records of a table without keys
pub data Folded : Type 0 where
  keyless : List Row → Folded
  keyed : Dict Row → Folded

abbrev records_of : List Fact → List Row
records_of [] = []
records_of ((rid, record') ∷ facts) = record' ∷ records_of facts

unfoldable pub fold : (Option Json → String) → List Fact → List String → Result Folded
fold show facts key_fields =
    if is_empty key_fields
    then ok (keyless (records_of facts))
    else Exec.◌>>=◌ (fold_from show key_fields [] facts) λ state. ok (keyed state)

-- the record without its metadata
unfoldable pub body : Row → Row
body = filter (λ kv. not (kv.0 == "mb.metadata" || kv.0 == "mb.schema_id"))
