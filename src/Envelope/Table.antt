-- ===== src/Envelope/Table.antt =====
-- The hints of a table: `key_fields`, `hard_delete_fields`, `dedup_sort` and `check_disposition` of
-- src/dlt_matterbeam/envelope.py.
use dlt_matterbeam.Prelude.{
  String, Bool, false, not, ◌&&◌, Option, none, some, List, [], ◌∷◌, map, ◌==◌, Dict, lookup,
  filter, is_empty, if◌then◌else◌,
}
use dlt_matterbeam.Json.{Json, Row, truthy, truthy?}
use dlt_matterbeam.Exec.{Result, ok, err, scd_refused}

-- A column is named, and has hints such as `primary_key`.
pub record Column : Type 0 where
  pub name : String
  pub hints : Row

pub record Table : Type 0 where
  pub name : String
  pub columns : Dict Column
  pub write_disposition : Option String
  pub merge_strategy : Option String

abbrev pub values : Dict Column → List Column
values [] = []
values ((k, c) ∷ d) = c ∷ values d

abbrev pub column_keys : Dict Column → List String
column_keys [] = []
column_keys ((k, c) ∷ d) = k ∷ column_keys d

-- `c.get(hint)` as a condition
abbrev pub has_hint : String → Column → Bool
has_hint hint c = truthy? (lookup hint c.hints)

abbrev pub names_with : String → List Column → List String
names_with hint cs = map (λ c. c.name) (filter (has_hint hint) cs)

unfoldable pub key_fields : Table → List String
key_fields t =
    let fields = names_with "primary_key" (values t.columns) in
    if is_empty fields then names_with "merge_key" (values t.columns) else fields

unfoldable pub hard_delete_fields : Table → List String
hard_delete_fields t = names_with "hard_delete" (values t.columns)

-- the direction is what the hint holds, `"asc"` or `"desc"`
abbrev pub sort_hint : List Column → Option (String × Json)
sort_hint [] = none
sort_hint (c ∷ cs) = elim (lookup "dedup_sort" c.hints) [
  | none ↦ sort_hint cs
  | some direction ↦ if truthy direction then some (c.name, direction) else sort_hint cs
]

unfoldable pub dedup_sort : Table → Option (String × Json)
dedup_sort t = sort_hint (values t.columns)

-- The warning that `replace` is degraded names the table, and says whether it is keyed.
pub record Degraded : Type 0 where
  pub table : String
  pub keyed : Bool

abbrev pub is_text : String → Option String → Bool
is_text s none = false
is_text s (some t) = t == s

unfoldable pub check_disposition : Table → Result (Option Degraded)
check_disposition t =
    if is_text "merge" t.write_disposition && is_text "scd2" t.merge_strategy
    then err scd_refused
    else if is_text "replace" t.write_disposition
    then ok (some (record { table = t.name; keyed = not (is_empty (key_fields t)) }))
    else ok none
