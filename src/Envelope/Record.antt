-- ===== src/Envelope/Record.antt =====
-- `_tombstone_and_body`, `build_record` and `build_wire_record` of src/dlt_matterbeam/envelope.py.
pub mod Bodies
pub mod Agreement
use dlt_matterbeam.Prelude.{
  String, Bool, true, false, not, ◌&&◌, Option, none, some, List, [], ◌∷◌, ◌++◌, ◌==◌, lookup,
  insert, remove, any, is_empty, if◌then◌else◌,
}
use dlt_matterbeam.Json.{Json, Row, boolean, num, str, object, truthy, truthy?}
use dlt_matterbeam.Json.Int.{pos}
use dlt_matterbeam.Exec.{Result, ok, err, ◌>>=◌, key_error}

-- `{f: row[f] for f in keys}`, from what is filled in
unfoldable pub pick : Row → List String → Row → Result Row
pick row [] body = ok body
pick row (f ∷ fs) body = elim (lookup f row) [
  | none ↦ err (key_error f)
  | some v ↦ pick row fs (insert f v body)
]

-- `any(row.get(c) for c in hard_delete)`
abbrev pub is_deleted : Row → List String → Bool
is_deleted row hard_delete = any (λ c. truthy? (lookup c row)) hard_delete

unfoldable pub tombstone_and_body : Row → List String → List String → Result (Bool × Row)
tombstone_and_body row keys hard_delete =
    let is_tombstone = is_deleted row hard_delete in
    if is_tombstone && not (is_empty keys)
    then (do body ← pick row keys []; ok (is_tombstone, body))
    else ok (is_tombstone, row)

-- the row once `_dlt_id` and `_dlt_load_id` are popped
abbrev pub popped : Row → Row
popped row = remove "_dlt_load_id" (remove "_dlt_id" row)

-- an entry that is written only where the value is true of `if`
abbrev pub optional : String → Option Json → Row
optional k none = []
optional k (some j) = if truthy j then (k, j) ∷ [] else []

abbrev pub flag : String → Bool → Row
flag k b = if b then (k, boolean true) ∷ [] else []

-- `now` is the time of the call, formatted
abbrev pub metadata : String → String → Option Json → Bool → Option Json → String → Row
metadata now record_type_id schema_id is_tombstone dlt_id load_id =
    (("version", num (pos 1))
      ∷ ("record_type_id", str record_type_id)
      ∷ ("collected_at_utc", str now)
      ∷ [])
    ++ (optional "schema_id" schema_id
        ++ (flag "is_tombstone" is_tombstone
            ++ (optional "source_record_id" dlt_id
                ++ optional "source_load_id" (some (str load_id)))))

unfoldable pub build_record :
    String → Row → String → List String → List String → String → Option Json → Result Row
unfolding truthy
build_record now row record_type_id keys hard_delete load_id schema_id = do
  (is_tombstone, body) ← tombstone_and_body (popped row) keys hard_delete
  ok (
      insert "mb.metadata"
        (object (metadata now record_type_id schema_id is_tombstone (lookup "_dlt_id" row) load_id))
        body)

abbrev pub wire : Bool → Row → Option Json → Row
wire is_tombstone body dlt_id =
    (("v", object body) ∷ []) ++ (flag "t" is_tombstone ++ optional "i" dlt_id)

unfoldable pub build_wire_record : Row → List String → List String → Result Row
unfolding truthy
build_wire_record row keys hard_delete = do
  (is_tombstone, body) ← tombstone_and_body (popped row) keys hard_delete
  ok (wire is_tombstone body (lookup "_dlt_id" row))
