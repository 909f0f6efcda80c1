-- ===== src/Envelope/Record/Agreement.antt =====
-- `build_record` and `build_wire_record` say the same of a row.
use dlt_matterbeam.Prelude.{
  String, ◌≡◌, refl, ◌↔◌, Bool, Option, some, List, arith, lookup, insert, inl, inr,
}
use dlt_matterbeam.Json.{Json, Row, object}
use dlt_matterbeam.Exec.{Error, ok, err, Result-cases, ok-injective}
use dlt_matterbeam.Envelope.Record.{
  tombstone_and_body, popped, metadata, wire, build_record, build_wire_record,
}

module _ (now record_type_id load_id : String) (schema_id dlt_id : Option Json) (t : Bool)
    (body : Row) where
  lookup-metadata :
      let meta = metadata now record_type_id schema_id t dlt_id load_id in
      (lookup "is_tombstone" meta ≡ lookup "t" (wire t body dlt_id))
      × (lookup "source_record_id" meta ≡ lookup "i" (wire t body dlt_id))
  lookup-metadata = ground arith

-- The two builders fail together, and where they succeed the local fact is the wire record's body
-- with metadata inserted: that metadata marks a tombstone exactly where the wire record does, and
-- names the same source record.
pub build_record-build_wire_record :
    (now record_type_id load_id : String) (schema_id : Option Json) (row : Row)
    (keys hard_delete : List String)
    → ((e : Error)
        → (build_wire_record row keys hard_delete ≡ err e)
          ↔ (build_record now row record_type_id keys hard_delete load_id schema_id ≡ err e))
      × ((w : Row)
          → build_wire_record row keys hard_delete ≡ ok w
          → (body meta : Row) × (lookup "v" w ≡ some (object body))
            × (build_record now row record_type_id keys hard_delete load_id schema_id
                ≡ ok (insert "mb.metadata" (object meta) body))
            × (lookup "is_tombstone" meta ≡ lookup "t" w)
            × (lookup "source_record_id" meta ≡ lookup "i" w))
unfolding build_record build_wire_record
build_record-build_wire_record now record_type_id load_id schema_id row keys hard_delete =
    elim (Result-cases (tombstone_and_body (popped row) keys hard_delete)) [
      | inl ((t, body), p) ↦ (
        λ e. ground arith,
        λ w h. rw (← ok-injective (rw (build_wire_record, p) at h)) (
          body,
          metadata now record_type_id schema_id t (lookup "_dlt_id" row) load_id,
          refl,
          rw (build_record, p),
          (same t body).0,
          (same t body).1,
        ),
      )
      | inr (e, p) ↦ (λ e. ground arith, λ w h. absurd (ground arith))
    ]
  where
    same :
        (t : Bool) (body : Row)
        → (lookup "is_tombstone"
              (metadata now record_type_id schema_id t (lookup "_dlt_id" row) load_id)
            ≡ lookup "t" (wire t body (lookup "_dlt_id" row)))
          × (lookup "source_record_id"
                (metadata now record_type_id schema_id t (lookup "_dlt_id" row) load_id)
              ≡ lookup "i" (wire t body (lookup "_dlt_id" row)))
    same = lookup-metadata now record_type_id load_id schema_id (lookup "_dlt_id" row)
