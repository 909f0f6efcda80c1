-- ===== src/Transport/File/Appends.antt =====
-- A chunk that `FileTransport` of src/dlt_matterbeam/transport.py is given: appended, or refused.
use dlt_matterbeam.Prelude.{
  String, ◌≡◌, refl, Option, none, List, [], ◌∷◌, ◌++◌, update, some, ◌⊎◌, inl, inr,
}
use dlt_matterbeam.Json.{Row}
use dlt_matterbeam.Exec.{Error, Result, ok, err, Result-cases}
use dlt_matterbeam.Envelope.Record.{build_record}
use dlt_matterbeam.LoadJob.{Chunk}
use dlt_matterbeam.Transport.File.{Files, file_key, file_records, send_chunk}

module _ (now : String) (c : Chunk) where
  -- the record of one row, with the chunk's keys, deletion column and load id
  abbrev pub record_of : Row → Result Row
  record_of row = build_record now row c.recordtype_id c.keys c.hard_delete c.load_id none

  -- the rows, each with its record
  pub data Built : List Row → List Row → Type 0 where
    nil : Built [] []
    cons :
        {row r : Row} {rows records : List Row}
        → record_of row ≡ ok r
        → Built rows records
        → Built (row ∷ rows) (r ∷ records)

  -- the first row that has no record, after rows that have one
  pub data Stuck (e : Error) : List Row → Type 0 where
    here : {row : Row} {rows : List Row} → record_of row ≡ err e → Stuck e (row ∷ rows)
    there :
        {row r : Row} {rows : List Row} → record_of row ≡ ok r → Stuck e rows → Stuck e (row ∷ rows)

  file_records-Built :
      (rows : List Row)
      → ((records : List Row) × Built rows records × (file_records now c rows ≡ ok records))
        ⊎ ((e : Error) × Stuck e rows × (file_records now c rows ≡ err e))
  unfolding file_records
  file_records-Built [] = inl ([], nil, refl)
  file_records-Built (row ∷ rows) = elim (Result-cases (record_of row)) [
    | inr (e, p) ↦ inr (e, here p, rw p)
    | inl (r, p) ↦ elim (file_records-Built rows) [
      | inl (records, built, q) ↦ inl (r ∷ records, cons p built, rw (p, q) refl)
      | inr (e, stuck, q) ↦ inr (e, there p stuck, rw (p, q) refl)
    ]
  ]

  -- Where every row of a chunk has a record, under the chunk's keys, deletion column and load id,
  -- the records are appended to the file of its record type in the order of the rows, and no other
  -- file changes. Else there is a first row that has none: its error is the call's, and nothing is
  -- written, not even the rows before it.
  pub send_chunk_lem :
      (pid : Option String) (files : Files)
      → ((records : List Row) × Built c.rows records
          × (send_chunk now c pid files ≡ (
            ok (some (file_key c)),
            update (file_key c) (files (file_key c) ++ records) files,
          )))
        ⊎ ((e : Error) × Stuck e c.rows × (send_chunk now c pid files ≡ (err e, files)))
  unfolding send_chunk
  send_chunk_lem pid files = elim (file_records-Built c.rows) [
    | inl (records, built, p) ↦ inl (records, built, rw p)
    | inr (e, stuck, p) ↦ inr (e, stuck, rw p)
  ]
