-- ===== src/Transport/File.antt =====
-- `FileTransport` of src/dlt_matterbeam/transport.py: a directory of files, each a list of records.
-- A record stands for its line, and the clock does not move during a call.
pub mod Appends
use Prim.Native.String.{◌++◌ as str_append}
use dlt_matterbeam.Prelude.{String, Option, none, some, List, [], ◌∷◌, ◌++◌, update}
use dlt_matterbeam.Json.{Row}
use dlt_matterbeam.Exec.{Result, ok, ◌>>=◌}
use dlt_matterbeam.Action
use dlt_matterbeam.Action.{Action}
use dlt_matterbeam.Envelope.Record.{build_record}
use dlt_matterbeam.LoadJob.{Chunk}
use dlt_matterbeam.Transport.{Transport}

abbrev pub Files : Type 0
Files = String → List Row

unfoldable pub file_records : String → Chunk → List Row → Result (List Row)
file_records now c [] = ok []
file_records now c (row ∷ rows) = do
  record' ← build_record now row c.recordtype_id c.keys c.hard_delete c.load_id none
  records ← file_records now c rows
  ok (record' ∷ records)

abbrev pub file_key : Chunk → String
file_key c = str_append c.recordtype_id ".jsonl"

-- what is written, and the key that is returned
abbrev write : Chunk → List Row → Action Files (Option String)
write c records files =
    (ok (some (file_key c)), update (file_key c) (files (file_key c) ++ records) files)

unfoldable pub send_chunk : String → Chunk → Option String → Action Files (Option String)
send_chunk now c pid files = Action.continue (file_records now c c.rows) (write c) files

abbrev pub file : String → Transport Files
file now = record {
  register = λ _ _. Action.pure none;
  get_dlt_state = λ _. Action.pure none;
  put_dlt_state = λ _ _. Action.pure tt;
  send_chunk = send_chunk now;
  complete_load = λ _ _. Action.pure tt;
}
