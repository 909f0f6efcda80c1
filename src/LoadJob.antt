-- ===== src/LoadJob.antt =====
-- src/dlt_matterbeam/load_job.py: the jobs that read a load file and hand chunks of rows to the
-- client. The client is a parameter here, as are dlt's `custom_pua_remove` and the JSON codec.
pub mod Chunks
pub mod Run
pub mod State
pub mod Rerun
use Prim.Native.String.{◌++◌ as str_append}
use dlt_matterbeam.Prelude.{
  ℕ, zero, suc, ◌+◌, String, Bool, not, ◌||◌, Option, none, some, List, [], ◌∷◌, ◌++◌, length, leb,
  nat_beq, is_empty, if◌then◌else◌,
}
use dlt_matterbeam.Json.{Json, Row}
use dlt_matterbeam.Exec.{Result, ok, ◌>>=◌ as bind}
use dlt_matterbeam.Envelope.Sort.{sort_rows}
use dlt_matterbeam.Action.{Action, pure, raise, lift, ◌>>=◌, ◌>>◌}
use dlt_matterbeam.Envelope.Table.{
  Table, Degraded, key_fields, hard_delete_fields, dedup_sort, check_disposition, column_keys,
}
use dlt_matterbeam.Envelope.Rows.{Rows, done, raised, yield, iter_stripped_rows, collect, from_list}

-- the arguments of `send_chunk`
pub record Chunk : Type 0 where
  pub recordtype_id : String
  pub dataset_name : String
  pub table_name : String
  pub rows : List Row
  pub keys : List String
  pub hard_delete : List String
  pub load_id : String
  pub job_id : String
  pub seq : ℕ

pub record Limits : Type 0 where
  pub chunk_records : ℕ
  pub chunk_bytes : ℕ

abbrev pub is_full : Limits → List Row → ℕ → Bool
is_full limits pending pending_bytes =
    leb limits.chunk_records (length pending) || leb limits.chunk_bytes pending_bytes

module _ {S : Type 0} (row_bytes : Row → ℕ) (limits : Limits)
    (send : List Row → ℕ → Action S (Unit {0})) where
  -- the loop over `rows`, and the send after it
  unfoldable pub send_rows : Rows → List Row → ℕ → ℕ → Action S (Unit {0})
  send_rows done pending pending_bytes seq =
      if not (is_empty pending) || nat_beq seq 0 then send pending seq else pure tt
  send_rows (raised e) pending pending_bytes seq = raise e
  send_rows (yield row rows) pending pending_bytes seq =
      let pending' = pending ++ row ∷ [] in
      let pending_bytes' = pending_bytes + row_bytes row in
      let flush = send pending' seq >> send_rows rows [] 0 (suc seq) in
      let more = send_rows rows pending' pending_bytes' seq in
      if is_full limits pending' pending_bytes' then flush else more

-- `client.config`, as the job reads it
pub record LoadConfig : Type 0 where
  pub dataset_name : String
  pub limits : Limits

-- dlt's job: its table, the lines of its file, and the ids of the load and of the job
pub record Job : Type 0 where
  pub table : Table
  pub lines : List String
  pub load_id : String
  pub job_id : String

-- the chunk that `send(rows, seq)` passes to the client
unfoldable pub chunk_of : LoadConfig → Job → List Row → ℕ → Chunk
chunk_of config job rows seq = record {
  recordtype_id = str_append config.dataset_name (str_append "." job.table.name);
  dataset_name = config.dataset_name;
  table_name = job.table.name;
  rows = rows;
  keys = key_fields job.table;
  hard_delete = hard_delete_fields job.table;
  load_id = job.load_id;
  job_id = job.job_id;
  seq = seq;
}

abbrev pub columns : Table → List String
columns t = column_keys t.columns ++ "_dlt_id" ∷ "_dlt_load_id" ∷ []

-- the rows in the order in which they are sent; a sort reads the whole file first
unfoldable pub ordered : Option (String × Json) → Rows → Result Rows
ordered none rows = ok rows
ordered (some hint) rows =
    bind (collect rows) λ read. bind (sort_rows read (some hint)) λ sorted. ok (from_list sorted)

-- only a table that asks for `replace` is warned of
abbrev pub warn_if :
    {S : Type 0} → (Degraded → Action S (Unit {0})) → Option Degraded → Action S (Unit {0})
warn_if warn none = pure tt
warn_if warn (some d) = warn d

module _ {S : Type 0} (custom_pua_remove : String → String) (loads : String → Option Json)
    (row_bytes : Row → ℕ) (warn : Degraded → Action S (Unit {0}))
    (send_chunk : Chunk → Action S (Unit {0})) where
  -- `MatterbeamLoadJob.run`
  unfoldable pub run : LoadConfig → Job → Action S (Unit {0})
  run config job = do
    degraded ← lift (check_disposition job.table)
    warn_if warn degraded
    rows ← lift (
        ordered (dedup_sort job.table)
          (iter_stripped_rows custom_pua_remove loads (columns job.table) job.lines))
    send_rows row_bytes config.limits (λ rows seq. send_chunk (chunk_of config job rows seq)) rows
        [] 0 0
