-- ===== src/Tests/Jobs.antt =====
-- The load job's theorems at a file of three rows, in chunks of two.
use mathlib.Core.List.{flatten}
use dlt_matterbeam.Prelude.{ℕ, String, ◌≡◌, refl, true, Option, none, some, List, [], ◌∷◌, All}
use dlt_matterbeam.Json.{Json, Row, str, boolean, object, truthy}
use dlt_matterbeam.Exec.{ok}
use dlt_matterbeam.Action.{Action, pure, ◌>>◌}
use dlt_matterbeam.Envelope.Table.{Table, Degraded, check_disposition, dedup_sort, key_fields}
use dlt_matterbeam.Envelope.Strip.{strip_pua}
use dlt_matterbeam.Envelope.Sort.{sort_rows, sort_by, place, py_lt}
use dlt_matterbeam.Envelope.Rows.{from_list, collect, iter_stripped_rows, is_space}
use dlt_matterbeam.LoadJob.{
  Chunk, LoadConfig, Limits, Job, run, send_rows, chunk_of, warn_if, ordered,
}
use dlt_matterbeam.LoadJob.Chunks.{IsWithin, AllButLastFull, send_all, send_rows_chunks}
use dlt_matterbeam.LoadJob.Run.{run_chunks}

abbrev limits : Limits
limits = record { chunk_records = 2; chunk_bytes = 100 }

abbrev one : Row → ℕ
one row = 1

-- the chunks sent, the newest first
abbrev Sent : Type 0
Sent = List (List Row)

abbrev keep : List Row → ℕ → Action Sent (Unit {0})
keep rows seq s = (ok tt, rows ∷ s)

abbrev row : String → Row
row i = ("id", str i) ∷ []

abbrev rows : List Row
rows = row "1" ∷ row "2" ∷ row "3" ∷ []

send_rows_chunks_example :
    (cs : List (List Row)) × (send_rows one limits keep (from_list rows) [] 0 0 []
      ≡ send_all one limits keep cs 0 [])
    × (flatten cs ≡ rows)
    × All (IsWithin one limits) cs
    × AllButLastFull one limits cs
send_rows_chunks_example = send_rows_chunks one limits keep rows [] refl

abbrev table : Table
table = record {
  name = "users";
  columns =
      (
        "id",
        record {
          name = "id";
          hints = ("primary_key", boolean true) ∷ ("dedup_sort", str "desc") ∷ [];
        },
      )
      ∷ [];
  write_disposition = some "replace";
  merge_strategy = none;
}

abbrev job : Job
job = record { table = table; lines = "1" ∷ "2" ∷ "3" ∷ []; load_id = "l1"; job_id = "j1" }

-- a line reads as the row with its text as the id
abbrev loads : String → Option Json
loads s = some (object (row s))

abbrev same : String → String
same s = s

abbrev keep_chunk : Chunk → Action Sent (Unit {0})
keep_chunk c s = (ok tt, c.rows ∷ s)

abbrev ignore : Degraded → Action Sent (Unit {0})
ignore d = pure tt

abbrev config : LoadConfig
config = record { dataset_name = "data"; limits = limits }

run_chunks_example :
    (cs : List (List Row)) × (run same loads one ignore keep_chunk config job []
      ≡ (warn_if ignore (some (record { table = "users"; keyed = true }))
            >> send_all one limits (λ rows seq. keep_chunk (chunk_of config job rows seq)) cs 0)
          [])
    × (flatten cs ≡ row "3" ∷ row "2" ∷ row "1" ∷ [])
    × All (IsWithin one limits) cs
    × AllButLastFull one limits cs
unfolding check_disposition dedup_sort iter_stripped_rows strip_pua from_list ordered collect
    sort_rows sort_by place py_lt truthy is_space key_fields
run_chunks_example =
    run_chunks same loads one ignore keep_chunk config job []
      (some (record { table = "users"; keyed = true })) (row "3" ∷ row "2" ∷ row "1" ∷ []) refl refl
      refl
