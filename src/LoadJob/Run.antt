-- ===== src/LoadJob/Run.antt =====
-- The whole of `MatterbeamLoadJob.run`.
use mathlib.Core.List.{flatten}
use dlt_matterbeam.Prelude.{ℕ, String, ◌≡◌, false, Option, List, All, is_empty}
use dlt_matterbeam.Json.{Json, Row}
use dlt_matterbeam.Exec.{ok, err, scd_refused}
use dlt_matterbeam.Action.{Action, ◌>>◌, bind_congr}
use dlt_matterbeam.Envelope.Table.{Degraded, check_disposition, dedup_sort}
use dlt_matterbeam.Envelope.Rows.{from_list, iter_stripped_rows}
use dlt_matterbeam.LoadJob.{Chunk, LoadConfig, Job, chunk_of, columns, ordered, warn_if, run}
use dlt_matterbeam.LoadJob.Chunks.{IsWithin, AllButLastFull, send_all, send_rows_chunks}

module _ {S : Type 0} (custom_pua_remove : String → String) (loads : String → Option Json)
    (row_bytes : Row → ℕ) (warn : Degraded → Action S (Unit {0}))
    (send_chunk : Chunk → Action S (Unit {0})) (config : LoadConfig) (job : Job) (s : S) where
  -- A job whose table is accepted and whose file reads as some rows, in the order that the table
  -- asks for, warns if the table is to be replaced, and then sends those rows in numbered chunks,
  -- within the limits, in order, whole, and packed.
  pub run_chunks :
      (d : Option Degraded) (rs : List Row)
      → check_disposition job.table ≡ ok d
      → ordered
          (dedup_sort job.table)
          (iter_stripped_rows custom_pua_remove loads (columns job.table) job.lines)
        ≡ ok (from_list rs)
      → is_empty rs ≡ false
      → (cs : List (List Row)) × (run custom_pua_remove loads row_bytes warn send_chunk config job s
          ≡ (warn_if warn d
                >> send_all row_bytes config.limits
                    (λ rows seq. send_chunk (chunk_of config job rows seq))
                    cs
                    0)
              s)
        × (flatten cs ≡ rs)
        × All (IsWithin row_bytes config.limits) cs
        × AllButLastFull row_bytes config.limits cs
  unfolding run
  run_chunks d rs accepted read some_rows =
      let (cs, sent, whole, within_limits, packed) =
        send_rows_chunks row_bytes config.limits send rs (warn_if warn d s).1 some_rows in
      (
        cs,
        rw (run, accepted, read) (bind_congr (warn_if warn d) _ _ s sent),
        whole,
        within_limits,
        packed,
      )
    where
      send : List Row → ℕ → Action S (Unit {0})
      send rows seq = send_chunk (chunk_of config job rows seq)

  -- A refused table is not warned of, and nothing of it is sent.
  pub run_refused :
      check_disposition job.table ≡ err scd_refused
      → run custom_pua_remove loads row_bytes warn send_chunk config job s ≡ (err scd_refused, s)
  unfolding run
  run_refused h = rw (run, h)
