-- ===== src/Tests/Reruns.antt =====
-- A load job of two rows, in chunks of one, that runs a second time.
use dlt_matterbeam.Prelude.{ℕ, String, ◌≡◌, refl, Option, none, some, [], ◌∷◌, arith, decimal}
use dlt_matterbeam.Json.{Json, Row, str, object, truthy}
use dlt_matterbeam.Exec.{ok}
use dlt_matterbeam.Action.{Action, pure}
use dlt_matterbeam.Envelope.Table.{
  Table, check_disposition, dedup_sort, key_fields, hard_delete_fields,
}
use dlt_matterbeam.Envelope.Strip.{strip_pua}
use dlt_matterbeam.Envelope.Rows.{iter_stripped_rows, is_space}
use dlt_matterbeam.Envelope.Record.{build_wire_record, tombstone_and_body}
use dlt_matterbeam.LoadJob.{LoadConfig, Job, run, send_rows, chunk_of, ordered}
use dlt_matterbeam.Transport.Http.{
  Net, wire_records, send_chunk, terminal_on_conflict, send_request, attempts, verdict,
}
use dlt_matterbeam.Server.Segments.{write_segment, pack_record_id, padded, digit_count, digits_in}
use dlt_matterbeam.Server.Lock.{with_lock, claim, release}
use dlt_matterbeam.Server.Ingest.{ingest, ingest_locked, ledger_key, arrive, store}
use dlt_matterbeam.Server.Ingest.Stages.{
  parse_line, parse_lines, select, stamp, track_arrival, commit,
}
use dlt_matterbeam.Server.Registry
use dlt_matterbeam.Server.Registry.{new_item}
use dlt_matterbeam.Server.Routes.{bulk_table}
use dlt_matterbeam.Server.Routes.Handler.{handle, post_routes, post_ingest}
use dlt_matterbeam.Server.Routes.Api.{World, serve}
use dlt_matterbeam.Server.Routes.Resend.{uncounted}
use dlt_matterbeam.Server.Routes.Rerun.{send, run_again}
use dlt_matterbeam.Tests.Stacks.{knobs, repr, draws, dropped, t, server, net}

abbrev table : Table
table = record {
  name = "users";
  columns = ("id", record { name = "id"; hints = [] }) ∷ [];
  write_disposition = none;
  merge_strategy = none;
}

abbrev job : Job
job = record { table = table; lines = "1" ∷ "2" ∷ []; load_id = "l1"; job_id = "j1" }

-- a line reads as the row with its text as its ids
abbrev loads : String → Option Json
loads s = some (object (("_dlt_id", str s) ∷ ("id", str s) ∷ []))

abbrev same : String → String
same s = s

abbrev one : Row → ℕ
one row = 1

abbrev config : LoadConfig
config = record { dataset_name = "data"; limits = record { chunk_records = 1; chunk_bytes = 100 } }

abbrev load : Action (Net World) (Unit {0})
load =
    run same loads one (λ degraded. pure tt)
      (send knobs repr "host" draws dropped t (omega arith) refl (some "p1")) config job

run_again_example :
    ((load (load net).1).0 ≡ ok tt)
    × (uncounted (load (load net).1).1.peer.server ≡ uncounted (load net).1.peer.server)
unfolding run send_rows chunk_of ordered check_disposition dedup_sort key_fields hard_delete_fields
    iter_stripped_rows is_space strip_pua truthy send_chunk terminal_on_conflict send_request
    attempts verdict serve handle post_routes post_ingest bulk_table ingest with_lock claim release
    ingest_locked arrive store parse_line parse_lines select stamp track_arrival commit
    write_segment pack_record_id padded digit_count digits_in Registry.register
    Registry.registry_key new_item ledger_key decimal wire_records build_wire_record
    tombstone_and_body server
run_again_example =
    run_again knobs repr "host" draws dropped t (omega arith) refl same loads one (some "p1") config
      job net (load net).1 refl (λ k h. h)
