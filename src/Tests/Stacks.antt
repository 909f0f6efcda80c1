-- ===== src/Tests/Stacks.antt =====
-- The theorems on the whole stack: a client over HTTP to a server with one process.
use dlt_matterbeam.Prelude.{
  ℕ, ◌+◌, String, ◌≡◌, refl, true, false, none, some, [], ◌∷◌, arith, decimal, update,
}
use dlt_matterbeam.Json.{Row, truthy, str, num, object}
use dlt_matterbeam.Json.Int.{pos}
use dlt_matterbeam.Exec.{ok}
use dlt_matterbeam.LoadJob.{Chunk}
use dlt_matterbeam.Client.{Client, Setting, StateInfo, put_dlt_state, get_stored_state}
use dlt_matterbeam.Client.StateSync.{HasState}
use dlt_matterbeam.Transport.Http.{
  Request, Response, Net, HttpTransport, http, register, get_dlt_state, send_chunk, complete_load,
  put, empty, bytes, wire_records,
}
use dlt_matterbeam.Transport.Http
use dlt_matterbeam.Server.{Server, Item, Knobs, Fault, init, IngestResult, running}
use dlt_matterbeam.Server.Segments.{write_segment, pack_record_id, padded, digit_count, digits_in}
use dlt_matterbeam.Server.State
use dlt_matterbeam.Server.Lock
use dlt_matterbeam.Server.Lock.{with_lock, claim, release}
use dlt_matterbeam.Server.Ingest.{ingest, ingest_locked, ledger_key, arrive, store, count_duplicate}
use dlt_matterbeam.Server.Ingest.Stages.{
  parse_line, parse_lines, select, stamp, track_arrival, commit,
}
use dlt_matterbeam.Envelope.Record.{build_wire_record, tombstone_and_body}
use dlt_matterbeam.Server.Routes.{Draws, token, unauthenticated}
use dlt_matterbeam.Server.Routes.Handler.{handle}
use dlt_matterbeam.Server.Routes.Api.{World, serve, after, api, ingest_at, is_contention, settled}
use dlt_matterbeam.Server.Routes.Once.{once}
use dlt_matterbeam.Server.Routes.Refinement.{http_refines_api}
use dlt_matterbeam.Server.Routes.Stack.{state_round_trip, send_again}
use dlt_matterbeam.Server.Routes.Access.{upload, handle_access}
use dlt_matterbeam.Server.Routes.Busy.{busy, left_by}
use dlt_matterbeam.Server.Routes.Liveness.{send_chunk_settles}
use dlt_matterbeam.Server.Registry
use dlt_matterbeam.Server.Registry.{new_item}

abbrev pub knobs : Knobs
knobs = record { lock_on = true; clamp_on = true; dedup_on = true }

abbrev pub repr : Fault → String
repr f = "error"

abbrev pub draws : ℕ → Draws
draws n = record { now_ms = 1000; now_text = "now"; noise = 7; new_pid = "p9"; upload_token = "u1" }

abbrev pub dropped : Response
dropped = record { status_code = 500; body = none }

abbrev pub t : HttpTransport
t = record { api_token = some token; max_409_retries = 5 }

unfoldable pub server : Server
unfolding Registry.register new_item
server = (Registry.register "pipe" "data" "external_dlt" "p1" init).1

abbrev world : World
world = record { server = server; served = 0 }

abbrev pub net : Net World
net = record { peer = world; requests = 0; slept = 0 }

abbrev chunk : Chunk
chunk = record {
  recordtype_id = "data.users";
  dataset_name = "data";
  table_name = "users";
  rows = [];
  keys = [];
  hard_delete = [];
  load_id = "l1";
  job_id = "j1";
  seq = 0;
}

abbrev doc : Row
doc = ("version", num (pos 3)) ∷ []

abbrev pub over : Request → World → Response × World
over = serve knobs repr "host" draws dropped

http_refines_api_example :
    let spec = api knobs draws in
    (register over t "pipe" "data" net ≡ once (spec.register "pipe" "data") net)
    × (get_dlt_state over t "p1" net ≡ once (spec.get_dlt_state "p1") net)
    × (Http.put_dlt_state over t "p1" doc net ≡ once (spec.put_dlt_state "p1" doc) net)
    × (send_chunk over t chunk (some "p1") net ≡ once (spec.send_chunk chunk (some "p1")) net)
    × (complete_load over t "l1" (some "p1") net ≡ once (spec.complete_load "l1" (some "p1")) net)
unfolding ingest with_lock claim release ingest_locked store parse_lines Registry.register
    Registry.registry_key server wire_records State.put_dlt_state State.write_state truthy
http_refines_api_example =
    http_refines_api knobs repr "host" draws dropped t (omega arith) refl "pipe" "data" "p1" "l1"
      (some "p1") doc chunk [] net refl refl refl refl

abbrev row : Row
row =
    ("version", num (pos 3))
    ∷ ("engine_version", num (pos 4))
    ∷ ("pipeline_name", str "pipe")
    ∷ ("state", str "{}")
    ∷ ("created_at", str "now")
    ∷ ("_dlt_load_id", str "l1")
    ∷ []

abbrev info : StateInfo
info = record {
  version = num (pos 3);
  engine_version = num (pos 4);
  pipeline_name = str "pipe";
  state = str "{}";
  created_at = str "now";
  version_hash = none;
  dlt_load_id = some (str "l1");
}

abbrev has_info : HasState row info
has_info = record {
  version = refl;
  engine_version = refl;
  pipeline_name = refl;
  state = refl;
  created_at = refl;
  version_hash = refl;
  load_id = (str "l1", refl, refl);
}

abbrev setting : Setting
setting = record { dataset_name = "data"; schema_name = "s"; active_pipeline = some "pipe" }

abbrev resolved : Client (Net World)
resolved = record { pid = some "p1"; pid_resolved = true; net = net }

abbrev item : Item
unfolding new_item
item = new_item "external_dlt"

state_round_trip_example :
    (get_stored_state
      (http over t)
      setting
      "pipe"
      (put_dlt_state (http over t) setting row resolved).1).0
    ≡ ok (some info)
unfolding server item truthy
state_round_trip_example =
    state_round_trip knobs repr "host" draws dropped t (omega arith) refl setting resolved "p1"
      "pipe" row info item refl (record { there = refl; listens = refl; free = refl }) refl refl
      refl has_info

abbrev pub full : Chunk
full = record chunk { rows = (("_dlt_id", str "r1") ∷ ("id", num (pos 1)) ∷ []) ∷ [] }

abbrev wire_row : Row
wire_row = ("v", object (("id", num (pos 1)) ∷ [])) ∷ ("i", str "r1") ∷ []

abbrev stored : IngestResult
stored = record {
  record_count = 1;
  segment_key =
      some "segments/p1.users/10000000000000000010000000007.10000000000000000010000000007.jsonl";
  writer_id = 1;
  first_record_id = some 10000000000000000010000000007;
  last_record_id = some 10000000000000000010000000007;
  duplicate = false;
}

send_again_example :
    let first = send_chunk over t full (some "p1") net in
    let again = send_chunk over t full (some "p1") first.1 in
    (first.0 ≡ ok stored.segment_key)
    × (again.0 ≡ ok stored.segment_key)
    × (again.1.peer.server ≡ count_duplicate first.1.peer.server)
unfolding ingest with_lock claim release ingest_locked arrive store parse_line parse_lines select
    stamp track_arrival commit write_segment pack_record_id padded digit_count digits_in
    Registry.register Registry.registry_key new_item ledger_key decimal wire_records
    build_wire_record tombstone_and_body server
send_again_example =
    send_again knobs repr "host" draws dropped t (omega arith) refl full (some "p1") (wire_row ∷ [])
      net stored refl refl refl

abbrev intruder : Request
intruder = record {
  method = put;
  path = "uploads" ∷ "guess" ∷ [];
  authorization = "";
  headers = [];
  body = empty;
}

-- the server, with a token given out
abbrev giving : Server
giving = record server {
  pending_uploads =
      update "u1" (some ("p1", "deployments/dlt/p1/p1.tar.gz")) server.pending_uploads;
}

-- a state write
abbrev stranger : Request
stranger = record intruder { path = "collectors" ∷ "p1" ∷ "state" ∷ [] }

handle_access_example :
    let once_used =
      handle knobs repr "host" (draws 0) (upload "u1" (bytes (1 ∷ [])) intruder) giving in
    (handle knobs repr "host" (draws 0) stranger giving ≡ (some unauthenticated, giving))
    × ((handle knobs repr "host" (draws 0) (upload "u2" (bytes (2 ∷ [])) intruder) giving).1
        ≡ giving)
    × ((handle knobs repr "host" (draws 1) (upload "u1" (bytes (2 ∷ [])) intruder) once_used.1).1
        ≡ once_used.1)
unfolding server Registry.register new_item
handle_access_example =
    handle_access knobs repr "host" (draws 0) (draws 1) stranger intruder intruder giving "u2" "u1"
      (1 ∷ []) (bytes (2 ∷ [])) refl refl refl

abbrev held_item : Item
held_item = record item { update_version = 2; invoke_semaphore = 0; fsm_state = running }

abbrev held_world : World
held_world = record { server = Lock.set_item "p1" held_item server; served = 0 }

send_chunk_settles_example :
    let w' = left_by knobs repr "host" draws dropped "p1" 2 1 held_world in
    let x = ingest_at knobs draws full (some "p1") (wire_row ∷ []) w' in
    (n' : Net (World × ℕ)) × (send_chunk
        (busy knobs repr "host" draws dropped "p1" 2)
        t
        full
        (some "p1")
        (record { peer = (held_world, 2); requests = 0; slept = 0 })
      ≡ (settled (λ r. ok r.segment_key) x.0, n'))
    × (n'.peer ≡ (after w' x.1, 0))
    × (n'.requests ≡ 0 + (1 + 2))
    × (is_contention x.0 ≡ false)
unfolding server item wire_records build_wire_record tombstone_and_body Registry.register
    Registry.registry_key ledger_key decimal
send_chunk_settles_example =
    send_chunk_settles knobs repr "host" draws dropped t (omega arith) refl full (some "p1")
      (wire_row ∷ []) "p1" held_item refl refl 1 0 0 held_world
      (record { there = refl; listens = refl; held = refl }) refl refl (omega arith)
