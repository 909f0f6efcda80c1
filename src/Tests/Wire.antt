-- ===== src/Tests/Wire.antt =====
-- The transports' theorems at small peers.
use dlt_matterbeam.Prelude.{
  ℕ, zero, suc, ◌+◌, ◌*◌, ◌≡◌, ◌⊎◌, refl, none, some, List, [], ◌∷◌, ◌++◌, arith, update,
}
use dlt_matterbeam.Json.{Row, null, str, num, object}
use dlt_matterbeam.Json.Int.{pos}
use dlt_matterbeam.Exec.{Error, ok, err, terminal, gave_up, attribute_error}
use dlt_matterbeam.Envelope.Record.{build_wire_record, tombstone_and_body}
use dlt_matterbeam.LoadJob.{Chunk}
use dlt_matterbeam.Transport.File.{Files, file_key}
use dlt_matterbeam.Transport.File.Appends.{Built, Stuck, send_chunk_lem}
use dlt_matterbeam.Transport.File
use dlt_matterbeam.Transport.Http.{
  Request, Response, Net, HttpTransport, verdict, conflict_reason, request, send_request, get,
  empty, register, get_dlt_state, put_dlt_state, send_chunk, complete_load, wire_records,
}
use dlt_matterbeam.Transport.Http.Retry.{
  send_request_settle, send_request_give_up, outcome, reply_after, peer_after,
}
use dlt_matterbeam.Transport.Http.Conflicts.{http_absent}

abbrev contention : Response
contention = record {
  status_code = 409;
  body = some (
      object (
        ("error", object (("context", object (("reason", str "lock_contention") ∷ [])) ∷ []))
        ∷ []));
}

abbrev fine : Response
fine = record { status_code = 200; body = some null }

-- a peer that is busy for so many requests
abbrev busy_for : Request → ℕ → Response × ℕ
busy_for r zero = (fine, zero)
busy_for r (suc n) = (contention, n)

abbrev client : HttpTransport
client = record { api_token = some "k"; max_409_retries = 3 }

abbrev net : ℕ → Net ℕ
net n = record { peer = n; requests = 0; slept = 0 }

abbrev made : Request
made = request client get ("collectors" ∷ []) [] empty

send_request_settle_example :
    (n' : Net ℕ) × (send_request busy_for client get ("collectors" ∷ []) [] empty (net 2)
      ≡ (outcome (verdict (reply_after busy_for made 2 2)) (reply_after busy_for made 2 2), n'))
    × (n'.peer ≡ peer_after busy_for made 3 2)
    × (n'.requests ≡ 0 + (2 + 1))
    × (2 * n'.slept ≡ 2 * 0 + 2 * (2 + 1))
unfolding verdict conflict_reason
send_request_settle_example =
    send_request_settle busy_for client get ("collectors" ∷ []) [] empty (net 2) 2
      (refl, (refl, tt)) (omega arith) (λ h. cc)

send_request_give_up_example :
    (n' : Net ℕ) × (send_request busy_for client get ("collectors" ∷ []) [] empty (net 9)
      ≡ (err (terminal (gave_up 3)), n'))
    × (n'.requests ≡ 0 + 3)
    × (2 * n'.slept ≡ 2 * 0 + 3 * (3 + 1))
unfolding verdict conflict_reason
send_request_give_up_example =
    send_request_give_up busy_for client get ("collectors" ∷ []) [] empty (net 9)
      (refl, (refl, (refl, tt)))

abbrev row : Row
row = ("_dlt_id", str "r1") ∷ ("id", num (pos 1)) ∷ []

abbrev chunk : Chunk
chunk = record {
  recordtype_id = "data.users";
  dataset_name = "data";
  table_name = "users";
  rows = row ∷ [];
  keys = "id" ∷ [];
  hard_delete = [];
  load_id = "l1";
  job_id = "j1";
  seq = 0;
}

-- a peer that knows no path
abbrev gone : Request → ℕ → Response × ℕ
gone r n = (record { status_code = 404; body = none }, n)

abbrev gone_is_404 : (r : Request) → (gone r 0).0.status_code ≡ 404
gone_is_404 r = refl

http_absent_example :
    ((register gone client "p" "d" (net 0)).0 ≡ err attribute_error)
    × ((send_chunk gone client chunk (some "p1") (net 0)).0 ≡ err attribute_error)
    × ((get_dlt_state gone client "p1" (net 0)).0 ≡ ok none)
    × ((put_dlt_state gone client "p1" row (net 0)).0 ≡ ok tt)
    × ((complete_load gone client "l1" (some "p1") (net 0)).0 ≡ ok tt)
unfolding wire_records build_wire_record tombstone_and_body
http_absent_example =
    http_absent gone client (net 0) (omega arith) gone_is_404 "p" "d" "p1" "l1" (some "p1") row
      chunk refl

abbrev no_files : Files
no_files key = []

send_chunk_lem_example :
    ((records : List Row) × Built "now" chunk chunk.rows records
      × (File.send_chunk "now" chunk none no_files
          ≡ (ok (some (file_key chunk)), update (file_key chunk) ([] ++ records) no_files)))
    ⊎ ((e : Error) × Stuck "now" chunk e chunk.rows
        × (File.send_chunk "now" chunk none no_files ≡ (err e, no_files)))
send_chunk_lem_example = send_chunk_lem "now" chunk none no_files
