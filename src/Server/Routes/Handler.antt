-- ===== src/Server/Routes/Handler.antt =====
-- `do_GET`, `do_POST`, `do_PUT` and `do_PATCH` of tests/fake_matterbeam/server.py.
use dlt_matterbeam.Prelude.{
  ℕ, String, Bool, true, ◌&&◌, Option, none, some, List, [], ◌∷◌, ◌==◌, Dict, lookup, if◌then◌else◌,
}
use dlt_matterbeam.Json.{Json, Row, str}
use dlt_matterbeam.Transport.Http.{
  get, post, put, patch, Body, bytes, json, Request, Response, text_of,
}
use dlt_matterbeam.Server.{
  Server, Knobs, Outcome, done, fault, Fault, contention, terminal, no_such_key, malformed,
}
use dlt_matterbeam.Server.Registry.{register, submit_secrets}
use dlt_matterbeam.Server.Build.{create_upload_url, receive_upload, trigger_build, get_build_status}
use dlt_matterbeam.Server.State.{get_dlt_state, put_dlt_state, complete_load}
use dlt_matterbeam.Server.Ingest.{Call, Moment, ingest}
use dlt_matterbeam.Server.Routes.{
  Draws, path_text, reply, conflict_reply, unauthenticated, not_found, internal_error,
  is_authorized, header, bulk_table, on, payload, required, text_or, dataset_of, filename_of,
  secrets_of, lines_of, registered, ingested, status_reply, upload_reply, replied,
}

-- the reply of a route of `do_POST`, whose `except` catches everything
abbrev pub answered : (Fault → String) → Outcome Response × Server → Option Response × Server
answered repr (done r, s) = (some r, s)
answered repr (fault contention, s) = (some (conflict_reply "lock_contention"), s)
answered repr (fault (terminal reason), s) = (some (conflict_reply reason), s)
answered repr (fault e, s) = (some (internal_error (repr e)), s)

-- of the state write, which catches the conflicts only
abbrev pub answered_put : Outcome Response × Server → Option Response × Server
answered_put (done r, s) = (some r, s)
answered_put (fault contention, s) = (some (conflict_reply "lock_contention"), s)
answered_put (fault (terminal reason), s) = (some (conflict_reply reason), s)
answered_put (fault e, s) = (none, s)

-- of the routes that catch `KeyError` only
abbrev pub answered_key : String → Outcome Response × Server → Option Response × Server
answered_key path (done r, s) = (some r, s)
answered_key path (fault (no_such_key k), s) = (some (not_found path), s)
answered_key path (fault e, s) = (none, s)

abbrev pub missing_route : List String → Server → Option Response × Server
missing_route path s = (some (not_found (path_text path)), s)

abbrev pub bytes_of : Body → Outcome (List ℕ)
bytes_of (bytes content) = done content
bytes_of _ = fault malformed

-- `json.loads(self._body())`
abbrev pub value_of : Body → Outcome Json
value_of (json j) = done j
value_of _ = fault malformed

abbrev pub state_reply : Option Json → Response
state_reply none = not_found "no state"
state_reply (some doc) = reply 200 (("data", doc) ∷ [])

unfoldable pub get_routes : List String → Server → Option Response × Server
get_routes (a ∷ pid ∷ c ∷ []) s =
    if a == "collectors" && c == "state"
    then (some (state_reply (get_dlt_state pid s)), s)
    else missing_route (a ∷ pid ∷ c ∷ []) s
get_routes (a ∷ pid ∷ c ∷ d ∷ []) s =
    if a == "collectors" && c == "deployment" && d == "status"
    then answered_key (path_text (a ∷ pid ∷ c ∷ d ∷ []))
        (replied status_reply (get_build_status pid s))
    else missing_route (a ∷ pid ∷ c ∷ d ∷ []) s
get_routes path s = missing_route path s

module _ (knobs : Knobs) (repr : Fault → String) (host : String) (d : Draws) where
  -- `POST /collectors`
  unfoldable pub post_collectors : Body → Server → Outcome Response × Server
  post_collectors body = on (payload body) λ p. on (required "name" (lookup "name" p)) λ key.
      on (dataset_of (lookup "config" p)) λ dataset.
        on (text_or "external_dlt" (lookup "type" p)) λ kind s.
          replied (registered (lookup "type" p) key) (register key dataset kind d.new_pid s)

  -- `POST /collectors/{pid}/deployment/upload-url`
  unfoldable pub post_upload_url : String → Body → Server → Outcome Response × Server
  post_upload_url pid body = on (payload body) λ p.
      on (filename_of (lookup "filename" p))
        λ filename s. replied upload_reply (create_upload_url pid filename host d.upload_token s)

  abbrev pub call_of : String → String → Dict String → List Row → Call
  call_of pid table headers rows = record {
    pid = pid;
    table = table;
    load_id = text_of (header "x-mb-load-id" headers);
    job_id = text_of (header "x-mb-job-id" headers);
    seq = text_of (header "x-mb-seq" headers);
    lines = rows;
  }

  abbrev pub moment_of : Dict String → Moment
  moment_of headers = record {
    now_ms = d.now_ms;
    now_text = d.now_text;
    noise = d.noise;
    crash_at = header "x-mb-chaos-crash-at" headers;
  }

  -- `POST /collectors/{pid}/ingest/{table}:bulk`
  unfoldable pub post_ingest : String → String → Request → Server → Outcome Response × Server
  post_ingest pid table r = on (lines_of r.body) λ rows s.
      replied ingested (ingest knobs (call_of pid table r.headers rows) (moment_of r.headers) s)

  abbrev pub post_build : String → Server → Outcome Response × Server
  post_build pid s =
      replied (λ _. reply 200 (("status", str "building") ∷ [])) (trigger_build pid s)

  -- `POST /collectors/{pid}/job/{load_id}`
  abbrev pub post_job : String → String → Server → Outcome Response × Server
  post_job pid load_id s =
      (done (reply 200 (("status", str "ok") ∷ [])), complete_load pid load_id s)

  -- the bulk ingest of a part that ends as it should, and else what comes next
  abbrev pub ingest_or :
      Bool
      → String
      → Option String
      → Request
      → Server
      → Option Response × Server
      → Option Response × Server
  ingest_or true pid (some table) r s next = answered repr (post_ingest pid table r s)
  ingest_or _ pid _ r s next = next

  unfoldable pub post_routes : List String → Request → Server → Option Response × Server
  post_routes (a ∷ []) r s =
      if a == "collectors"
      then answered repr (post_collectors r.body s)
      else missing_route (a ∷ []) s
  post_routes (a ∷ pid ∷ c ∷ e ∷ []) r s =
      if a == "collectors" && c == "deployment" && e == "upload-url"
      then answered repr (post_upload_url pid r.body s)
      else if a == "collectors" && c == "deployment" && e == "build"
      then answered repr (post_build pid s)
      else ingest_or (a == "collectors" && c == "ingest") pid (bulk_table e) r s (
          if a == "collectors" && c == "job"
          then answered repr (post_job pid e s)
          else missing_route (a ∷ pid ∷ c ∷ e ∷ []) s)
  post_routes path r s = missing_route path s

  -- `PUT /uploads/{token}`, which needs no token of the account
  abbrev pub put_upload : String → Body → Server → Outcome Response × Server
  put_upload upload_token body = on (bytes_of body) λ content s.
      replied (λ pid. reply 200 (("status", str "ok") ∷ ("pid", str pid) ∷ []))
        (receive_upload upload_token content s)

  abbrev pub put_state : String → Body → Server → Outcome Response × Server
  put_state pid body =
      on (value_of body) λ doc s.
        replied (λ _. reply 200 (("status", str "ok") ∷ [])) (put_dlt_state knobs pid doc s)

  abbrev pub if_authorized : Request → Server → Option Response × Server → Option Response × Server
  if_authorized r s go = if is_authorized r then go else (some unauthenticated, s)

  unfoldable pub put_routes : List String → Request → Server → Option Response × Server
  put_routes (a ∷ b ∷ []) r s =
      if a == "uploads"
      then answered_key (path_text (a ∷ b ∷ [])) (put_upload b r.body s)
      else if_authorized r s (missing_route (a ∷ b ∷ []) s)
  put_routes (a ∷ pid ∷ c ∷ []) r s = if_authorized r s (
      if a == "collectors" && c == "state"
      then answered_put (put_state pid r.body s)
      else missing_route (a ∷ pid ∷ c ∷ []) s)
  put_routes path r s = if_authorized r s (missing_route path s)

  abbrev pub patch_secrets : String → Body → Server → Outcome Response × Server
  patch_secrets pid body = on (payload body) λ p. on (secrets_of (lookup "secrets" p)) λ secrets s.
      replied (λ _. reply 200 (("status", str "ok") ∷ [])) (submit_secrets pid secrets s)

  unfoldable pub patch_routes : List String → Request → Server → Option Response × Server
  patch_routes (a ∷ pid ∷ c ∷ []) r s =
      if a == "collectors" && c == "secrets"
      then answered_key (path_text (a ∷ pid ∷ c ∷ [])) (patch_secrets pid r.body s)
      else missing_route (a ∷ pid ∷ c ∷ []) s
  patch_routes path r s = missing_route path s

  -- the method decides on the handler; all but PUT ask for the token first
  unfoldable pub handle : Request → Server → Option Response × Server
  handle r s = elim r.method [
    | get ↦ if_authorized r s (get_routes r.path s)
    | post ↦ if_authorized r s (post_routes r.path r s)
    | put ↦ put_routes r.path r s
    | patch ↦ if_authorized r s (patch_routes r.path r s)
  ]
