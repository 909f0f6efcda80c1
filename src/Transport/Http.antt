-- ===== src/Transport/Http.antt =====
-- `HttpTransport` of src/dlt_matterbeam/transport.py. What answers the requests is a parameter, a
-- function on the state of the peer. The bodies stand for their values: that JSON and zstd are read
-- back as they were written is taken for granted, and so is the base of the URL.
pub mod Retry
pub mod Conflicts
use Prim.Native.String.{◌++◌ as str_append}
use dlt_matterbeam.Prelude.{
  ℕ, zero, suc, ◌+◌, String, Bool, true, false, Option, none, some, List, [], ◌∷◌, map, ◌==◌, Dict,
  lookup, leb, nat_beq, if◌then◌else◌, decimal,
}
use dlt_matterbeam.Json.{as_doc, Json, Row, null, str, obj, object, from_fields}
use dlt_matterbeam.Exec
use dlt_matterbeam.Exec.{
  Error, Result, ok, err, conflict, transient, terminal, status, conflicted, gave_up,
  attribute_error, type_error, key_error, json_decode_error,
}
use dlt_matterbeam.Action.{Action, pure, raise, lift, continue, ◌>>=◌, ◌>>◌}
use dlt_matterbeam.Envelope.Record.{build_wire_record}
use dlt_matterbeam.LoadJob.{Chunk}
use dlt_matterbeam.Transport.{Transport}

pub data Method : Type 0 where
  get post put patch : Method

pub data Body : Type 0 where
  empty : Body
  json : Json → Body
  lines : List Row → Body
  bytes : List ℕ → Body

pub record Request : Type 0 where
  pub method : Method
  pub path : List String
  pub authorization : String
  pub headers : Dict String
  pub body : Body

-- a reply whose body is no JSON has none
pub record Response : Type 0 where
  pub status_code : ℕ
  pub body : Option Json

-- `value[key]`
abbrev pub subscript : Json → String → Result Json
subscript (obj fs) k = elim (lookup k (from_fields fs)) [ none ↦ err (key_error k) | some v ↦ ok v ]
subscript _ k = err type_error

-- `value.get(key)`
abbrev pub get_field : Json → String → Result Json
get_field (obj fs) k = elim (lookup k (from_fields fs)) [ none ↦ ok null | some v ↦ ok v ]
get_field _ k = err attribute_error

abbrev pub body_json : Response → Result Json
body_json r = elim r.body [ none ↦ err json_decode_error | some j ↦ ok j ]

-- `response.json()`, where `None` has no such method
abbrev pub reply_json : Option Response → Result Json
reply_json none = err attribute_error
reply_json (some r) = body_json r

abbrev pub or_null : Result Json → Json
or_null (ok j) = j
or_null (err e) = null

-- `_conflict_reason`
unfoldable pub conflict_reason : Response → Json
conflict_reason r = or_null (
    Exec.◌>>=◌ (body_json r) λ reply.
      Exec.◌>>=◌ (subscript reply "error")
        λ error. Exec.◌>>=◌ (subscript error "context") λ context. get_field context "reason")

abbrev pub is_text : String → Json → Bool
is_text s (str t) = t == s
is_text s _ = false

-- what one reply means to `_request`
pub data Verdict : Type 0 where
  retry : Verdict
  raised : Error → Verdict
  missing : Verdict
  success : Verdict

unfoldable pub verdict : Response → Verdict
verdict r =
    if nat_beq r.status_code 409
    then (if is_text "lock_contention" (conflict_reason r)
        then retry
        else raised (conflict (conflict_reason r)))
    else if nat_beq r.status_code 404
    then missing
    else if leb 500 r.status_code
    then raised (transient r.status_code)
    else if leb 400 r.status_code
    then raised (terminal (status r.status_code))
    else success

-- the peer, the requests made of it, and the time slept, in units of 50 ms
pub record Net (P : Type 0) : Type 0 where
  pub peer : P
  pub requests : ℕ
  pub slept : ℕ

pub record HttpTransport : Type 0 where
  pub api_token : Option String
  pub max_409_retries : ℕ

-- `str(s)` in a formatted text
abbrev pub text_of : Option String → String
text_of none = "None"
text_of (some s) = s

abbrev pub bearer : HttpTransport → String
bearer t = str_append "Token " (text_of t.api_token)

abbrev pub request : HttpTransport → Method → List String → Dict String → Body → Request
request t m path headers body = record {
  method = m;
  path = path;
  authorization = bearer t;
  headers = headers;
  body = body;
}

-- `except Conflict`, for all requests but the state write
abbrev pub conflict_terminal : {A : Type 0} → Result A → Result A
conflict_terminal (ok a) = ok a
conflict_terminal (err (conflict reason)) = err (terminal (conflicted reason))
conflict_terminal (err e) = err e

-- what `POST /collectors` is sent
abbrev pub registration : String → String → String → Json
registration type pipeline_key dataset_name = object (
    ("type", str type)
    ∷ ("name", str pipeline_key)
    ∷ ("config", object (("dataset_name", str dataset_name) ∷ []))
    ∷ [])

abbrev pub as_text : Json → Result (Option String)
as_text null = ok none
as_text (str s) = ok (some s)
as_text _ = err type_error

-- a state that is not there has no reply
abbrev pub state_reply : Option Response → Result (Option Json)
state_reply none = ok none
state_reply (some r) =
    Exec.◌>>=◌ (body_json r) λ reply. Exec.◌>>=◌ (subscript reply "data") λ doc. ok (as_doc doc)

-- `except Conflict` of the state write: a stale version is logged and ignored
abbrev pub stale_ignored : {A : Type 0} → Result A → Result (Unit {0})
stale_ignored (ok a) = ok tt
stale_ignored (err (conflict reason)) =
    if is_text "stale_state_version" reason then ok tt else err (terminal (conflicted reason))
stale_ignored (err e) = err e

unfoldable pub wire_records : List Row → List String → List String → Result (List Row)
wire_records [] keys hard_delete = ok []
wire_records (row ∷ rows) keys hard_delete =
    Exec.◌>>=◌ (build_wire_record row keys hard_delete)
      λ w. Exec.◌>>=◌ (wire_records rows keys hard_delete) λ ws. ok (w ∷ ws)

abbrev pub chunk_headers : Chunk → Dict String
chunk_headers c =
    ("Content-Encoding", "zstd")
    ∷ ("X-MB-Load-Id", c.load_id)
    ∷ ("X-MB-Job-Id", c.job_id)
    ∷ ("X-MB-Seq", decimal c.seq)
    ∷ []

module _ {P : Type 0} (respond : Request → P → Response × P) where
  abbrev pub exchange : Request → Action (Net P) Response
  exchange r n =
      let reply = respond r n.peer in
      (ok reply.0, record n { peer = reply.1; requests = n.requests + 1 })

  abbrev pub sleep : ℕ → Action (Net P) (Unit {0})
  sleep k n = (ok tt, record n { slept = n.slept + k })

  -- the loop of `_request`, with the tries that are left and the number of this one
  unfoldable pub attempts : ℕ → ℕ → Request → Action (Net P) (Option Response)
  attempts zero attempt r = raise (terminal (gave_up attempt))
  attempts (suc left) attempt r = do
    response ← exchange r
    elim (verdict response) [
      | retry ↦ sleep (attempt + 1) >> attempts left (attempt + 1) r
      | raised e ↦ raise e
      | missing ↦ pure none
      | success ↦ pure (some response)
    ]

  unfoldable pub send_request :
      HttpTransport → Method → List String → Dict String → Body → Action (Net P) (Option Response)
  send_request t m path headers body = attempts t.max_409_retries 0 (request t m path headers body)

  unfoldable pub terminal_on_conflict :
      HttpTransport → Method → List String → Dict String → Body → Action (Net P) (Option Response)
  terminal_on_conflict t m path headers body n =
      let sent = send_request t m path headers body n in (conflict_terminal sent.0, sent.1)

  -- `register`: the id in the reply. Ids are texts: any other value is refused here.
  unfoldable pub register : HttpTransport → String → String → Action (Net P) (Option String)
  register t pipeline_key dataset_name = do
    response ←
        terminal_on_conflict t post ("collectors" ∷ []) []
          (json (registration "external_dlt" pipeline_key dataset_name))
    reply ← lift (reply_json response)
    id ← lift (subscript reply "id")
    lift (as_text id)

  unfoldable pub get_dlt_state : HttpTransport → String → Action (Net P) (Option Json)
  get_dlt_state t pid = do
    response ← terminal_on_conflict t get ("collectors" ∷ pid ∷ "state" ∷ []) [] empty
    lift (state_reply response)

  unfoldable pub put_dlt_state : HttpTransport → String → Row → Action (Net P) (Unit {0})
  put_dlt_state t pid doc n =
      let sent = send_request t put ("collectors" ∷ pid ∷ "state" ∷ []) [] (json (object doc)) n in
      (stale_ignored sent.0, sent.1)

  unfoldable pub send_chunk : HttpTransport → Chunk → Option String → Action (Net P) (Option String)
  send_chunk t chunk pid = do
    records ← lift (wire_records chunk.rows chunk.keys chunk.hard_delete)
    response ←
        terminal_on_conflict t post
          ("collectors" ∷ text_of pid ∷ "ingest" ∷ str_append chunk.table_name ":bulk" ∷ [])
          (chunk_headers chunk) (lines records)
    reply ← lift (reply_json response)
    result ← lift (subscript reply "data")
    segment_key ← lift (get_field result "segment_key")
    lift (as_text segment_key)

  unfoldable pub complete_load : HttpTransport → String → Option String → Action (Net P) (Unit {0})
  complete_load t load_id pid = do
    terminal_on_conflict t post ("collectors" ∷ text_of pid ∷ "job" ∷ load_id ∷ []) [] empty
    pure tt

  -- the protocol's methods
  abbrev pub http : HttpTransport → Transport (Net P)
  http t = record {
    register = register t;
    get_dlt_state = get_dlt_state t;
    put_dlt_state = put_dlt_state t;
    send_chunk = send_chunk t;
    complete_load = complete_load t;
  }
