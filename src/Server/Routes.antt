-- ===== src/Server/Routes.antt =====
-- The HTTP handler of tests/fake_matterbeam/server.py. A path stands for its parts and a body for its
-- value; what a request draws (the clock, the noise, fresh pids and tokens) is an argument, and so is
-- Python's `repr` of an exception. Names and ids in a payload are texts; no reply is a connection
-- that an uncaught exception drops.
pub mod Handler
pub mod Api
pub mod Once
pub mod Refinement
pub mod Stack
pub mod Access
pub mod Kept
pub mod Recorded
pub mod Reachable
pub mod Deployment
pub mod Calm
pub mod Busy
pub mod Liveness
pub mod Resend
pub mod Rerun
use Prim.Native.Char.{Char}
use Prim.Native.String.{◌++◌ as str_append}
use dlt_matterbeam.Prelude.{
  ℕ, ◌+◌, String, Bool, true, false, ◌&&◌, Option, none, some, List, [], ◌∷◌, map, ◌==◌, Dict,
  lookup, decimal, nat_beq, leb, if◌then◌else◌,
}
use dlt_matterbeam.Json.{Json, Row, null, boolean, num, str, obj, object, from_fields, truthy}
use dlt_matterbeam.Json.Int.{pos}
use dlt_matterbeam.Json.Text.{codes}
use dlt_matterbeam.Transport.Http.{
  Method, get, post, put, patch, Body, empty, json, lines, bytes, Request, Response, text_of,
}
use dlt_matterbeam.Server.{
  Server, Knobs, IngestResult, Outcome, done, fault, Fault, contention, terminal, no_such_key,
  malformed,
}
use dlt_matterbeam.Server.Registry.{register, submit_secrets}
use dlt_matterbeam.Server.Build.{
  UploadUrl, BuildStatus, create_upload_url, receive_upload, trigger_build, get_build_status,
}
use dlt_matterbeam.Server.State.{get_dlt_state, put_dlt_state, complete_load}
use dlt_matterbeam.Server.Ingest.{Call, Moment, ingest}

-- `TOKEN`
abbrev pub token : String
token = "fake-token"

-- what a request may draw
pub record Draws : Type 0 where
  pub now_ms : ℕ
  pub now_text : String
  pub noise : ℕ
  pub new_pid : String
  pub upload_token : String

abbrev pub text_json : Option String → Json
text_json none = null
text_json (some s) = str s

abbrev pub id_json : Option ℕ → Json
id_json none = null
id_json (some n) = str (decimal n)

-- `self.path`
abbrev pub path_text : List String → String
path_text [] = ""
path_text (p ∷ ps) = str_append "/" (str_append p (path_text ps))

-- `_reply`
abbrev pub reply : ℕ → Row → Response
reply code fields = record { status_code = code; body = some (object fields) }

abbrev pub error_body : String → String → String → Row → Row
error_body kind message code rest =
    ("error", object (("type", str kind) ∷ ("message", str message) ∷ ("code", str code) ∷ rest))
    ∷ []

-- `_error`
abbrev pub conflict_reply : String → Response
conflict_reply reason =
    reply 409 (
      error_body "error" reason "CONFLICT" (("context", object (("reason", str reason) ∷ [])) ∷ []))

abbrev pub unauthenticated : Response
unauthenticated = reply 401 (error_body "authentication_error" "no token" "INVALID_TOKEN" [])

abbrev pub not_found : String → Response
not_found message = reply 404 (error_body "not_found_error" message "RESOURCE_NOT_FOUND" [])

abbrev pub internal_error : String → Response
internal_error message =
    reply 500 (error_body "internal_server_error" message "INTERNAL_SERVER_ERROR" [])

-- `_auth`
abbrev pub is_authorized : Request → Bool
is_authorized r = r.authorization == str_append "Token " token

-- a header, whose name is in any case
abbrev pub lower : List ℕ → List ℕ
lower [] = []
lower (c ∷ cs) = (if leb 65 c && leb c 90 then c + 32 else c) ∷ lower cs

abbrev pub same_codes : List ℕ → List ℕ → Bool
same_codes [] [] = true
same_codes (x ∷ xs) (y ∷ ys) = nat_beq x y && same_codes xs ys
same_codes _ _ = false

abbrev pub header : String → Dict String → Option String
header k [] = none
header k ((j, v) ∷ d) =
    if same_codes (lower (codes j)) (lower (codes k)) then some v else header k d

-- `s[: -len(":bulk")]` of a text that ends so
abbrev pub or_here : Bool → Option String → Option String
or_here true found = some ""
or_here false found = found

abbrev pub bulk_rest : Option String → Char → Bool → Option String
bulk_rest (some t) c here = some (String.◌∷◌ c t)
bulk_rest none c here = or_here here none

unfoldable pub bulk_table : String → Option String
bulk_table String.[] = none
bulk_table (String.◌∷◌ c s) = bulk_rest (bulk_table s) c (String.◌∷◌ c s == ":bulk")

-- what follows a value that a payload may lack
abbrev pub on :
    {A : Type 0}
    → Outcome A
    → (A → Server → Outcome Response × Server)
    → Server
    → Outcome Response × Server
on (done a) next s = next a s
on (fault f) next s = (fault f, s)

-- the payload of a request, an object
abbrev pub payload : Body → Outcome Row
payload (json (obj fs)) = done (from_fields fs)
payload _ = fault malformed

-- `payload[key]`
abbrev pub required : String → Option Json → Outcome String
required key none = fault (no_such_key key)
required key (some (str s)) = done s
required key (some _) = fault malformed

-- `payload.get(key)`, or a default where it is missing
abbrev pub text_or : String → Option Json → Outcome String
text_or default none = done default
text_or default (some (str s)) = done s
text_or default (some _) = fault malformed

-- `(payload.get("config") or {}).get("dataset_name")`
abbrev pub dataset_of : Option Json → Outcome String
dataset_of none = done "None"
dataset_of (some (obj fs)) = text_or "None" (lookup "dataset_name" (from_fields fs))
dataset_of (some j) = if truthy j then fault malformed else done "None"

-- `payload.get("filename") or ""`
abbrev pub filename_of : Option Json → Outcome String
filename_of (some j) = if truthy j then text_or "" (some j) else done ""
filename_of none = done ""

-- `payload.get("secrets") or {}`, of texts
abbrev pub and_text : String → Json → Outcome (Dict String) → Outcome (Dict String)
and_text k (str v) (done rest) = done ((k, v) ∷ rest)
and_text k _ _ = fault malformed

abbrev pub texts : Row → Outcome (Dict String)
texts [] = done []
texts ((k, v) ∷ row) = and_text k v (texts row)

abbrev pub secrets_of : Option Json → Outcome (Dict String)
secrets_of none = done []
secrets_of (some (obj fs)) = texts (from_fields fs)
secrets_of (some j) = if truthy j then fault malformed else done []

-- the lines of a body that are not blank
abbrev pub lines_of : Body → Outcome (List Row)
lines_of empty = done []
lines_of (lines rows) = done rows
lines_of (json (obj fs)) = done (from_fields fs ∷ [])
lines_of _ = fault malformed

abbrev pub registered : Option Json → String → String × Bool → Response
registered kind key r = reply 200 (
    ("id", str r.0)
    ∷ ("type", elim kind [ none ↦ null | some j ↦ j ])
    ∷ ("name", str key)
    ∷ ("created", boolean r.1)
    ∷ [])

abbrev pub ingest_json : IngestResult → Json
ingest_json r = object (
    ("record_count", num (pos r.record_count))
    ∷ ("segment_key", text_json r.segment_key)
    ∷ ("writer_id", num (pos r.writer_id))
    ∷ ("first_record_id", id_json r.first_record_id)
    ∷ ("last_record_id", id_json r.last_record_id)
    ∷ ("duplicate", boolean r.duplicate)
    ∷ [])

abbrev pub ingested : IngestResult → Response
ingested r = reply 200 (("data", ingest_json r) ∷ [])

abbrev pub status_reply : BuildStatus → Response
status_reply b = reply 200 (
    ("build_status", str b.build_status)
    ∷ ("build_error", text_json b.build_error)
    ∷ ("current_package_hash", text_json b.current_package_hash)
    ∷ ("installed_packages", object (map (λ kv. (kv.0, str kv.1)) b.installed_packages))
    ∷ [])

abbrev pub upload_reply : UploadUrl → Response
upload_reply u = reply 200 (("upload_url", str u.upload_url) ∷ ("key", str u.key) ∷ [])

-- what a route makes of the result of its operation
abbrev pub replied : {A : Type 0} → (A → Response) → Outcome A × Server → Outcome Response × Server
replied f (done a, s) = (done (f a), s)
replied f (fault e, s) = (fault e, s)
