-- ===== src/Server/Routes/Refinement.antt =====
-- `HttpTransport` of src/dlt_matterbeam/transport.py over the routes of
-- tests/fake_matterbeam/server.py, against its API.
use Prim.Native.String.{◌++◌ as str_append}
use text.Mathlib.TextLemmas.{cons-append}
use dlt_matterbeam.Prelude.{
  ℕ, ◌<◌, String, ◌≡◌, refl, sym, ap, ◌∙◌, true, false, Option, none, some, List, [], ◌∷◌, Dict,
  arith, ◌==◌,
}
use dlt_matterbeam.Json.{as_doc, null, boolean, num, arr, obj, Json, Row, str, object}
use dlt_matterbeam.Exec.{Result, ok}
use dlt_matterbeam.Action.{Action, continue}
use dlt_matterbeam.LoadJob.{Chunk}
use dlt_matterbeam.Transport.Http.{
  post, put, get, Body, empty, json, lines, Request, Response, Net, HttpTransport, verdict, success,
  request, terminal_on_conflict, register, registration, get_dlt_state, put_dlt_state, send_chunk,
  complete_load, chunk_headers, wire_records, text_of, as_text, state_reply as state_reply',
  conflict_reason,
}
use dlt_matterbeam.Server.{
  Server, Knobs, Outcome, done, fault, Fault, contention, terminal, no_such_key, chaos_crash,
  malformed,
}
use dlt_matterbeam.Server.State
use dlt_matterbeam.Server.Routes.{
  Draws, token, bulk_table, bulk_rest, registered, ingested, replied, reply, text_json,
}
use dlt_matterbeam.Server.Routes.Handler.{
  handle, post_routes, post_collectors, post_ingest, answered, state_reply, answered_put, ingest_or,
  put_routes, get_routes,
}
use dlt_matterbeam.Server.Routes.Api.{
  World, serve, api, is_contention, settled, or_dropped, after, ingest_at, register_at, pushed,
  is_settled,
}
use dlt_matterbeam.Server.Routes.Once.{asked, once, post_once, done-injective, send_request_once}

bulk_table-append : (table : String) → bulk_table (str_append table ":bulk") ≡ some table
unfolding bulk_table
bulk_table-append String.[] = refl
bulk_table-append (String.◌∷◌ c s) =
    ap bulk_table (cons-append c s ":bulk")
    ∙ ap (λ o. bulk_rest o c (String.◌∷◌ c (str_append s ":bulk") == ":bulk")) (bulk_table-append s)

pub as_text-text_json : (o : Option String) → as_text (text_json o) ≡ ok o
as_text-text_json none = refl
as_text-text_json (some s) = refl

pub continue-settled :
    {A B N : Type 0} (f : A → Response) (k : Option Response → Action N B) (g : A → Result B)
    (o : Outcome A) (s : N)
    → ((a : A) → k (some (f a)) s ≡ (g a, s))
    → continue (settled (λ a. ok (some (f a))) o) k s ≡ (settled g o, s)
continue-settled f k g (done a) s h = h a
continue-settled f k g (fault e) s h = refl

abbrev pub chunk_path : Chunk → Option String → List String
chunk_path chunk pid =
    "collectors" ∷ text_of pid ∷ "ingest" ∷ str_append chunk.table_name ":bulk" ∷ []

module _ (knobs : Knobs) (repr : Fault → String) (host : String) (draws : ℕ → Draws)
    (dropped : Response) (t : HttpTransport) (tries : 0 < t.max_409_retries)
    (known : t.api_token ≡ some token) where
  abbrev peer : Request → World → Response × World
  peer = serve knobs repr host draws dropped

  pub handled : Request → World → Option Response × Server
  handled r w = handle knobs repr host (draws w.served) r w.server

  pub served :
      {A : Type 0} (f : A → Response) (x : Outcome A × Server) (r : Request) (w : World)
      → handled r w ≡ answered repr (replied f x)
      → peer r w ≡ (or_dropped dropped (answered repr ((replied f x).0, x.1)).0, after w x.1)
  unfolding serve handled
  served f (done a, s) r w at = rw (at)
  served f (fault contention, s) r w at = rw (at)
  served f (fault (terminal reason), s) r w at = rw (at)
  served f (fault (no_such_key k), s) r w at = rw (at)
  served f (fault (chaos_crash p), s) r w at = rw (at)
  served f (fault malformed, s) r w at = rw (at)

  -- a POST that comes down to one operation
  posted :
      {A : Type 0} (path : List String) (headers : Dict String) (body : Body) (n : Net World)
      (f : A → Response) (x : Outcome A × Server)
      → handled (request t post path headers body) n.peer ≡ answered repr (replied f x)
      → is_contention x.0 ≡ false
      → ((a : A) → verdict (f a) ≡ success)
      → terminal_on_conflict peer t post path headers body n
        ≡ (settled (λ a. ok (some (f a))) x.0, asked (after n.peer x.1) n)
  posted path headers body n f (done a, s) at calm well =
      post_once peer repr dropped t path headers body n (done (f a)) s (after n.peer s) tries
        (served f (done a, s) (request t post path headers body) n.peer at) refl
        λ r e. ap verdict (sym (done-injective e)) ∙ well a
  posted path headers body n f (fault e, s) at calm well =
      post_once peer repr dropped t path headers body n (fault e) s (after n.peer s) tries
        (served f (fault e, s) (request t post path headers body) n.peer at) calm λ r h. cc

  pub register-once :
      (key dataset : String) (n : Net World)
      → is_contention (register_at knobs draws key dataset n.peer).0 ≡ false
      → register peer t key dataset n ≡ once ((api knobs draws).register key dataset) n
  unfolding register handle handled verdict post_routes post_collectors
  register-once key dataset n calm =
      let x = register_at knobs draws key dataset n.peer in
      let sent =
        posted ("collectors" ∷ []) [] (json (registration "external_dlt" key dataset)) n
          (registered (some (str "external_dlt")) key) x (rw (known) refl) calm (λ a. refl) in
      rw (sent) (continue-settled _ _ _ x.0 _ λ a. refl)

  complete-once :
      (load_id : String) (pid : Option String) (n : Net World)
      → complete_load peer t load_id pid n ≡ once ((api knobs draws).complete_load load_id pid) n
  unfolding complete_load handle handled post_routes verdict
  complete-once load_id pid n = rw (
      posted ("collectors" ∷ text_of pid ∷ "job" ∷ load_id ∷ []) [] empty n
        (λ _. reply 200 (("status", str "ok") ∷ []))
        (done tt, State.complete_load (text_of pid) load_id n.peer.server) (rw (known) refl) refl
        (λ _. refl))

  -- the request of a chunk is the ingest of its records
  pub send-handled :
      (chunk : Chunk) (pid : Option String) (rows : List Row) (w : World)
      → handled (request t post (chunk_path chunk pid) (chunk_headers chunk) (lines rows)) w
        ≡ answered repr (replied ingested (ingest_at knobs draws chunk pid rows w))
  unfolding handle handled post_routes post_ingest
  send-handled chunk pid rows w = rw (known, bulk_table-append chunk.table_name, ingest_or) refl

  pub send-once :
      (chunk : Chunk) (pid : Option String) (rows : List Row) (n : Net World)
      → wire_records chunk.rows chunk.keys chunk.hard_delete ≡ ok rows
      → is_contention (ingest_at knobs draws chunk pid rows n.peer).0 ≡ false
      → send_chunk peer t chunk pid n ≡ once ((api knobs draws).send_chunk chunk pid) n
  unfolding send_chunk verdict
  send-once chunk pid rows n built calm =
      let x = ingest_at knobs draws chunk pid rows n.peer in
      let sent =
        posted (chunk_path chunk pid) (chunk_headers chunk) (lines rows) n ingested x
          (send-handled chunk pid rows n.peer) calm (λ a. refl) in
      rw (built, sent)
        (continue-settled _ _ _ x.0 _
          λ r i. (as_text-text_json r.segment_key i, asked (after n.peer x.1) n))

  -- the reply to a GET of a state
  abbrev found : Option Json → Option Response
  found none = none
  found (some doc) = some (state_reply (some doc))

  got :
      (path : List String) (n : Net World) (o : Option Json)
      → handled (request t get path [] empty) n.peer ≡ (some (state_reply o), n.peer.server)
      → terminal_on_conflict peer t get path [] empty n
        ≡ (ok (found o), asked (after n.peer n.peer.server) n)
  unfolding terminal_on_conflict serve handled verdict
  got path n none at =
      rw (send_request_once peer t get path [] empty n tries (rw (serve, at) λ h. cc), serve, at)
  got path n (some doc) at =
      rw (send_request_once peer t get path [] empty n tries (rw (serve, at) λ h. cc), serve, at)

  found-as_doc : (doc : Json) → state_reply' (found (as_doc doc)) ≡ ok (as_doc doc)
  found-as_doc null = refl
  found-as_doc (boolean b) = refl
  found-as_doc (num z) = refl
  found-as_doc (str s) = refl
  found-as_doc (arr js) = refl
  found-as_doc (obj fs) = refl

  pub get-once :
      (pid : String) (n : Net World)
      → get_dlt_state peer t pid n ≡ once ((api knobs draws).get_dlt_state pid) n
  unfolding get_dlt_state State.get_dlt_state handle handled get_routes
  get-once pid n =
      rw
        (got ("collectors" ∷ pid ∷ "state" ∷ []) n (State.get_dlt_state pid n.peer.server)
          (rw (known) refl))
        λ i. (
          found-as_doc (n.peer.server.process_state pid).dlt_state i,
          asked (after n.peer n.peer.server) n,
        )

  put-settled :
      (pid : String) (doc : Row) (n : Net World) (x : Outcome (Unit {0}) × Server)
      → handled (request t put ("collectors" ∷ pid ∷ "state" ∷ []) [] (json (object doc))) n.peer
        ≡ answered_put (replied (λ _. reply 200 (("status", str "ok") ∷ [])) x)
      → is_settled x.0 ≡ true
      → put_dlt_state peer t pid doc n ≡ (pushed x.0, asked (after n.peer x.1) n)
  unfolding put_dlt_state serve handled verdict conflict_reason
  put-settled pid doc n (done tt, s) at calm = rw (
    send_request_once peer t put ("collectors" ∷ pid ∷ "state" ∷ []) [] (json (object doc)) n tries
        (rw (serve, at) λ h. cc),
    serve,
    at,
  )
  put-settled pid doc n (fault (terminal reason), s) at calm =
      let off : (reason == "lock_contention") ≡ false = ground arith in
      rw (
        send_request_once peer t put ("collectors" ∷ pid ∷ "state" ∷ []) [] (json (object doc)) n
            tries (rw (serve, at, off) λ h. cc),
        serve,
        at,
        off,
      )
  put-settled pid doc n (fault contention, s) at calm = cc
  put-settled pid doc n (fault (no_such_key k), s) at calm = cc
  put-settled pid doc n (fault (chaos_crash p), s) at calm = cc
  put-settled pid doc n (fault malformed, s) at calm = cc

  pub put-once :
      (pid : String) (doc : Row) (n : Net World)
      → is_settled (State.put_dlt_state knobs pid (object doc) n.peer.server).0 ≡ true
      → put_dlt_state peer t pid doc n ≡ once ((api knobs draws).put_dlt_state pid doc) n
  unfolding handle handled put_routes
  put-once pid doc n calm =
      put-settled pid doc n (State.put_dlt_state knobs pid (object doc) n.peer.server)
        (rw (known) refl) calm

  -- Over the server's routes every method of the HTTP transport does what the API promises: one
  -- request, with the result and the server of the operation called directly. The client holds the
  -- server's token and may try at least once; the operation is not put off by contention; a state
  -- write ends in no other exception than a conflict; and the records of a chunk can be built.
  pub http_refines_api :
      (key dataset pid load_id : String) (some_pid : Option String) (doc : Row) (chunk : Chunk)
      (rows : List Row) (n : Net World)
      → is_contention (register_at knobs draws key dataset n.peer).0 ≡ false
      → is_settled (State.put_dlt_state knobs pid (object doc) n.peer.server).0 ≡ true
      → wire_records chunk.rows chunk.keys chunk.hard_delete ≡ ok rows
      → is_contention (ingest_at knobs draws chunk some_pid rows n.peer).0 ≡ false
      → let spec = api knobs draws in
        (register peer t key dataset n ≡ once (spec.register key dataset) n)
        × (get_dlt_state peer t pid n ≡ once (spec.get_dlt_state pid) n)
        × (put_dlt_state peer t pid doc n ≡ once (spec.put_dlt_state pid doc) n)
        × (send_chunk peer t chunk some_pid n ≡ once (spec.send_chunk chunk some_pid) n)
        × (complete_load peer t load_id some_pid n ≡ once (spec.complete_load load_id some_pid) n)
  http_refines_api key dataset pid load_id some_pid doc chunk rows n a b built c = (
    register-once key dataset n a,
    get-once pid n,
    put-once pid doc n b,
    send-once chunk some_pid rows n built c,
    complete-once load_id some_pid n,
  )
