-- ===== src/Server/Routes/Api.antt =====
-- The server behind its routes as the peer of `HttpTransport`, and what its API promises: the same
-- methods as direct calls of the operations of tests/fake_matterbeam/server.py.
use dlt_matterbeam.Prelude.{
  ℕ, ◌+◌, String, Bool, true, false, not, Option, none, some, List, ◌==◌, decimal, if◌then◌else◌,
}
use dlt_matterbeam.Json.{Row, str, object}
use dlt_matterbeam.Exec
use dlt_matterbeam.Exec.{Error, Result, ok, err, transient, conflicted, conflict}
use dlt_matterbeam.Action.{Action}
use dlt_matterbeam.LoadJob.{Chunk}
use dlt_matterbeam.Transport.{Transport}
use dlt_matterbeam.Transport.Http.{Request, Response, text_of, wire_records}
use dlt_matterbeam.Server.{
  Server, Knobs, IngestResult, Outcome, done, fault, Fault, contention, terminal,
}
use dlt_matterbeam.Server.Registry.{register}
use dlt_matterbeam.Server.State.{get_dlt_state, put_dlt_state, complete_load}
use dlt_matterbeam.Server.Ingest.{Call, Moment, ingest}
use dlt_matterbeam.Server.Routes.{Draws}
use dlt_matterbeam.Server.Routes.Handler.{handle}

-- the server, and how many requests it has served
pub record World : Type 0 where
  pub server : Server
  pub served : ℕ

-- an operation that the lock refused, so that the client tries again
abbrev pub contends : Fault → Bool
contends contention = true
contends (terminal reason) = reason == "lock_contention"
contends _ = false

abbrev pub is_contention : {A : Type 0} → Outcome A → Bool
is_contention (done a) = false
is_contention (fault e) = contends e

-- an operation that a conflict does not put off, and no other exception ends
abbrev pub is_settled : {A : Type 0} → Outcome A → Bool
is_settled (done a) = true
is_settled (fault (terminal reason)) = not (reason == "lock_contention")
is_settled (fault e) = false

-- what a failure is to the caller: a conflict is for good, anything else may pass
abbrev pub error_of : Fault → Error
error_of (terminal reason) = Exec.terminal (conflicted (str reason))
error_of contention = conflict (str "lock_contention")
error_of _ = transient 500

abbrev pub settled : {A B : Type 0} → (A → Result B) → Outcome A → Result B
settled f (done a) = f a
settled f (fault e) = err (error_of e)

-- a push that is stale is taken as done
abbrev pub pushed : Outcome (Unit {0}) → Result (Unit {0})
pushed (fault (terminal reason)) =
    if reason == "stale_state_version" then ok tt else err (Exec.terminal (conflicted (str reason)))
pushed o = settled ok o

abbrev pub after : World → Server → World
after w s = record { server = s; served = w.served + 1 }

-- the chunk as the ingest has it
abbrev pub call : Chunk → Option String → List Row → Call
call chunk pid rows = record {
  pid = text_of pid;
  table = chunk.table_name;
  load_id = chunk.load_id;
  job_id = chunk.job_id;
  seq = decimal chunk.seq;
  lines = rows;
}

abbrev pub moment : Draws → Moment
moment d = record { now_ms = d.now_ms; now_text = d.now_text; noise = d.noise; crash_at = none }

-- what the client makes of a connection that drops is a parameter
abbrev pub or_dropped : Response → Option Response → Response
or_dropped dropped none = dropped
or_dropped dropped (some r) = r

module _ (knobs : Knobs) (repr : Fault → String) (host : String) (draws : ℕ → Draws)
    (dropped : Response) where
  -- one request at the server
  unfoldable pub serve : Request → World → Response × World
  serve r w =
      let x = handle knobs repr host (draws w.served) r w.server in
      (or_dropped dropped x.0, after w x.1)

module _ (knobs : Knobs) (draws : ℕ → Draws) where
  abbrev pub ingest_at : Chunk → Option String → List Row → World → Outcome IngestResult × Server
  ingest_at chunk pid rows w = ingest knobs (call chunk pid rows) (moment (draws w.served)) w.server

  abbrev pub send_rows : Chunk → Option String → Result (List Row) → Action World (Option String)
  send_rows chunk pid (err e) w = (err e, w)
  send_rows chunk pid (ok rows) w =
      let x = ingest_at chunk pid rows w in (settled (λ r. ok r.segment_key) x.0, after w x.1)

  abbrev pub register_at : String → String → World → Outcome (String × Bool) × Server
  register_at key dataset w = register key dataset "external_dlt" (draws w.served).new_pid w.server

  -- what each method of the transport comes to
  abbrev pub api : Transport World
  api = record {
    register = λ key dataset w.
        let x = register_at key dataset w in (settled (λ r. ok (some r.0)) x.0, after w x.1);
    get_dlt_state = λ pid w. (ok (get_dlt_state pid w.server), after w w.server);
    put_dlt_state = λ pid doc w.
        let x = put_dlt_state knobs pid (object doc) w.server in (pushed x.0, after w x.1);
    send_chunk =
        λ chunk pid. send_rows chunk pid (wire_records chunk.rows chunk.keys chunk.hard_delete);
    complete_load =
        λ load_id pid w. (ok tt, after w (complete_load (text_of pid) load_id w.server));
  }
