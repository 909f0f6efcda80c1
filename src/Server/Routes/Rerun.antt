-- ===== src/Server/Routes/Rerun.antt =====
-- A load job over HTTP that runs again: `MatterbeamLoadJob.run` of src/dlt_matterbeam/load_job.py
-- over `HttpTransport.send_chunk` and the ingest of tests/fake_matterbeam/server.py.
use mathlib.Core.Path.{subst}
use dlt_matterbeam.Prelude.{
  ℕ, ◌<◌, String, ◌≡◌, ◌≢◌, refl, sym, ap, ◌∙◌, Option, some, List, inl, inr,
}
use dlt_matterbeam.Json.{Json, Row}
use dlt_matterbeam.Exec.{Error, Result, ok, err, Result-cases}
use dlt_matterbeam.Action.{Action, pure, ◌>>=◌, continue}
use dlt_matterbeam.LoadJob.{Chunk, LoadConfig, Job, run}
use dlt_matterbeam.LoadJob.Rerun.{Memory, IsReplayable, run-IsReplayable, pure-IsReplayable}
use dlt_matterbeam.Transport.Http.{Request, Response, Net, HttpTransport, send_chunk, wire_records}
use dlt_matterbeam.Server.{Knobs, Fault}
use dlt_matterbeam.Server.Ingest.Entries.{HasEntry, Remembers}
use dlt_matterbeam.Server.Routes.{Draws, token}
use dlt_matterbeam.Server.Routes.Api.{World, serve}
use dlt_matterbeam.Server.Routes.Resend.{
  uncounted, continue_lift-state, send_chunk-Remembers, send_chunk-HasEntry, send_chunk-entered,
  key,
}

-- what the server behind a network remembers: its ledger
abbrev pub ledger_memory : Memory (Net World)
ledger_memory = record {
  Keeps = λ n n'. Remembers n.peer.server n'.peer.server;
  keeps = λ n k h. h;
  then_keeps = λ n n' n'' first after k h. after k (first k h);
  Same = λ n n'. uncounted n'.peer.server ≡ uncounted n.peer.server;
  same = λ n. refl;
  then_same = λ n n' n'' first after. after ∙ first;
}

then_pure-ok :
    {A S : Type 0} (r : Result A) (s : S)
    → (continue r (λ x. pure tt) s).0 ≡ ok tt
    → (x : A) × (r ≡ ok x)
then_pure-ok (ok x) s h = (x, refl)
then_pure-ok (err e) s h = absurd (cc)

err≢ok : {A : Type 0} (e : Error) {x : A} → err e ≢ ok x
err≢ok e h = cc

module _ (knobs : Knobs) (repr : Fault → String) (host : String) (draws : ℕ → Draws)
    (dropped : Response) (t : HttpTransport) (tries : 0 < t.max_409_retries)
    (known : t.api_token ≡ some token) where
  abbrev peer : Request → World → Response × World
  peer = serve knobs repr host draws dropped

  -- what a load job does with a chunk, of a client that is resolved to a pid
  abbrev pub send : Option String → Chunk → Action (Net World) (Unit {0})
  send pid chunk = send_chunk peer t chunk pid >>= λ segment_key. pure tt

  -- of a chunk whose records cannot be built
  send-unbuilt :
      (chunk : Chunk) (pid : Option String) (e : Error)
      → wire_records chunk.rows chunk.keys chunk.hard_delete ≡ err e
      → (n : Net World) → send pid chunk n ≡ (err e, n)
  unfolding send_chunk
  send-unbuilt chunk pid e unbuilt n = rw (unbuilt) refl

  send-state :
      (chunk : Chunk) (pid : Option String) (n : Net World)
      → (send pid chunk n).1 ≡ (send_chunk peer t chunk pid n).1
  send-state chunk pid n = continue_lift-state (send_chunk peer t chunk pid n).0 _ _ λ x. refl

  send-again :
      (chunk : Chunk) (pid : Option String) (rows : List Row) (n n' : Net World)
      → wire_records chunk.rows chunk.keys chunk.hard_delete ≡ ok rows
      → (send pid chunk n).0 ≡ ok tt
      → Remembers (send pid chunk n).1.peer.server n'.peer.server
      → ((send pid chunk n').0 ≡ ok tt)
        × (uncounted (send pid chunk n').1.peer.server ≡ uncounted n'.peer.server)
  send-again chunk pid rows n n' built returned kept =
      let sent = send_chunk peer t chunk pid n in
      let (x, first) = then_pure-ok sent.0 sent.1 returned in
      let entry =
        send_chunk-HasEntry knobs repr host draws dropped t tries known chunk pid rows n x built
          first in
      let held = kept (key knobs repr host draws dropped t tries known chunk pid rows) (
        subst
          (λ m.
            HasEntry (key knobs repr host draws dropped t tries known chunk pid rows) m.peer.server)
          (sym (send-state chunk pid n)) entry) in
      let (x', second, same) =
        send_chunk-entered knobs repr host draws dropped t tries known chunk pid rows n' built
          held in
      (
        ap (λ r. (continue r (λ k. pure tt) (send_chunk peer t chunk pid n').1).0) second,
        ap (λ m. uncounted m.peer.server) (send-state chunk pid n') ∙ same,
      )

  send-IsReplayable :
      (pid : Option String) (chunk : Chunk) → IsReplayable ledger_memory (send pid chunk)
  send-IsReplayable pid chunk =
      elim (Result-cases (wire_records chunk.rows chunk.keys chunk.hard_delete)) [
        | inl (rows, built) ↦ record {
          grows = λ n.
              subst (λ n'. Remembers n.peer.server n'.peer.server) (sym (send-state chunk pid n))
                (send_chunk-Remembers knobs repr host draws dropped t tries known chunk pid rows n
                  built);
          again = λ n n'. send-again chunk pid rows n n' built;
        }
        | inr (e, unbuilt) ↦ record {
          grows = λ n. rw (send-unbuilt chunk pid e unbuilt n) (λ k h. h);
          again = λ n n' returned kept.
              absurd
                (err≢ok e (sym (ap (λ x. x.0) (send-unbuilt chunk pid e unbuilt n)) ∙ returned));
        }
      ]

  -- A load job over HTTP that has returned is acknowledged when it runs again, from whatever state of
  -- the network and the server comes later and still has the entries of its ledger: the second run
  -- returns too, and the server is afterwards what it was before it, but for its counters. Retries
  -- and failures of other jobs may lie between the two. The client holds the server's token, may try
  -- at least once, and is resolved to a pid; the warning for a table to be replaced goes to a log.
  pub run_again :
      (custom_pua_remove : String → String) (loads : String → Option Json) (row_bytes : Row → ℕ)
      (pid : Option String) (config : LoadConfig) (job : Job) (n n' : Net World)
      → let load : Action (Net World) (Unit {0}) =
          run custom_pua_remove loads row_bytes (λ degraded. pure tt) (send pid) config job in
        (load n).0 ≡ ok tt
        → Remembers (load n).1.peer.server n'.peer.server
        → ((load n').0 ≡ ok tt) × (uncounted (load n').1.peer.server ≡ uncounted n'.peer.server)
  run_again custom_pua_remove loads row_bytes pid config job n n' returned kept =
      let replayable =
        run-IsReplayable ledger_memory custom_pua_remove loads row_bytes (λ degraded. pure tt)
          (send pid) config job (λ d. pure-IsReplayable ledger_memory) (send-IsReplayable pid) in
      replayable.again n n' returned kept
