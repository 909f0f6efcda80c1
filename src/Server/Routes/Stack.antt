-- ===== src/Server/Routes/Stack.antt =====
-- A client of src/dlt_matterbeam/client.py over HTTP to tests/fake_matterbeam/server.py.
use mathlib.Core.Path.{subst}
use dlt_matterbeam.Prelude.{
  ℕ, ◌<◌, String, ◌≡◌, refl, sym, ap, ◌∙◌, true, false, Option, some, List, inl, inr,
}
use dlt_matterbeam.Json.{Json, as_doc, Row, object}
use dlt_matterbeam.Exec.{ok}
use dlt_matterbeam.LoadJob.{Chunk}
use dlt_matterbeam.Transport.Http.{Response, Net, HttpTransport, http, wire_records, send_chunk}
use dlt_matterbeam.Client.{Client, Setting, StateInfo, renamed, put_dlt_state, get_stored_state}
use dlt_matterbeam.Client.StateSync.{HasState, get_stored_state-put_dlt_state}
use dlt_matterbeam.Server.{Server, Item, Knobs, Fault, IngestResult, done}
use dlt_matterbeam.Server.Lock.{is_paused, set_item, claimed}
use dlt_matterbeam.Server.State
use dlt_matterbeam.Server.State.{staleness, write_state, store_unless}
use dlt_matterbeam.Server.State.Pushes.{put_dlt_state-get_dlt_state}
use dlt_matterbeam.Server.Ingest.{ledger_key, count_duplicate}
use dlt_matterbeam.Server.Ingest.Held.{with_lock-free}
use dlt_matterbeam.Server.Ingest.Replay.{ingest_again}
use dlt_matterbeam.Server.Routes.{Draws, token}
use dlt_matterbeam.Server.Routes.Api.{
  World, serve, is_settled, is_contention, settled, call, moment, send_rows, ingest_at, after,
}
use dlt_matterbeam.Server.Routes.Refinement.{put-once, get-once, send-once}
use dlt_matterbeam.Server.Routes.Once.{asked, once}

-- a process that listens and that no run holds
pub record IsFree (pid : String) (item : Item) (s : Server) : Type 0 where
  pub there : s.pids pid ≡ some item
  pub listens : is_paused item.fsm_state ≡ false
  pub free : item.invoke_semaphore ≡ 1

-- a push that is not stale is taken by a free process
put_dlt_state-done :
    (knobs : Knobs) (pid : String) (item : Item) (doc : Json) (s : Server)
    → knobs.lock_on ≡ true
    → IsFree pid item s
    → staleness doc (s.process_state pid).dlt_state ≡ done false
    → (State.put_dlt_state knobs pid doc s).0 ≡ done tt
unfolding State.put_dlt_state write_state State.get_dlt_state
put_dlt_state-done knobs pid item doc s on f new =
    ap (λ x. x.0)
      (with_lock-free knobs pid item s on f.there f.listens (write_state pid doc) f.free)
    ∙ ap (λ b. (store_unless pid doc b (set_item pid (claimed item) s)).0) new

-- and the document is then the state of the process
get_dlt_state-put_dlt_state :
    (knobs : Knobs) (pid : String) (doc : Json) (s : Server)
    → (State.put_dlt_state knobs pid doc s).0 ≡ done tt
    → State.get_dlt_state pid (State.put_dlt_state knobs pid doc s).1 ≡ as_doc doc
get_dlt_state-put_dlt_state knobs pid doc s taken =
    elim (put_dlt_state-get_dlt_state knobs pid doc s) [
      | inl (_, now, _) ↦ now
      | inr (f, failed, _) ↦ absurd (cc)
    ]

module _ (knobs : Knobs) (repr : Fault → String) (host : String) (draws : ℕ → Draws)
    (dropped : Response) (t : HttpTransport) (tries : 0 < t.max_409_retries)
    (known : t.api_token ≡ some token) where
  put_then_get :
      (pid : String) (doc : Row) (n : Net World)
      → (State.put_dlt_state knobs pid (object doc) n.peer.server).0 ≡ done tt
      → let h = http (serve knobs repr host draws dropped) t in
        (h.get_dlt_state pid (h.put_dlt_state pid doc n).1).0 ≡ ok (some (object doc))
  put_then_get pid doc n taken =
      let s₁ = (State.put_dlt_state knobs pid (object doc) n.peer.server).1 in
      rw (put-once knobs repr host draws dropped t tries known pid doc n (ap is_settled taken)) (
        rw (get-once knobs repr host draws dropped t tries known pid (asked (after n.peer s₁) n))
          (ap ok (get_dlt_state-put_dlt_state knobs pid (object doc) n.peer.server taken)))

  -- Over HTTP to the server, a client that is resolved to a process reads back the state that it
  -- pushes, every field and the load id. The process is there, listens and is free, the pushed
  -- document is not stale against the one before, and the client holds the server's token.
  pub state_round_trip :
      (setting : Setting) (c : Client (Net World)) (pid name : String) (row : Row) (i : StateInfo)
      (item : Item)
      → knobs.lock_on ≡ true
      → IsFree pid item c.net.peer.server
      → staleness (object (renamed row)) (c.net.peer.server.process_state pid).dlt_state
        ≡ done false
      → c.pid_resolved ≡ true
      → c.pid ≡ some pid
      → HasState row i
      → let h = http (serve knobs repr host draws dropped) t in
        (get_stored_state h setting name (put_dlt_state h setting row c).1).0 ≡ ok (some i)
  state_round_trip setting c pid name row i item on f new resolved own h =
      get_stored_state-put_dlt_state (http (serve knobs repr host draws dropped) t) setting c pid
        name row i
        (put_then_get pid (renamed row) c.net
          (put_dlt_state-done knobs pid item (object (renamed row)) c.net.peer.server on f new))
        resolved own h

  pub sent :
      (chunk : Chunk) (pid : Option String) (rows : List Row) (n : Net World) (r : IngestResult)
      → wire_records chunk.rows chunk.keys chunk.hard_delete ≡ ok rows
      → (ingest_at knobs draws chunk pid rows n.peer).0 ≡ done r
      → send_chunk (serve knobs repr host draws dropped) t chunk pid n
        ≡ (ok r.segment_key, asked (after n.peer (ingest_at knobs draws chunk pid rows n.peer).1) n)
  sent chunk pid rows n r built stored =
      let go =
        send-once knobs repr host draws dropped t tries known chunk pid rows n built
          (ap is_contention stored) in
      go ∙ ap (λ o. once (send_rows knobs draws chunk pid o) n) built ∙ λ i. (
        settled (λ r. ok r.segment_key) (stored i),
        asked (after n.peer (ingest_at knobs draws chunk pid rows n.peer).1) n,
      )

  -- A chunk that the server ingested is acknowledged over HTTP when it is sent again: with the same
  -- segment key, and with no change of the server but the counter of the duplicates. The ledger must
  -- not have held the chunk before.
  pub send_again :
      (chunk : Chunk) (pid : Option String) (rows : List Row) (n : Net World) (r : IngestResult)
      → wire_records chunk.rows chunk.keys chunk.hard_delete ≡ ok rows
      → n.peer.server.ledger (ledger_key (call chunk pid rows)) ≡ false
      → (ingest_at knobs draws chunk pid rows n.peer).0 ≡ done r
      → let p = serve knobs repr host draws dropped in
        let first = send_chunk p t chunk pid n in
        let again = send_chunk p t chunk pid first.1 in
        (first.0 ≡ ok r.segment_key)
        × (again.0 ≡ ok r.segment_key)
        × (again.1.peer.server ≡ count_duplicate first.1.peer.server)
  send_again chunk pid rows n r built new stored =
      let p = serve knobs repr host draws dropped in
      let c = call chunk pid rows in
      let m = λ (w : World). moment (draws w.served) in
      let x = ingest_at knobs draws chunk pid rows n.peer in
      let n₁ = asked (after n.peer x.1) n in
      let again = ingest_again knobs c c (m n.peer) (m n₁.peer) n.peer.server r refl new stored in
      let first = sent chunk pid rows n r built stored in
      let second =
        sent chunk pid rows n₁ (record r { duplicate = true }) built (ap (λ y. y.0) again) in
      (
        ap (λ y. y.0) first,
        subst (λ y. (send_chunk p t chunk pid y.1).0 ≡ ok r.segment_key) (sym first)
            (ap (λ z. z.0) second),
        subst (λ y. (send_chunk p t chunk pid y.1).1.peer.server ≡ count_duplicate y.1.peer.server)
            (sym first) (ap (λ z. z.1.peer.server) second ∙ ap (λ z. z.1) again),
      )
