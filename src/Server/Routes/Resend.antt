-- ===== src/Server/Routes/Resend.antt =====
-- A chunk over HTTP, sent again: what `HttpTransport.send_chunk` of src/dlt_matterbeam/transport.py
-- leaves in the ledger of tests/fake_matterbeam/server.py, retries included.
use mathlib.Core.Path.{subst}
use dlt_matterbeam.Prelude.{
  ℕ, zero, suc, ◌+◌, ◌<◌, String, ◌≡◌, refl, sym, ap, ◌∙◌, Option, none, some, List, arith,
  Bool-cases, ◌⊎◌, inl, inr, ◌==◌,
}
use dlt_matterbeam.Json.{Row}
use dlt_matterbeam.Exec.{Result, ok, err}
use dlt_matterbeam.Action.{Action, lift, ◌>>=◌, continue}
use dlt_matterbeam.LoadJob.{Chunk}
use dlt_matterbeam.Transport.Http.{
  post, lines, Request, Response, Net, HttpTransport, Verdict, retry, raised, missing, success,
  verdict, attempts, send_request, request, terminal_on_conflict, conflict_terminal, send_chunk,
  chunk_headers, wire_records, conflict_reason, reply_json, subscript, get_field, as_text,
}
use dlt_matterbeam.Transport.Http.Retry.{outcome}
use dlt_matterbeam.Server.{
  Server, Knobs, Outcome, done, fault, Fault, contention, terminal, no_such_key, chaos_crash,
  malformed, init, IngestResult,
}
use dlt_matterbeam.Server.Ingest.{ledger_key}
use dlt_matterbeam.Server.Ingest.Entries.{
  HasEntry, Remembers, ingest-Remembers, ingest-HasEntry, ingest-entered,
}
use dlt_matterbeam.Server.Routes.{Draws, token, ingested, replied}
use dlt_matterbeam.Server.Routes.Handler.{answered}
use dlt_matterbeam.Server.Routes.Api.{World, serve, after, call, moment, ingest_at, or_dropped}
use dlt_matterbeam.Server.Routes.Once.{asked}
use dlt_matterbeam.Server.Routes.Refinement.{chunk_path, served, send-handled}
use dlt_matterbeam.Server.Routes.Stack.{sent}

-- the server without its counters
abbrev pub uncounted : Server → Server
uncounted s = record s { counters = init.counters }

-- a reply of the ingest that counts as a success is that of an ingest that returned
success-done :
    (repr : Fault → String) (dropped : Response) (o : Outcome IngestResult) (s : Server)
    → verdict (or_dropped dropped (answered repr ((replied ingested (o, s)).0, s)).0) ≡ success
    → (r : IngestResult) × (o ≡ done r)
unfolding verdict conflict_reason
success-done repr dropped (done r) s h = (r, refl)
success-done repr dropped (fault contention) s h = absurd (cc)
success-done repr dropped (fault (terminal reason)) s h =
    elim (Bool-cases (reason == "lock_contention")) [
      | inl contends ↦ absurd (ground arith)
      | inr ends ↦ absurd (ground arith)
    ]
success-done repr dropped (fault (no_such_key k)) s h = absurd (cc)
success-done repr dropped (fault (chaos_crash p)) s h = absurd (cc)
success-done repr dropped (fault malformed) s h = absurd (cc)

-- a result that is only read leaves the state
pub continue_lift-state :
    {A B S : Type 0} (r : Result A) (f : A → Action S B) (s : S)
    → ((a : A) → (f a s).1 ≡ s)
    → (continue r f s).1 ≡ s
continue_lift-state (ok a) f s each = each a
continue_lift-state (err e) f s each = refl

conflict_terminal-ok : {A : Type 0} (r : Result A) {x : A} → conflict_terminal r ≡ ok x → r ≡ ok x
conflict_terminal-ok (ok a) h = h
conflict_terminal-ok (err e) h = ground arith

outcome-success :
    (v : Verdict) (r : Response) {response : Response}
    → outcome v r ≡ ok (some response)
    → v ≡ success
outcome-success retry r h = absurd (cc)
outcome-success (raised e) r h = absurd (cc)
outcome-success missing r h = absurd (cc)
outcome-success success r h = refl

module _ {P : Type 0} (respond : Request → P → Response × P) where
  -- the network after a try that met contention, and its sleep
  abbrev napped : ℕ → Request → Net P → Net P
  napped a r n = record {
    peer = (respond r n.peer).1;
    requests = n.requests + 1;
    slept = n.slept + (a + 1);
  }

  -- one try comes again, or has an outcome
  abbrev Tried : ℕ → ℕ → Request → Net P → Type 0
  Tried left a r n =
      let x = respond r n.peer in
      (attempts respond (suc left) a r n ≡ attempts respond left (a + 1) r (napped a r n))
      ⊎ (attempts respond (suc left) a r n ≡ (outcome (verdict x.0) x.0, asked x.1 n))

  Tried-verdict :
      (left a : ℕ) (r : Request) (n : Net P) (v : Verdict)
      → verdict (respond r n.peer).0 ≡ v
      → Tried left a r n
  unfolding attempts
  Tried-verdict left a r n retry e = inl (ground (arith, e))
  Tried-verdict left a r n (raised x) e = inr (ground (arith, e))
  Tried-verdict left a r n missing e = inr (ground (arith, e))
  Tried-verdict left a r n success e = inr (ground (arith, e))

  Tried-next : (left a : ℕ) (r : Request) (n : Net P) → Tried left a r n
  Tried-next left a r n = Tried-verdict left a r n (verdict (respond r n.peer).0) refl

module _ (knobs : Knobs) (repr : Fault → String) (host : String) (draws : ℕ → Draws)
    (dropped : Response) (t : HttpTransport) (tries : 0 < t.max_409_retries)
    (known : t.api_token ≡ some token) where
  abbrev pub peer : Request → World → Response × World
  peer = serve knobs repr host draws dropped

  module _ (chunk : Chunk) (pid : Option String) (rows : List Row) where
    abbrev req : Request
    req = request t post (chunk_path chunk pid) (chunk_headers chunk) (lines rows)

    abbrev at : World → Outcome IngestResult × Server
    at = ingest_at knobs draws chunk pid rows

    serve-at :
        (w : World)
        → peer req w ≡ (
          or_dropped dropped (answered repr ((replied ingested (at w)).0, (at w).1)).0,
          after w (at w).1,
        )
    serve-at w =
        served knobs repr host draws dropped t tries known ingested (at w) req w
          (send-handled knobs repr host draws dropped t tries known chunk pid rows w)

    abbrev pub key : String
    key = ledger_key (call chunk pid rows)

    serve-Remembers : (w : World) → Remembers w.server (peer req w).1.server
    serve-Remembers w =
        subst (λ x. Remembers w.server x.1.server) (sym (serve-at w))
          (ingest-Remembers knobs (call chunk pid rows) (moment (draws w.served)) w.server)

    serve-HasEntry :
        (w : World) → verdict (peer req w).0 ≡ success → HasEntry key (peer req w).1.server
    serve-HasEntry w h =
        let (r, returned) =
          success-done repr dropped (at w).0 (at w).1
            (subst (λ x. verdict x.0 ≡ success) (serve-at w) h) in
        subst (λ x. HasEntry key x.1.server) (sym (serve-at w))
          (ingest-HasEntry knobs (call chunk pid rows) (moment (draws w.served)) w.server r
            returned)

    attempts-Remembers :
        (left a : ℕ) (n : Net World)
        → Remembers n.peer.server (attempts peer left a req n).1.peer.server
    unfolding attempts
    attempts-Remembers zero a n = λ k h. h
    attempts-Remembers (suc left) a n = elim (Tried-next peer left a req n) [
      | inl at ↦ rw (at) λ k h.
          attempts-Remembers left (a + 1) (napped peer a req n) k (serve-Remembers n.peer k h)
      | inr at ↦ rw (at) (serve-Remembers n.peer)
    ]

    attempts-HasEntry :
        (left a : ℕ) (n : Net World) (response : Response)
        → (attempts peer left a req n).0 ≡ ok (some response)
        → HasEntry key (attempts peer left a req n).1.peer.server
    unfolding attempts
    attempts-HasEntry zero a n response h = absurd (cc)
    attempts-HasEntry (suc left) a n response h = elim (Tried-next peer left a req n) [
      | inl at ↦ rw (at) (
          attempts-HasEntry left (a + 1) (napped peer a req n) response
            (sym (ap (λ x. x.0) at) ∙ h))
      | inr at ↦ rw (at) (serve-HasEntry n.peer (outcome-success _ _ (sym (ap (λ x. x.0) at) ∙ h)))
    ]

    -- what `send_chunk` makes of the reply
    abbrev read_reply : Option Response → Action (Net World) (Option String)
    read_reply response = do
      reply ← lift (reply_json response)
      result ← lift (subscript reply "data")
      segment_key ← lift (get_field result "segment_key")
      lift (as_text segment_key)

    read_reply-state : (response : Option Response) (n : Net World) → (read_reply response n).1 ≡ n
    read_reply-state response n = continue_lift-state (reply_json response) _ n λ reply.
        continue_lift-state (subscript reply "data") _ n
          λ result. continue_lift-state (get_field result "segment_key") _ n λ segment_key. refl

    replied-state : (r : Result (Option Response)) (n : Net World) → (continue r read_reply n).1 ≡ n
    replied-state (ok response) n = read_reply-state response n
    replied-state (err e) n = refl

    -- a call that returns had a reply
    replied-ok :
        (r : Result (Option Response)) (n : Net World) {x : Option String}
        → (continue r read_reply n).0 ≡ ok x
        → (response : Response) × (r ≡ ok (some response))
    replied-ok (ok none) n h = absurd (cc)
    replied-ok (ok (some response)) n h = (response, refl)
    replied-ok (err e) n h = absurd (cc)

    send_chunk-eq :
        (n : Net World)
        → wire_records chunk.rows chunk.keys chunk.hard_delete ≡ ok rows
        → let sent = attempts peer t.max_409_retries 0 req n in
          send_chunk peer t chunk pid n ≡ continue (conflict_terminal sent.0) read_reply sent.1
    unfolding send_chunk terminal_on_conflict send_request
    send_chunk-eq n built = rw (built) refl

    pub send_chunk-Remembers :
        (n : Net World)
        → wire_records chunk.rows chunk.keys chunk.hard_delete ≡ ok rows
        → Remembers n.peer.server (send_chunk peer t chunk pid n).1.peer.server
    send_chunk-Remembers n built =
        let sent = attempts peer t.max_409_retries 0 req n in
        subst (λ n'. Remembers n.peer.server n'.peer.server)
          (sym (
            ap (λ x. x.1) (send_chunk-eq n built)
            ∙ replied-state (conflict_terminal sent.0) sent.1))
          (attempts-Remembers t.max_409_retries 0 n)

    pub send_chunk-HasEntry :
        (n : Net World) (x : Option String)
        → wire_records chunk.rows chunk.keys chunk.hard_delete ≡ ok rows
        → (send_chunk peer t chunk pid n).0 ≡ ok x
        → HasEntry key (send_chunk peer t chunk pid n).1.peer.server
    send_chunk-HasEntry n x built returned =
        let sent = attempts peer t.max_409_retries 0 req n in
        let at = send_chunk-eq n built in
        let (response, replied) =
          replied-ok (conflict_terminal sent.0) sent.1 (sym (ap (λ y. y.0) at) ∙ returned) in
        subst (λ n'. HasEntry key n'.peer.server)
          (sym (ap (λ y. y.1) at ∙ replied-state (conflict_terminal sent.0) sent.1))
          (attempts-HasEntry t.max_409_retries 0 n response (conflict_terminal-ok sent.0 replied))

    pub send_chunk-entered :
        (n : Net World)
        → wire_records chunk.rows chunk.keys chunk.hard_delete ≡ ok rows
        → HasEntry key n.peer.server
        → (x : Option String) × ((send_chunk peer t chunk pid n).0 ≡ ok x)
          × (uncounted (send_chunk peer t chunk pid n).1.peer.server ≡ uncounted n.peer.server)
    send_chunk-entered n built held =
        let (r, at) =
          ingest-entered knobs (call chunk pid rows) (moment (draws n.peer.served)) n.peer.server
            held in
        let done_at =
          sent knobs repr host draws dropped t tries known chunk pid rows n r built
            (ap (λ x. x.0) at) in
        (
          r.segment_key,
          ap (λ x. x.0) done_at,
          ap (λ x. uncounted x.1.peer.server) done_at ∙ ap (λ x. uncounted x.1) at,
        )
