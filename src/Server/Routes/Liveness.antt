-- ===== src/Server/Routes/Liveness.antt =====
-- A chunk, and the end of the run that holds the lock: `HttpTransport` of
-- src/dlt_matterbeam/transport.py over the routes of tests/fake_matterbeam/server.py.
use mathlib.Core.Path.{subst}
use dlt_matterbeam.Prelude.{
  ℕ, zero, suc, ◌+◌, ◌<◌, String, ◌≡◌, ◌≢◌, refl, sym, ap, ◌∙◌, Bool, true, false, Option, some,
  List, arith,
}
use dlt_matterbeam.Json.{null, Row}
use dlt_matterbeam.Exec.{ok}
use dlt_matterbeam.LoadJob.{Chunk}
use dlt_matterbeam.Server.{
  Server, Item, Knobs, Fault, Outcome, done, fault, contention, IngestResult,
}
use dlt_matterbeam.Server.Lock.{count_contention, released}
use dlt_matterbeam.Server.Ingest.{ledger_key}
use dlt_matterbeam.Server.Ingest.Held.{held_refuses}
use dlt_matterbeam.Transport.Http.{
  Request, Response, Net, HttpTransport, post, lines, request, verdict, retry, success,
  wire_records, chunk_headers, send_chunk, text_of, conflict_terminal, conflict_reason,
}
use dlt_matterbeam.Transport.Http.Retry.{peer_after, reply_after, outcome, send_request_settle}
use dlt_matterbeam.Server.Routes.{Draws, token, ingested, replied}
use dlt_matterbeam.Server.Routes.Handler.{answered}
use dlt_matterbeam.Server.Routes.Api.{
  World, serve, after, call, moment, ingest_at, or_dropped, is_contention, settled,
}
use dlt_matterbeam.Server.Routes.Once.{answered-outcome, terminal_on_conflict-eq, done-injective}
use dlt_matterbeam.Server.Routes.Refinement.{
  served, send-handled, chunk_path, continue-settled, as_text-text_json,
}
use dlt_matterbeam.Server.Routes.Calm.{ingest_calm}
use dlt_matterbeam.Server.Routes.Busy.{
  IsHeld, busy, left_by, left_by-pids, left_by-ledger, Refuses, waits,
}

replied-calm :
    (x : Outcome IngestResult × Server)
    → is_contention x.0 ≡ false
    → is_contention (replied ingested x).0 ≡ false
replied-calm (done a, s) h = refl
replied-calm (fault e, s) h = h

replied-success :
    (x : Outcome IngestResult × Server) (r : Response)
    → (replied ingested x).0 ≡ done r
    → verdict r ≡ success
unfolding verdict
replied-success (done a, s) r at = ap verdict (sym (done-injective at))
replied-success (fault e, s) r at = cc

settled-replied :
    (x : Outcome IngestResult × Server)
    → settled (λ r. ok (some r)) (replied ingested x).0 ≡ settled (λ a. ok (some (ingested a))) x.0
settled-replied (done a, s) = refl
settled-replied (fault e, s) = refl

peer_after-suc :
    {P : Type 0} (respond : Request → P → Response × P) (r : Request) (k : ℕ) (p : P)
    → peer_after respond r (suc k) p ≡ (respond r (peer_after respond r k p)).1
peer_after-suc respond r zero p = refl
peer_after-suc respond r (suc k) p = peer_after-suc respond r k (respond r p).1

module _ (knobs : Knobs) (repr : Fault → String) (host : String) (draws : ℕ → Draws)
    (dropped : Response) (t : HttpTransport) (tries : 0 < t.max_409_retries)
    (known : t.api_token ≡ some token) where
  module _ (chunk : Chunk) (some_pid : Option String) (rows : List Row) (pid : String) (item : Item)
      (own : text_of some_pid ≡ pid) (on : knobs.lock_on ≡ true) where
    abbrev req : Request
    req = request t post (chunk_path chunk some_pid) (chunk_headers chunk) (lines rows)

    abbrev at : World → Outcome IngestResult × Server
    at = ingest_at knobs draws chunk some_pid rows

    serve-at :
        (w : World)
        → serve knobs repr host draws dropped req w ≡ (
          or_dropped dropped (answered repr ((replied ingested (at w)).0, (at w).1)).0,
          after w (at w).1,
        )
    serve-at w =
        served knobs repr host draws dropped t tries known ingested (at w) req w
          (send-handled knobs repr host draws dropped t tries known chunk some_pid rows w)

    abbrev peer : Request → World × ℕ → Response × (World × ℕ)
    peer = busy knobs repr host draws dropped pid item.update_version

    abbrev net : ℕ → ℕ → ℕ → World → Net (World × ℕ)
    net left requests slept w = record { peer = (w, suc left); requests = requests; slept = slept }

    abbrev freed : ℕ → World → World
    freed left w = left_by knobs repr host draws dropped pid item.update_version left w

    refuses :
        (s : Server)
        → IsHeld pid item s
        → s.ledger (ledger_key (call chunk some_pid rows)) ≡ false
        → Refuses knobs repr host draws dropped pid item.update_version req s
    unfolding verdict conflict_reason
    refuses s h new w there ledger =
        let refused : at w ≡ (fault contention, count_contention w.server) =
          (held_refuses knobs pid item w.server on (ap (λ o. o) there ∙ h.there) h.listens
            (call chunk some_pid rows) (moment (draws w.served)) null own
            (ap (λ (l : String → Bool). l (ledger_key (call chunk some_pid rows))) ledger ∙ new)
            h.held).0 in
        (
          ap (λ x. verdict x.0) (serve-at w)
              ∙ ap
                  (λ x.
                    verdict (or_dropped dropped (answered repr ((replied ingested x).0, x.1)).0))
                  refused,
          ap (λ x. x.1) (serve-at w) ∙ ap (λ x. after w x.1) refused,
        )

    freed_calm :
        (left : ℕ) (w : World)
        → IsHeld pid item w.server
        → w.server.ledger (ledger_key (call chunk some_pid rows)) ≡ false
        → is_contention (at (freed left w)).0 ≡ false
    freed_calm left w h new =
        let w' = freed left w in
        ingest_calm knobs (call chunk some_pid rows) (moment (draws w'.served)) (released item)
          w'.server on
          (ap w'.server.pids own
            ∙ left_by-pids knobs repr host draws dropped pid item.update_version left w item on
                h.there refl)
          refl refl
          (ap (λ (l : String → Bool). l (ledger_key (call chunk some_pid rows)))
              (left_by-ledger knobs repr host draws dropped pid item.update_version left w)
            ∙ new)

    module _ (left : ℕ) (w : World)
        (p : peer_after peer req (suc left) (w, suc left) ≡ (freed left w, zero)) where
      last_reply :
          reply_after peer req (suc left) (w, suc left)
          ≡ or_dropped dropped
              (answered repr ((replied ingested (at (freed left w))).0, (at (freed left w)).1)).0
      unfolding busy
      last_reply = ap (λ q. (peer req q).0) p ∙ ap (λ x. x.0) (serve-at (freed left w))

      last_peer :
          (peer req (peer_after peer req (suc left) (w, suc left))).1
          ≡ (after (freed left w) (at (freed left w)).1, zero)
      unfolding busy
      last_peer = ap (λ q. (peer req q).1) p ∙ ap (λ x. (x.1, zero)) (serve-at (freed left w))

    -- A chunk that comes while another run holds the lock of its process gets through once that run
    -- has handed it back: if it does so before the tries are used up, the chunk is sent `left + 2`
    -- times, the last time to the process that is free, and its result is that of the ingest there,
    -- which is not put off again. The chunk is not in the ledger, and its records can be built.
    pub send_chunk_settles :
        (left requests slept : ℕ) (w : World)
        → IsHeld pid item w.server
        → w.server.ledger (ledger_key (call chunk some_pid rows)) ≡ false
        → wire_records chunk.rows chunk.keys chunk.hard_delete ≡ ok rows
        → suc left < t.max_409_retries
        → let w' = freed left w in
          (n' : Net (World × ℕ)) × (send_chunk peer t chunk some_pid (net left requests slept w)
            ≡ (settled (λ r. ok r.segment_key) (at w').0, n'))
          × (n'.peer ≡ (after w' (at w').1, zero))
          × (n'.requests ≡ requests + (left + 2))
          × (is_contention (at w').0 ≡ false)
    unfolding send_chunk
    send_chunk_settles left requests slept w h new built more =
        let n = net left requests slept w in
        let w' = freed left w in
        let path = chunk_path chunk some_pid in
        let (c, p) =
          waits knobs repr host draws dropped pid item.update_version req left w
            (refuses w.server h new) in
        let calm = freed_calm left w h new in
        let reply = last_reply left w p in
        let (calm', same) =
          answered-outcome repr dropped (replied ingested (at w')).0 (at w').1
            (replied-calm (at w') calm) (replied-success (at w')) in
        let (n', eq, np, nr, _) =
          send_request_settle peer t post path (chunk_headers chunk) (lines rows) n (suc left) c
            more (subst (λ r. verdict r ≢ retry) (sym reply) calm') in
        let outcome' =
          ap (λ r. conflict_terminal (outcome (verdict r) r)) reply
          ∙ same
          ∙ settled-replied (at w') in
        let term =
          terminal_on_conflict-eq peer t post path (chunk_headers chunk) (lines rows) n n' eq
            outcome' in
        (
          n',
          rw (built, term)
              (continue-settled _ _ _ (at w').0 n' λ r i. (as_text-text_json r.segment_key i, n')),
          np ∙ peer_after-suc peer req (suc left) (w, suc left) ∙ last_peer left w p,
          omega (arith, nr),
          calm,
        )
