-- ===== src/Server/Routes/Once.antt =====
-- A call of `HttpTransport` that meets no contention: one request, whose reply decides it.
use dlt_matterbeam.Prelude.{
  ℕ, zero, suc, ◌+◌, ◌<◌, String, ◌≡◌, ◌≢◌, refl, ap, ◌∙◌, false, Option, some, List, Dict, arith,
}
use dlt_matterbeam.Exec.{Result, ok}
use dlt_matterbeam.Action.{Action}
use dlt_matterbeam.Transport.Http.{
  Method, post, Body, Request, Response, Net, HttpTransport, retry, success, verdict, attempts,
  request, send_request, terminal_on_conflict, conflict_terminal, conflict_reason,
}
use dlt_matterbeam.Server.{
  Server, Outcome, done, fault, Fault, contention, terminal, no_such_key, chaos_crash, malformed,
}
use dlt_matterbeam.Transport.Http.Retry.{outcome}
use dlt_matterbeam.Server.Routes.Handler.{answered}
use dlt_matterbeam.Server.Routes.Api.{is_contention, settled, or_dropped}

-- the client's network after one request
abbrev pub asked : {P : Type 0} → P → Net P → Net P
asked p n = record { peer = p; requests = n.requests + 1; slept = n.slept }

-- an action on the peer that takes one request
abbrev pub once : {P A : Type 0} → Action P A → Action (Net P) A
once m n = let x = m n.peer in (x.0, asked x.1 n)

module _ {P : Type 0} (respond : Request → P → Response × P) where
  attempts_once :
      (left : ℕ) (r : Request) (n : Net P)
      → 0 < left
      → verdict (respond r n.peer).0 ≢ retry
      → attempts respond left 0 r n ≡ (
        outcome (verdict (respond r n.peer).0) (respond r n.peer).0,
        asked (respond r n.peer).1 n,
      )
  unfolding attempts
  attempts_once zero r n tries settled = absurd (omega arith)
  attempts_once (suc left) r n tries settled = ground arith

  pub send_request_once :
      (t : HttpTransport) (m : Method) (path : List String) (headers : Dict String) (body : Body)
      (n : Net P)
      → 0 < t.max_409_retries
      → let x = respond (request t m path headers body) n.peer in
        verdict x.0 ≢ retry
        → send_request respond t m path headers body n ≡ (outcome (verdict x.0) x.0, asked x.1 n)
  unfolding send_request
  send_request_once t m path headers body n tries settled =
      attempts_once t.max_409_retries (request t m path headers body) n tries settled

pub done-injective : {A : Type 0} {a b : A} → done a ≡ done b → a ≡ b
done-injective h = cc

-- what the client makes of a route's reply
pub answered-outcome :
    (repr : Fault → String) (dropped : Response) (y : Outcome Response) (s : Server)
    → is_contention y ≡ false
    → ((r : Response) → y ≡ done r → verdict r ≡ success)
    → let r = or_dropped dropped (answered repr (y, s)).0 in
      (verdict r ≢ retry)
      × (conflict_terminal (outcome (verdict r) r) ≡ settled (λ r. ok (some r)) y)
unfolding verdict conflict_reason
answered-outcome repr dropped (done r) s calm well = (rw (well r refl) (λ h. cc), rw (well r refl))
answered-outcome repr dropped (fault (terminal reason)) s calm well = rw (calm) ((λ h. cc), refl)
answered-outcome repr dropped (fault contention) s calm well = cc
answered-outcome repr dropped (fault (no_such_key k)) s calm well = ((λ h. cc), refl)
answered-outcome repr dropped (fault (chaos_crash p)) s calm well = ((λ h. cc), refl)
answered-outcome repr dropped (fault malformed) s calm well = ((λ h. cc), refl)

-- what `except Conflict` makes of a call
pub terminal_on_conflict-eq :
    {P : Type 0} (respond : Request → P → Response × P) (t : HttpTransport) (m : Method)
    (path : List String) (headers : Dict String) (body : Body) (n n' : Net P)
    {o o' : Result (Option Response)}
    → send_request respond t m path headers body n ≡ (o, n')
    → conflict_terminal o ≡ o'
    → terminal_on_conflict respond t m path headers body n ≡ (o', n')
unfolding terminal_on_conflict
terminal_on_conflict-eq respond t m path headers body n n' sent same =
    ap (λ x. (conflict_terminal x.0, x.1)) sent ∙ λ i. (same i, n')

-- A POST whose route is answered: the result of the operation is that of the call.
pub post_once :
    {P : Type 0} (respond : Request → P → Response × P) (repr : Fault → String) (dropped : Response)
    (t : HttpTransport) (path : List String) (headers : Dict String) (body : Body) (n : Net P)
    (y : Outcome Response) (s : Server) (p : P)
    → 0 < t.max_409_retries
    → respond (request t post path headers body) n.peer
      ≡ (or_dropped dropped (answered repr (y, s)).0, p)
    → is_contention y ≡ false
    → ((r : Response) → y ≡ done r → verdict r ≡ success)
    → terminal_on_conflict respond t post path headers body n
      ≡ (settled (λ r. ok (some r)) y, asked p n)
unfolding terminal_on_conflict
post_once respond repr dropped t path headers body n y s p tries served calm well =
    let (calm', same) = answered-outcome repr dropped y s calm well in
    rw (send_request_once respond t post path headers body n tries (rw (served) calm'), served)
      (λ i. (same i, asked p n))
