-- ===== src/Transport/Http/Retry.antt =====
-- The retries of `_request` in src/dlt_matterbeam/transport.py.
use dlt_matterbeam.Prelude.{
  ℕ, zero, suc, ◌+◌, ◌*◌, ◌<◌, String, ◌≡◌, ◌≢◌, refl, Option, none, some, List, arith, Dict,
}
use dlt_matterbeam.Exec.{Result, ok, err, terminal, gave_up}
use dlt_matterbeam.Transport.Http.{
  Method, Body, Request, Response, Net, HttpTransport, Verdict, retry, raised, missing, success,
  verdict, attempts, request, send_request,
}

-- what a reply that is not retried makes of the call
abbrev pub outcome : Verdict → Response → Result (Option Response)
outcome retry response = err (terminal (gave_up 0))
outcome (raised e) response = err e
outcome missing response = ok none
outcome success response = ok (some response)

-- the sleeps of `k` retries, the first after the try numbered `a`
abbrev pub naps : ℕ → ℕ → ℕ
naps zero a = 0
naps (suc k) a = (a + 1) + naps k (a + 1)

naps_lem : (k a : ℕ) → naps k a + naps k a ≡ k * (2 * a + k + 1)
naps_lem zero a = omega arith
naps_lem (suc k) a = grind (arith, naps_lem k (a + 1))

module _ {P : Type 0} (respond : Request → P → Response × P) (r : Request) where
  -- the peer once it has answered the request `k` times
  abbrev pub peer_after : ℕ → P → P
  peer_after zero p = p
  peer_after (suc k) p = peer_after k (respond r p).1

  abbrev pub reply_after : ℕ → P → Response
  reply_after k p = (respond r (peer_after k p)).0

  -- the first `k` replies are lock contention
  abbrev pub Contended : ℕ → P → Type 0
  Contended zero p = Unit
  Contended (suc k) p = (verdict (respond r p).0 ≡ retry) × Contended k (respond r p).1

  -- the state after one try, numbered `a`, and its sleep
  abbrev retried : ℕ → Net P → Net P
  retried a n = record {
    peer = (respond r n.peer).1;
    requests = n.requests + 1;
    slept = n.slept + (a + 1);
  }

  attempts_settle :
      (k left a : ℕ) (n : Net P)
      → Contended k n.peer
      → k < left
      → verdict (reply_after k n.peer) ≢ retry
      → attempts respond left a r n ≡ (
        outcome (verdict (reply_after k n.peer)) (reply_after k n.peer),
        record {
          peer = peer_after (suc k) n.peer;
          requests = n.requests + suc k;
          slept = n.slept + naps k a;
        },
      )
  unfolding attempts
  attempts_settle zero (suc left) a n c lt settled = ground arith
  attempts_settle (suc k) (suc left) a n c lt settled =
      ground (arith, attempts_settle k left (a + 1) (retried a n) c.1 (omega arith) settled)
  attempts_settle k zero a n c lt settled = absurd (omega arith)

  attempts_give_up :
      (left a : ℕ) (n : Net P)
      → Contended left n.peer
      → attempts respond left a r n ≡ (
        err (terminal (gave_up (a + left))),
        record {
          peer = peer_after left n.peer;
          requests = n.requests + left;
          slept = n.slept + naps left a;
        },
      )
  unfolding attempts
  attempts_give_up zero a n c = ground arith
  attempts_give_up (suc left) a n c =
      ground (arith, attempts_give_up left (a + 1) (retried a n) c.1)

module _ {P : Type 0} (respond : Request → P → Response × P) (t : HttpTransport) (m : Method)
    (path : List String) (headers : Dict String) (body : Body) (n : Net P) where
  abbrev made : Request
  made = request t m path headers body

  -- Where the peer's first `k` replies are lock contention, `k` is below the limit, and the next
  -- reply is not, that reply decides the call. It took `k + 1` requests, and sleeps of 1, 2, …, `k`
  -- units.
  pub send_request_settle :
      (k : ℕ)
      → Contended respond made k n.peer
      → k < t.max_409_retries
      → verdict (reply_after respond made k n.peer) ≢ retry
      → (n' : Net P) × (send_request respond t m path headers body n ≡ (
        outcome (verdict (reply_after respond made k n.peer)) (reply_after respond made k n.peer),
        n',
      ))
        × (n'.peer ≡ peer_after respond made (suc k) n.peer)
        × (n'.requests ≡ n.requests + (k + 1))
        × (2 * n'.slept ≡ 2 * n.slept + k * (k + 1))
  unfolding send_request
  send_request_settle k c lt settled = (
    _,
    attempts_settle respond made k t.max_409_retries 0 n c lt settled,
    refl,
    omega arith,
    omega (arith, naps_lem k 0),
  )

  -- Where every try meets lock contention the call fails for good, after as many requests as are
  -- allowed, with a sleep after each, the last too.
  pub send_request_give_up :
      Contended respond made t.max_409_retries n.peer
      → (n' : Net P) × (send_request respond t m path headers body n
          ≡ (err (terminal (gave_up t.max_409_retries)), n'))
        × (n'.requests ≡ n.requests + t.max_409_retries)
        × (2 * n'.slept ≡ 2 * n.slept + t.max_409_retries * (t.max_409_retries + 1))
  unfolding send_request
  send_request_give_up c = (
    record {
      peer = peer_after respond made t.max_409_retries n.peer;
      requests = n.requests + t.max_409_retries;
      slept = n.slept + naps t.max_409_retries 0;
    },
    ground (arith, attempts_give_up respond made t.max_409_retries 0 n c),
    omega arith,
    omega (arith, naps_lem t.max_409_retries 0),
  )
