-- ===== src/Deploy/Order.antt =====
-- In which order `deploy` of src/dlt_matterbeam/deploy.py makes its requests, and which of them carry
-- the token: what a log in order is, and what a call does to it.
pub mod Calls
pub mod Deployment
use Prim.Native.String.{◌++◌ as str_append}
use mathlib.Core.Path.{subst}
use dlt_matterbeam.Prelude.{
  ℕ, zero, suc, ◌+◌, ◌<◌, ◌≤◌, String, ◌≡◌, refl, sym, ◌⊎◌, inl, inr, Bool, true, false, Option,
  List, [], ◌∷◌, arith, lookup, Bool-cases, nat_beq, leb, if◌then◌else◌, Dict,
}
use dlt_matterbeam.Json.{Json, Row}
use dlt_matterbeam.Exec.{Result, ok, err}
use dlt_matterbeam.Action.{Action, pure, lift, continue, ◌>>=◌, ◌>>◌}
use dlt_matterbeam.Transport.Http.{
  get, post, put, patch, Body, bytes, Request, Response, Net, exchange, sleep, text_of, body_json,
  empty, subscript, as_text,
}
use dlt_matterbeam.Deploy.Poll.{is_terminal, poll_from, poll_build_status}
use dlt_matterbeam.Deploy.Secrets.{SecretItem}
use dlt_matterbeam.Deploy.{
  CollectorDeployInfo, BuiltPackage, deploy_request, checked, raise_for_status, register_hosted_pid,
  submit_secrets, create_upload_url, upload_package, trigger_build, triggered, get_build_status,
  polled, deploy_as, deploy_to, deploy, DeployResult, has_url, reply_row, secret_fields, url_text,
  result_of,
}

-- a request and the status that it got
abbrev pub Exchange : Type 0
Exchange = Request × ℕ

-- a peer that keeps what it was asked and answered, the last first
abbrev pub logged :
    {P : Type 0}
    → (Request → P → Response × P)
    → Request
    → P × List Exchange
    → Response × (P × List Exchange)
logged respond r s =
    let reply = respond r s.0 in (reply.0, (reply.1, (r, reply.0.status_code) ∷ s.1))

-- the requests of each step of a deployment: all carry the token but for the upload
pub data Step (token : Option String) (pid : String) : ℕ → Request → Type 0 where
  registers : (b : Body) → Step token pid 0 (deploy_request token post ("collectors" ∷ []) b)
  submits :
      (b : Body)
      → Step token pid 1 (deploy_request token patch ("collectors" ∷ pid ∷ "secrets" ∷ []) b)
  asks_url :
      (b : Body)
      → Step token pid 2
          (deploy_request token post ("collectors" ∷ pid ∷ "deployment" ∷ "upload-url" ∷ []) b)
  uploads :
      (url : String) (headers : Dict String) (content : List ℕ)
      → Step token pid 3 (record {
        method = put;
        path = url ∷ [];
        authorization = "";
        headers = headers;
        body = bytes content;
      })
  builds :
      (b : Body)
      → Step token pid 4
          (deploy_request token post ("collectors" ∷ pid ∷ "deployment" ∷ "build" ∷ []) b)
  polls :
      (b : Body)
      → Step token pid 5
          (deploy_request token get ("collectors" ∷ pid ∷ "deployment" ∷ "status" ∷ []) b)

-- step `n` may come next after step `k`: the following one, but the submission of the secrets may be
-- left out, and a poll may follow a poll
abbrev pub Follows : ℕ → ℕ → Type 0
Follows k n = (n ≡ suc k) ⊎ ((k ≡ 0) × (n ≡ 2)) ⊎ ((k ≡ 5) × (n ≡ 5))

module _ (token : Option String) (pid : String) where
  -- the steps up to where `n` may come next, in their order, all of them accepted
  abbrev pub Ready : ℕ → List Exchange → Type 0
  Ready n [] = n ≡ 0
  Ready n (x ∷ log) =
      (k : ℕ) × Follows k n × Step token pid k x.0 × (leb 400 x.1 ≡ false) × Ready k log

  -- requests in the order of the steps, all of them accepted but perhaps the last
  abbrev pub InOrder : List Exchange → Type 0
  InOrder [] = Unit
  InOrder (x ∷ log) = (k : ℕ) × Step token pid k x.0 × Ready k log

  pub Ready-InOrder : (n : ℕ) (log : List Exchange) → Ready n log → InOrder log
  Ready-InOrder n [] h = tt
  Ready-InOrder n (x ∷ log) (k, _, step, _, h) = (k, step, h)

  skips : (k : ℕ) → Follows k 1 → Follows k 2
  skips k (inl next) = inr (inl (omega arith, refl))
  skips k (inr (inl (_, e))) = omega arith
  skips k (inr (inr (_, e))) = omega arith

  -- no secrets, no submission
  pub Ready-skip : (log : List Exchange) → Ready 1 log → Ready 2 log
  Ready-skip [] h = omega arith
  Ready-skip (x ∷ log) (k, next, step, accepted, h) = (k, skips k next, step, accepted, h)

  module _ {P : Type 0} where
    abbrev pub log : Net (P × List Exchange) → List Exchange
    log n = n.peer.1

    -- after a call that leads up to step `k`
    unfoldable pub Post : {A : Type 0} → ℕ → Result A → Net (P × List Exchange) → Type 0
    Post k (ok a) n = Ready k (log n)
    Post k (err e) n = InOrder (log n)

    pub Post-InOrder :
        {A : Type 0} (k : ℕ) (r : Result A) (n : Net (P × List Exchange))
        → Post k r n
        → InOrder (log n)
    unfolding Post
    Post-InOrder k (ok a) n h = Ready-InOrder k (log n) h
    Post-InOrder k (err e) n h = h

    pub continue-Post :
        {A B : Type 0} (k m : ℕ) (r : Result A) (f : A → Action (Net (P × List Exchange)) B)
        (n : Net (P × List Exchange))
        → Post k r n
        → ((a : A) (n' : Net (P × List Exchange)) → Ready k (log n') → Post m (f a n').0 (f a n').1)
        → Post m (continue r f n).0 (continue r f n).1
    unfolding Post
    continue-Post k m (ok a) f n h next = next a n h
    continue-Post k m (err e) f n h next = h

    pub continue-InOrder :
        {A B : Type 0} (k : ℕ) (r : Result A) (f : A → Action (Net (P × List Exchange)) B)
        (n : Net (P × List Exchange))
        → Post k r n
        → ((a : A) (n' : Net (P × List Exchange)) → Ready k (log n') → InOrder (log (f a n').1))
        → InOrder (log (continue r f n).1)
    unfolding Post
    continue-InOrder k (ok a) f n h next = next a n h
    continue-InOrder k (err e) f n h next = h

    -- what only reads a reply makes no request
    pub lift-Post :
        {A : Type 0} (k : ℕ) (r : Result A) (n : Net (P × List Exchange))
        → Ready k (log n)
        → Post k r n
    unfolding Post
    lift-Post k (ok a) n h = h
    lift-Post k (err e) n h = Ready-InOrder k (log n) h

    pub raise-Post :
        (k : ℕ) (r : Response) (n : Net (P × List Exchange))
        → InOrder (log n)
        → (leb 400 r.status_code ≡ false → Ready k (log n))
        → Post k (raise_for_status r) n
    unfolding Post raise_for_status
    raise-Post k r n refused accepted = elim (Bool-cases (leb 400 r.status_code)) [
      | inl bad ↦ rw (bad) refused
      | inr good ↦ rw (good) (accepted good)
    ]
