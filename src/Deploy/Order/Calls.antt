-- ===== src/Deploy/Order/Calls.antt =====
-- What each call of a `DeployClient` of src/dlt_matterbeam/deploy.py adds to the log.
use dlt_matterbeam.Prelude.{
  ℕ, zero, suc, String, ◌≡◌, refl, inl, inr, Bool, true, false, Option, List, [], ◌∷◌, lookup,
  Bool-cases, nat_beq, Dict,
}
use dlt_matterbeam.Json.{Row}
use dlt_matterbeam.Exec.{Result, ok, err}
use dlt_matterbeam.Action.{Action, pure, lift, continue, ◌>>=◌, ◌>>◌}
use dlt_matterbeam.Transport.Http.{
  post, Request, Response, Net, exchange, sleep, text_of, body_json, empty, subscript, as_text,
}
use dlt_matterbeam.Deploy.Poll.{is_terminal, poll_from, poll_build_status}
use dlt_matterbeam.Deploy.{
  deploy_request, checked, raise_for_status, register_hosted_pid, submit_secrets, create_upload_url,
  upload_package, trigger_build, get_build_status, polled, reply_row,
}
use dlt_matterbeam.Deploy.Order.{
  Exchange, logged, Step, registers, submits, asks_url, uploads, builds, polls, Ready, InOrder, log,
  Post, Ready-InOrder, Ready-skip, Follows, continue-Post, continue-InOrder, lift-Post, raise-Post,
}

module _ (token : Option String) (pid : String) {P : Type 0}
    (respond : Request → P → Response × P) where
  -- the next step's request, with its reply checked
  checked-Post :
      (k m : ℕ) (r : Request) (n : Net (P × List Exchange))
      → Step token pid k r
      → Follows k m
      → Ready token pid k (log token pid n)
      → let c = checked (logged respond) token r n in Post token pid m c.0 c.1
  unfolding checked Post
  checked-Post k m r n step next h =
      let n' = (exchange (logged respond) r n).1 in
      let reply = (respond r n.peer.0).0 in
      continue-Post token pid m m (raise_for_status reply) (λ _. pure reply) n'
        (raise-Post token pid m reply n' (k, step, h) λ good. (k, next, step, good, h)) λ _ _ h'. h'

  pub register-Post :
      (key dataset : String) (n : Net (P × List Exchange))
      → Ready token pid 0 (log token pid n)
      → let m = register_hosted_pid (logged respond) token key dataset n in Post token pid 1 m.0 m.1
  unfolding register_hosted_pid
  register-Post key dataset n h =
      continue-Post token pid 1 1 _ _ _ (checked-Post 0 1 _ n (registers _) (inl refl) h) λ r n1 h1.
        continue-Post token pid 1 1 (body_json r) _ n1 (lift-Post token pid 1 (body_json r) n1 h1)
          λ reply n2 h2.
            continue-Post token pid 1 1 (subscript reply "id") _ n2
              (lift-Post token pid 1 (subscript reply "id") n2 h2)
              λ id n3 h3. lift-Post token pid 1 (as_text id) n3 h3

  pub submit-Post :
      (p : Option String) (d : Dict String) (n : Net (P × List Exchange))
      → text_of p ≡ pid
      → Ready token pid 1 (log token pid n)
      → let m = submit_secrets (logged respond) token p d n in Post token pid 2 m.0 m.1
  unfolding submit_secrets
  submit-Post p [] n e h =
      lift-Post token pid 2 (ok tt) n (Ready-skip token pid (log token pid n) h)
  submit-Post p (x ∷ d) n e h = rw (e) (
      continue-Post token pid 2 2 _ _ _ (checked-Post 1 2 _ n (submits _) (inl refl) h)
        λ _ n2 h2. lift-Post token pid 2 (ok tt) n2 h2)

  pub create-Post :
      (p : Option String) (name : String) (n : Net (P × List Exchange))
      → text_of p ≡ pid
      → Ready token pid 2 (log token pid n)
      → let m = create_upload_url (logged respond) token p name n in Post token pid 3 m.0 m.1
  unfolding create_upload_url
  create-Post p name n e h = rw (e) (
      continue-Post token pid 3 3 _ _ _ (checked-Post 2 3 _ n (asks_url _) (inl refl) h)
        λ r n3 h3. lift-Post token pid 3 (body_json r) n3 h3)

  pub upload-Post :
      (url : String) (content : List ℕ) (n : Net (P × List Exchange))
      → Ready token pid 3 (log token pid n)
      → let m = upload_package (logged respond) token url content n in Post token pid 4 m.0 m.1
  unfolding upload_package
  upload-Post url content n h =
      continue-Post token pid 4 4 _ _ _ (checked-Post 3 4 _ n (uploads url _ content) (inl refl) h)
        λ _ n4 h4. lift-Post token pid 4 (ok tt) n4 h4

  get-Post :
      (p : Option String) (n : Net (P × List Exchange))
      → text_of p ≡ pid
      → Ready token pid 5 (log token pid n)
      → let r = get_build_status (logged respond) token p n in Post token pid 5 r.0 r.1
  unfolding get_build_status
  get-Post p n e h = rw (e) (
      continue-Post token pid 5 5 _ _ _ (checked-Post 5 5 _ n (polls _) (inr (inr (refl, refl))) h)
        λ r n' h'.
          continue-Post token pid 5 5 (body_json r) _ n' (lift-Post token pid 5 (body_json r) n' h')
            λ reply n'' h''. lift-Post token pid 5 (reply_row reply) n'' h'')

  accepted-InOrder :
      {B : Type 0} (x : Result (Unit {0})) (f : Bool → Action (Net (P × List Exchange)) B)
      (n : Net (P × List Exchange))
      → Post token pid 5 x n
      → (Ready token pid 5 (log token pid n) → InOrder token pid (log token pid (f true n).1))
      → InOrder token pid (log token pid (((lift x >> pure true) >>= f) n).1)
  unfolding Post
  accepted-InOrder (ok a) f n h built = built h
  accepted-InOrder (err e) f n h built = h

  -- the build's reply: a 501 ends the deployment, and any other is checked
  pub trigger-InOrder :
      {B : Type 0} (p : Option String) (f : Bool → Action (Net (P × List Exchange)) B)
      (n : Net (P × List Exchange))
      → text_of p ≡ pid
      → Ready token pid 4 (log token pid n)
      → ((n' : Net (P × List Exchange))
          → InOrder token pid (log token pid n')
          → InOrder token pid (log token pid (f false n').1))
      → ((n' : Net (P × List Exchange))
          → Ready token pid 5 (log token pid n')
          → InOrder token pid (log token pid (f true n').1))
      → InOrder token pid (log token pid ((trigger_build (logged respond) token p >>= f) n).1)
  unfolding trigger_build
  trigger-InOrder p f n e h stopped built =
      let r = deploy_request token post ("collectors" ∷ pid ∷ "deployment" ∷ "build" ∷ []) empty in
      let n' = (exchange (logged respond) r n).1 in
      let reply = (respond r n.peer.0).0 in
      rw (e) (elim (Bool-cases (nat_beq reply.status_code 501)) [
        | inl absent ↦ rw (absent) (stopped n' (4, builds _, h))
        | inr present ↦ rw (present) (
            accepted-InOrder (raise_for_status reply) f n'
              (raise-Post token pid 5 reply n' (4, builds _, h)
                λ good. (4, inl refl, builds _, good, h))
              (built n'))
      ])

  poll-InOrder :
      (p : Option String) (left : ℕ) (status : Row) (n : Net (P × List Exchange))
      → text_of p ≡ pid
      → Ready token pid 5 (log token pid n)
      → InOrder token pid (
          log token pid
            (poll_from
              (get_build_status (logged respond) token p)
              (λ _. pure tt)
              (sleep (logged respond) 40)
              left
              status
              n).1)
  unfolding poll_from
  poll-InOrder p zero status n e h = Ready-InOrder token pid 5 (log token pid n) h
  poll-InOrder p (suc left) status n e h =
      continue-InOrder token pid 5 _ _ _ (get-Post p n e h) λ seen n' h'.
        elim (Bool-cases (is_terminal (lookup "build_status" seen))) [
          | inl done ↦ rw (done) (Ready-InOrder token pid 5 (log token pid n') h')
          | inr more ↦ elim (Bool-cases (nat_beq left 0)) [
            | inl last ↦ rw (more, last) (Ready-InOrder token pid 5 (log token pid n') h')
            | inr again ↦
                rw (more, again) (poll-InOrder p left seen (sleep (logged respond) 40 n').1 e h')
          ]
        ]

  pub polled-InOrder :
      (p : Option String) (max_attempts : ℕ) (n : Net (P × List Exchange))
      → text_of p ≡ pid
      → Ready token pid 5 (log token pid n)
      → InOrder token pid (log token pid (polled (logged respond) token p max_attempts true n).1)
  unfolding poll_build_status
  polled-InOrder p max_attempts n e h = poll-InOrder p max_attempts [] n e h

  -- what is made of the last reply changes no log
  pub finished :
      {A B : Type 0} (r : Result A) (g : A → B) (n : Net (P × List Exchange))
      → InOrder token pid (log token pid n)
      → InOrder token pid (log token pid (continue r (λ a. pure (g a)) n).1)
  finished (ok a) g n h = h
  finished (err e) g n h = h
