-- ===== src/Client/Identity.antt =====
-- Which pid a client of src/dlt_matterbeam/client.py acts as.
use mathlib.Core.Path.{subst}
use dlt_matterbeam.Prelude.{
  String, ◌≡◌, ◌≢◌, refl, sym, ap, ◌∙◌, if◌then◌else◌, true, false, Option, none, some, List, [],
  ◌∷◌, arith, eq_iff, inl, inr,
}
use dlt_matterbeam.Json.{Row}
use dlt_matterbeam.Exec.{Result, ok, err, Result-cases}
use dlt_matterbeam.Action.{Action, continue, lift, ◌>>=◌}
use dlt_matterbeam.LoadJob.{Chunk}
use dlt_matterbeam.Transport.{Transport}
use dlt_matterbeam.Client.{
  Setting, Client, on_net, get_pid, put_to, get_from, state_info, ensure_pid, fallback_key,
  ensure_pid_fallback, send_chunk, put_dlt_state, complete_load, get_stored_state,
}

module _ {N : Type 0} (t : Transport N) (setting : Setting) where
  -- a call that registers under a name first
  abbrev pub registering :
      {A : Type 0} → String → (Option String → Action (Client N) A) → Action (Client N) A
  registering key f c =
      let registered = t.register key setting.dataset_name c.net in
      continue registered.0
        (λ pid _. f pid (record { pid = pid; pid_resolved = true; net = registered.1 }))
        (record c { net = registered.1 })

  module _ (c : Client N) (resolved : c.pid_resolved ≡ true) where
    resolved_send :
        (chunk : Chunk) → send_chunk t setting chunk c ≡ on_net (t.send_chunk chunk c.pid) c
    unfolding send_chunk ensure_pid_fallback
    resolved_send chunk = rw resolved

    pub resolved_put : (row : Row) → put_dlt_state t setting row c ≡ put_to t setting row c.pid c
    unfolding put_dlt_state ensure_pid_fallback
    resolved_put row = rw resolved

    resolved_complete :
        (load_id : String)
        → complete_load t setting load_id c ≡ on_net (t.complete_load load_id c.pid) c
    unfolding complete_load ensure_pid_fallback
    resolved_complete load_id = rw resolved

    pub resolved_restore :
        (name : String) → get_stored_state t setting name c ≡ get_from t setting c.pid c
    unfolding get_stored_state ensure_pid
    resolved_restore name = rw resolved

    -- A client that is resolved never registers again: each call is the transport's, for its pid.
    pub resolved_calls :
        (name load_id : String) (chunk : Chunk) (row : Row)
        → (send_chunk t setting chunk c ≡ on_net (t.send_chunk chunk c.pid) c)
          × (put_dlt_state t setting row c ≡ put_to t setting row c.pid c)
          × (complete_load t setting load_id c ≡ on_net (t.complete_load load_id c.pid) c)
          × (get_stored_state t setting name c ≡ get_from t setting c.pid c)
    resolved_calls name load_id chunk row =
        (resolved_send chunk, resolved_put row, resolved_complete load_id, resolved_restore name)

  registered_then :
      {A : Type 0} (p : String) (f : Option String → Action (Client N) A)
      (r : Result (Option String)) (c : Client N) (n : N)
      → let m =
          continue r
            (λ pid _. (ok pid, record { pid = pid; pid_resolved = true; net = n }))
            (record c { net = n }) in
        continue m.0 (λ _. get_pid >>= f) m.1
        ≡ continue r
            (λ pid _. f pid (record { pid = pid; pid_resolved = true; net = n }))
            (record c { net = n })
  registered_then p f (ok pid) c n = refl
  registered_then p f (err e) c n = refl

  register_fresh :
      (p : String) (c : Client N)
      → c.pid_resolved ≡ false
      → ensure_pid t setting p c ≡ registering p (λ pid c'. (ok pid, c')) c
  unfolding ensure_pid
  register_fresh p c fresh = elim (Result-cases (t.register p setting.dataset_name c.net).0) [
    | inl (pid, e) ↦ rw (fresh, e)
    | inr (error, e) ↦ rw (fresh, e)
  ]

  first_call :
      {A : Type 0} (p : String) (f : Option String → Action (Client N) A)
      (m : Action (Client N) (Option String)) (c : Client N)
      → m c ≡ registering p (λ pid c'. (ok pid, c')) c
      → (m >>= λ _. get_pid >>= f) c ≡ registering p f c
  first_call p f m c e = rw e (
      registered_then p f (t.register p setting.dataset_name c.net).0 c
        (t.register p setting.dataset_name c.net).1)

  -- A client made while the pipeline `p` runs first registers under the name of `p` and its dataset,
  -- whichever call comes first, and then makes the call as the pid that it was given. Where the
  -- registration fails, the call fails with it, and the client stays unresolved.
  pub first_calls :
      (c : Client N) (p load_id : String) (chunk : Chunk) (row : Row)
      → c.pid_resolved ≡ false
      → setting.active_pipeline ≡ some p
      → p ≢ ""
      → (send_chunk t setting chunk c ≡ registering p (λ pid. on_net (t.send_chunk chunk pid)) c)
        × (put_dlt_state t setting row c ≡ registering p (put_to t setting row) c)
        × (complete_load t setting load_id c
            ≡ registering p (λ pid. on_net (t.complete_load load_id pid)) c)
        × (get_stored_state t setting p c ≡ registering p (get_from t setting) c)
  unfolding send_chunk put_dlt_state complete_load get_stored_state ensure_pid_fallback
  first_calls c p load_id chunk row fresh running named =
      let key : fallback_key t setting ≡ p = rw running (ground (arith, eq_iff p "")) in
      let own = register_fresh p c fresh in
      let fallback : ensure_pid_fallback t setting c ≡ registering p (λ pid c'. (ok pid, c')) c =
        ap (λ b. if b then (ok c.pid, c) else ensure_pid t setting (fallback_key t setting) c) fresh
        ∙ ap (λ k. ensure_pid t setting k c) key
        ∙ own in
      (
        first_call p (λ pid. on_net (t.send_chunk chunk pid)) (ensure_pid_fallback t setting) c
            fallback,
        first_call p (put_to t setting row) (ensure_pid_fallback t setting) c fallback,
        first_call p (λ pid. on_net (t.complete_load load_id pid)) (ensure_pid_fallback t setting) c
            fallback,
        first_call p (get_from t setting) (ensure_pid t setting p) c own,
      )

  -- the calls that dlt makes of a client
  pub data Call : Type 0 where
    send : Chunk → Call
    put : Row → Call
    complete : String → Call
    restore : String → Call

  -- the client after a call, whether it returned or raised
  pub after : Call → Client N → Client N
  after (send chunk) c = (send_chunk t setting chunk c).1
  after (put row) c = (put_dlt_state t setting row c).1
  after (complete load_id) c = (complete_load t setting load_id c).1
  after (restore name) c = (get_stored_state t setting name c).1

  pub after_all : List Call → Client N → Client N
  after_all [] c = c
  after_all (call ∷ calls) c = after_all calls (after call c)

  -- the client keeps who it is
  abbrev SameId : Client N → Client N → Type 0
  SameId c c' = (c'.pid_resolved ≡ c.pid_resolved) × (c'.pid ≡ c.pid)

  put_to-SameId :
      (row : Row) (pid : Option String) (c : Client N) → SameId c (put_to t setting row pid c).1
  put_to-SameId row none c = (refl, refl)
  put_to-SameId row (some pid) c = (refl, refl)

  lifted-SameId :
      {A B : Type 0} (r : Result A) (g : A → Result B) (c : Client N)
      → SameId c (continue r (λ a. lift (g a)) c).1
  lifted-SameId (ok a) g c = (refl, refl)
  lifted-SameId (err e) g c = (refl, refl)

  get_from-SameId : (pid : Option String) (c : Client N) → SameId c (get_from t setting pid c).1
  get_from-SameId none c = (refl, refl)
  get_from-SameId (some pid) c =
      lifted-SameId (t.get_dlt_state pid c.net).0 state_info
        (record c { net = (t.get_dlt_state pid c.net).1 })

  after-SameId : (call : Call) (c : Client N) → c.pid_resolved ≡ true → SameId c (after call c)
  unfolding after
  after-SameId (send chunk) c r =
      subst (λ x. SameId c x.1) (sym (resolved_send c r chunk)) (refl, refl)
  after-SameId (put row) c r =
      subst (λ x. SameId c x.1) (sym (resolved_put c r row)) (put_to-SameId row c.pid c)
  after-SameId (complete load_id) c r =
      subst (λ x. SameId c x.1) (sym (resolved_complete c r load_id)) (refl, refl)
  after-SameId (restore name) c r =
      subst (λ x. SameId c x.1) (sym (resolved_restore c r name)) (get_from-SameId c.pid c)

  -- A resolved client keeps its pid through whatever calls follow, those that raise included.
  after_all-pid :
      (calls : List Call) (c : Client N)
      → c.pid_resolved ≡ true
      → ((after_all calls c).pid_resolved ≡ true) × ((after_all calls c).pid ≡ c.pid)
  unfolding after_all
  after_all-pid [] c resolved = (resolved, refl)
  after_all-pid (call ∷ calls) c resolved =
      let (same, p) = after-SameId call c resolved in
      let (r', p') = after_all-pid calls (after call c) (same ∙ resolved) in (r', p' ∙ p)
