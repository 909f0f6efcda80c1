-- ===== src/Server/Routes/Kept.antt =====
-- A property of the server, over every operation and every request of tests/fake_matterbeam/server.py.
use dlt_matterbeam.Prelude.{
  ℕ, String, ◌≡◌, refl, Bool, true, false, ◌&&◌, Option, none, some, List, [], ◌∷◌, Dict, ◌==◌,
  lookup, if◌then◌else◌,
}
use dlt_matterbeam.Json.{Json, str}
use dlt_matterbeam.Transport.Http.{Method, get, post, put, patch, Body, Request, Response}
use dlt_matterbeam.Server.{
  Server, Knobs, Outcome, done, fault, Fault, contention, terminal, no_such_key, malformed,
  chaos_crash,
}
use dlt_matterbeam.Server.Registry
use dlt_matterbeam.Server.Build
use dlt_matterbeam.Server.State
use dlt_matterbeam.Server.Ingest
use dlt_matterbeam.Server.Ingest.{Call, Moment}
use dlt_matterbeam.Server.Routes.{
  Draws, on, replied, payload, required, text_or, dataset_of, filename_of, secrets_of, lines_of,
  status_reply, reply, is_authorized, bulk_table, path_text,
}
use dlt_matterbeam.Server.Routes.Handler.{
  answered, answered_put, answered_key, missing_route, get_routes, post_collectors, post_upload_url,
  post_ingest, post_build, post_job, ingest_or, post_routes, if_authorized, put_routes,
  patch_routes, handle, bytes_of, value_of,
}

-- a property of the server that each operation keeps
pub record IsKept (knobs : Knobs) (P : Server → Type 0) : Type 0 where
  pub register :
      (key dataset kind pid : String) (s : Server)
      → P s
      → P (Registry.register key dataset kind pid s).1
  pub submit_secrets :
      (pid : String) (secrets : Dict String) (s : Server)
      → P s
      → P (Registry.submit_secrets pid secrets s).1
  pub create_upload_url :
      (pid filename host token : String) (s : Server)
      → P s
      → P (Build.create_upload_url pid filename host token s).1
  pub receive_upload :
      (token : String) (content : List ℕ) (s : Server)
      → P s
      → P (Build.receive_upload token content s).1
  pub trigger_build : (pid : String) (s : Server) → P s → P (Build.trigger_build pid s).1
  pub get_build_status : (pid : String) (s : Server) → P s → P (Build.get_build_status pid s).1
  pub put_dlt_state :
      (pid : String) (doc : Json) (s : Server) → P s → P (State.put_dlt_state knobs pid doc s).1
  pub complete_load :
      (pid load_id : String) (s : Server) → P s → P (State.complete_load pid load_id s)
  pub ingest : (c : Call) (m : Moment) (s : Server) → P s → P (Ingest.ingest knobs c m s).1

module _ (P : Server → Type 0) where
  on-keeps :
      {A : Type 0} (o : Outcome A) (next : A → Server → Outcome Response × Server) (s : Server)
      → P s
      → ((a : A) → P (next a s).1)
      → P (on o next s).1
  on-keeps (done a) next s here after = after a
  on-keeps (fault f) next s here after = here

  replied-keeps :
      {A : Type 0} (f : A → Response) (x : Outcome A × Server) → P x.1 → P (replied f x).1
  replied-keeps f (done a, s) here = here
  replied-keeps f (fault e, s) here = here

  answered-keeps :
      (repr : Fault → String) (x : Outcome Response × Server) → P x.1 → P (answered repr x).1
  answered-keeps repr (done r, s) here = here
  answered-keeps repr (fault contention, s) here = here
  answered-keeps repr (fault (terminal reason), s) here = here
  answered-keeps repr (fault (no_such_key k), s) here = here
  answered-keeps repr (fault (chaos_crash p), s) here = here
  answered-keeps repr (fault malformed, s) here = here

  answered_put-keeps : (x : Outcome Response × Server) → P x.1 → P (answered_put x).1
  answered_put-keeps (done r, s) here = here
  answered_put-keeps (fault contention, s) here = here
  answered_put-keeps (fault (terminal reason), s) here = here
  answered_put-keeps (fault (no_such_key k), s) here = here
  answered_put-keeps (fault (chaos_crash p), s) here = here
  answered_put-keeps (fault malformed, s) here = here

  answered_key-keeps :
      (path : String) (x : Outcome Response × Server) → P x.1 → P (answered_key path x).1
  answered_key-keeps path (done r, s) here = here
  answered_key-keeps path (fault contention, s) here = here
  answered_key-keeps path (fault (terminal reason), s) here = here
  answered_key-keeps path (fault (no_such_key k), s) here = here
  answered_key-keeps path (fault (chaos_crash p), s) here = here
  answered_key-keeps path (fault malformed, s) here = here

  if-keeps : (b : Bool) (x y : Option Response × Server) → P x.1 → P y.1 → P (if b then x else y).1
  if-keeps true x y hx hy = hx
  if-keeps false x y hx hy = hy

module _ (knobs : Knobs) (repr : Fault → String) (host : String) (d : Draws) (P : Server → Type 0)
    (kept : IsKept knobs P) where
  post_collectors-keeps :
      (body : Body) (s : Server) → P s → P (post_collectors knobs repr host d body s).1
  unfolding post_collectors
  post_collectors-keeps body s here = on-keeps P (payload body) _ s here λ p.
      on-keeps P (required "name" (lookup "name" p)) _ s here λ key.
        on-keeps P (dataset_of (lookup "config" p)) _ s here λ dataset.
          on-keeps P (text_or "external_dlt" (lookup "type" p)) _ s here
            λ kind. replied-keeps P _ _ (kept.register key dataset kind d.new_pid s here)

  post_upload_url-keeps :
      (pid : String) (body : Body) (s : Server)
      → P s
      → P (post_upload_url knobs repr host d pid body s).1
  unfolding post_upload_url
  post_upload_url-keeps pid body s here = on-keeps P (payload body) _ s here λ p.
      on-keeps P (filename_of (lookup "filename" p)) _ s here λ filename.
        replied-keeps P _ _ (kept.create_upload_url pid filename host d.upload_token s here)

  post_ingest-keeps :
      (pid table : String) (r : Request) (s : Server)
      → P s
      → P (post_ingest knobs repr host d pid table r s).1
  unfolding post_ingest
  post_ingest-keeps pid table r s here =
      on-keeps P (lines_of r.body) _ s here λ rows. replied-keeps P _ _ (kept.ingest _ _ s here)

  post_build-keeps : (pid : String) (s : Server) → P s → P (post_build knobs repr host d pid s).1
  post_build-keeps pid s here =
      replied-keeps P (λ _. reply 200 (("status", str "building") ∷ [])) (Build.trigger_build pid s)
        (kept.trigger_build pid s here)

  ingest_or-keeps :
      (b : Bool) (pid : String) (table : Option String) (r : Request) (s : Server)
      (next : Option Response × Server)
      → P s
      → P next.1
      → P (ingest_or knobs repr host d b pid table r s next).1
  ingest_or-keeps true pid (some table) r s next here after =
      answered-keeps P repr _ (post_ingest-keeps pid table r s here)
  ingest_or-keeps true pid none r s next here after = after
  ingest_or-keeps false pid table r s next here after = after

  post_routes-keeps :
      (path : List String) (r : Request) (s : Server)
      → P s
      → P (post_routes knobs repr host d path r s).1
  unfolding post_routes
  post_routes-keeps [] r s here = here
  post_routes-keeps (a ∷ []) r s here =
      if-keeps P (a == "collectors") _ _
        (answered-keeps P repr _ (post_collectors-keeps r.body s here)) here
  post_routes-keeps (a ∷ b ∷ []) r s here = here
  post_routes-keeps (a ∷ b ∷ c ∷ []) r s here = here
  post_routes-keeps (a ∷ pid ∷ c ∷ e ∷ []) r s here =
      let missing = missing_route (a ∷ pid ∷ c ∷ e ∷ []) s in
      let upload = answered repr (post_upload_url knobs repr host d pid r.body s) in
      let build = answered repr (post_build knobs repr host d pid s) in
      let job = answered repr (post_job knobs repr host d pid e s) in
      let jobs = if a == "collectors" && c == "job" then job else missing in
      let ingests = a == "collectors" && c == "ingest" in
      let bulk = ingest_or knobs repr host d ingests pid (bulk_table e) r s jobs in
      let builds = if a == "collectors" && c == "deployment" && e == "build" then build else bulk in
      if-keeps P (a == "collectors" && c == "deployment" && e == "upload-url") upload builds
        (answered-keeps P repr (post_upload_url knobs repr host d pid r.body s)
          (post_upload_url-keeps pid r.body s here))
        (if-keeps P (a == "collectors" && c == "deployment" && e == "build") build bulk
          (answered-keeps P repr (post_build knobs repr host d pid s) (post_build-keeps pid s here))
          (ingest_or-keeps ingests pid (bulk_table e) r s jobs here (
            if-keeps P (a == "collectors" && c == "job") job missing
              (kept.complete_load pid e s here) here)))
  post_routes-keeps (a ∷ b ∷ c ∷ e ∷ f ∷ path) r s here = here

  get_routes-keeps : (path : List String) (s : Server) → P s → P (get_routes path s).1
  unfolding get_routes
  get_routes-keeps [] s here = here
  get_routes-keeps (a ∷ []) s here = here
  get_routes-keeps (a ∷ b ∷ []) s here = here
  get_routes-keeps (a ∷ pid ∷ c ∷ []) s here =
      if-keeps P (a == "collectors" && c == "state") _ _ here here
  get_routes-keeps (a ∷ pid ∷ c ∷ e ∷ []) s here =
      if-keeps P (a == "collectors" && c == "deployment" && e == "status")
        (answered_key (path_text (a ∷ pid ∷ c ∷ e ∷ []))
          (replied status_reply (Build.get_build_status pid s)))
        (missing_route (a ∷ pid ∷ c ∷ e ∷ []) s)
        (answered_key-keeps P (path_text (a ∷ pid ∷ c ∷ e ∷ []))
          (replied status_reply (Build.get_build_status pid s))
          (replied-keeps P status_reply (Build.get_build_status pid s)
            (kept.get_build_status pid s here)))
        here
  get_routes-keeps (a ∷ b ∷ c ∷ e ∷ f ∷ path) s here = here

  if_authorized-keeps :
      (r : Request) (s : Server) (go : Option Response × Server)
      → P s
      → P go.1
      → P (if_authorized knobs repr host d r s go).1
  if_authorized-keeps r s go here after = if-keeps P (is_authorized r) _ _ after here

  put_routes-keeps :
      (path : List String) (r : Request) (s : Server)
      → P s
      → P (put_routes knobs repr host d path r s).1
  unfolding put_routes
  put_routes-keeps [] r s here = if_authorized-keeps r s _ here here
  put_routes-keeps (a ∷ []) r s here = if_authorized-keeps r s _ here here
  put_routes-keeps (a ∷ b ∷ []) r s here =
      if-keeps P (a == "uploads") _ _
        (answered_key-keeps P _ _ (
          on-keeps P (bytes_of r.body) _ s here
            λ content. replied-keeps P _ _ (kept.receive_upload b content s here)))
        (if_authorized-keeps r s _ here here)
  put_routes-keeps (a ∷ pid ∷ c ∷ []) r s here = if_authorized-keeps r s _ here (
      if-keeps P (a == "collectors" && c == "state") _ _
        (answered_put-keeps P _ (
          on-keeps P (value_of r.body) _ s here
            λ doc. replied-keeps P _ _ (kept.put_dlt_state pid doc s here)))
        here)
  put_routes-keeps (a ∷ b ∷ c ∷ e ∷ path) r s here = if_authorized-keeps r s _ here here

  patch_routes-keeps :
      (path : List String) (r : Request) (s : Server)
      → P s
      → P (patch_routes knobs repr host d path r s).1
  unfolding patch_routes
  patch_routes-keeps [] r s here = here
  patch_routes-keeps (a ∷ []) r s here = here
  patch_routes-keeps (a ∷ b ∷ []) r s here = here
  patch_routes-keeps (a ∷ pid ∷ c ∷ []) r s here =
      if-keeps P (a == "collectors" && c == "secrets") _ _
        (answered_key-keeps P _ _ (
          on-keeps P (payload r.body) _ s here λ p.
            on-keeps P (secrets_of (lookup "secrets" p)) _ s here
              λ secrets. replied-keeps P _ _ (kept.submit_secrets pid secrets s here)))
        here
  patch_routes-keeps (a ∷ b ∷ c ∷ e ∷ path) r s here = here

  by_method :
      (m : Method) (r : Request) (s : Server)
      → r.method ≡ m
      → P s
      → P (handle knobs repr host d r s).1
  unfolding handle
  by_method get r s e here = rw (e) (
      if_authorized-keeps (record r { method = get }) s (get_routes r.path s) here
        (get_routes-keeps r.path s here))
  by_method post r s e here =
      let r' : Request = record r { method = post } in
      rw (e) (
        if_authorized-keeps r' s (post_routes knobs repr host d r.path r' s) here
          (post_routes-keeps r.path r' s here))
  by_method put r s e here = rw (e) (put_routes-keeps r.path (record r { method = put }) s here)
  by_method patch r s e here =
      let r' : Request = record r { method = patch } in
      rw (e) (
        if_authorized-keeps r' s (patch_routes knobs repr host d r.path r' s) here
          (patch_routes-keeps r.path r' s here))

  -- whatever a request asks for
  pub handle-keeps : (r : Request) (s : Server) → P s → P (handle knobs repr host d r s).1
  handle-keeps r s here = by_method r.method r s refl here
