-- ===== src/Server/Routes/Deployment/Steps.antt =====
-- The calls of `DeployClient` in src/dlt_matterbeam/deploy.py, each one request at the server.
use dlt_matterbeam.Prelude.{ℕ, String, ◌≡◌, refl, Bool, true, some, List, [], ◌∷◌, Dict, eq_refl}
use dlt_matterbeam.Json.{str, object}
use dlt_matterbeam.Exec.{ok}
use dlt_matterbeam.Transport.Http.{
  get, post, put, patch, json, bytes, empty, Request, Response, Net, registration,
}
use dlt_matterbeam.Deploy
use dlt_matterbeam.Deploy.{
  checked, raise_for_status, deploy_request, as_json, register_hosted_pid, upload_package,
  create_upload_url, get_build_status,
}
use dlt_matterbeam.Server.{Server, Item, Knobs, done, Fault}
use dlt_matterbeam.Server.Lock.{set_item}
use dlt_matterbeam.Server.Registry
use dlt_matterbeam.Server.Registry.{strip_prefix, encrypt_all}
use dlt_matterbeam.Server.Registry.Secrets.{submit_secrets-there}
use dlt_matterbeam.Server.Build.{deployment_key}
use dlt_matterbeam.Server.Routes.{Draws, token, reply, registered, status_reply, upload_reply}
use dlt_matterbeam.Server.Routes.Handler.{
  handle, post_routes, post_collectors, post_upload_url, put_routes, patch_routes, get_routes,
}
use dlt_matterbeam.Server.Routes.Api.{World, after}
use dlt_matterbeam.Server.Routes.Once.{asked}
use dlt_matterbeam.Server.Routes.Deployment.{
  upload_url, url_path-upload_url, deploy_peer, deploy_peer-handled, checked-handled,
}
use dlt_matterbeam.Server.Routes.Deployment.Operations.{
  secrets_of-as_json, filename_of-str, build_status, status_row, get_build_status-there,
  trigger_build-there, pending, create_upload_url-there, received, receive_upload-pending,
}

module _ (knobs : Knobs) (repr : Fault → String) (host : String) (draws : ℕ → Draws)
    (dropped : Response) where
  abbrev pub peer : Request → World → Response × World
  peer = deploy_peer knobs repr host draws dropped

  pub registers :
      (key dataset pid : String) (created : Bool) (s : Server) (n : Net World)
      → Registry.register key dataset "hosted_dlt" (draws n.peer.served).new_pid n.peer.server
        ≡ (done (pid, created), s)
      → register_hosted_pid peer (some token) key dataset n
        ≡ (ok (some pid), asked (after n.peer s) n)
  unfolding register_hosted_pid handle post_routes post_collectors deploy_request
  registers key dataset pid created s n done_at =
      rw
        (checked-handled knobs repr host draws dropped
          (deploy_request (some token) post ("collectors" ∷ [])
            (json (registration "hosted_dlt" key dataset)))
          n (registered (some (str "hosted_dlt")) key (pid, created)) s (rw (done_at) refl) refl)
        refl

  pub submits :
      (pid : String) (d : Dict String) (item : Item) (n : Net World)
      → n.peer.server.pids pid ≡ some item
      → (w : Net World) × (Deploy.submit_secrets peer (some token) (some pid) d n ≡ (ok tt, w))
        × (w.peer.server.pids pid ≡ some (record item { secret = encrypt_all d item.secret }))
  unfolding Deploy.submit_secrets handle patch_routes deploy_request
  submits pid [] item n there = (n, refl, there)
  submits pid (secret ∷ d) item n there =
      let item' : Item = record item { secret = encrypt_all (secret ∷ d) item.secret } in
      let s = set_item pid item' n.peer.server in
      (
        asked (after n.peer s) n,
        rw
            (checked-handled knobs repr host draws dropped
              (deploy_request (some token) patch ("collectors" ∷ pid ∷ "secrets" ∷ [])
                (json (object (("secrets", as_json (secret ∷ d)) ∷ []))))
              n (reply 200 (("status", str "ok") ∷ [])) s
              (rw
                (
                  secrets_of-as_json (secret ∷ d),
                  submit_secrets-there pid (secret ∷ d) item n.peer.server there,
                )
                refl)
              refl)
            refl,
        rw (eq_refl pid) refl,
      )

  pub asks_upload_url :
      (pid filename : String) (item : Item) (n : Net World)
      → n.peer.server.pids pid ≡ some item
      → let upload_token = (draws n.peer.served).upload_token in
        create_upload_url peer (some token) (some pid) filename n ≡ (
          ok (
              object (
                ("upload_url", str (upload_url host upload_token))
                ∷ ("key", str (deployment_key pid filename))
                ∷ [])),
          asked (after n.peer (pending pid filename upload_token n.peer.server)) n,
        )
  unfolding create_upload_url handle post_routes post_upload_url deploy_request
  asks_upload_url pid filename item n there =
      let upload_token = (draws n.peer.served).upload_token in
      let s = n.peer.server in
      rw
        (checked-handled knobs repr host draws dropped
          (deploy_request (some token) post ("collectors" ∷ pid ∷ "deployment" ∷ "upload-url" ∷ [])
            (json (object (("filename", str filename) ∷ []))))
          n
          (upload_reply (record {
            upload_url = upload_url host upload_token;
            key = deployment_key pid filename;
          }))
          (pending pid filename upload_token s)
          (rw
            (
              filename_of-str filename,
              create_upload_url-there pid filename host upload_token item s there,
            )
            refl)
          refl)
        refl

  pub uploads :
      (pid key upload_token : String) (content : List ℕ) (n : Net World)
      → n.peer.server.pending_uploads upload_token ≡ some (pid, key)
      → upload_package peer (some token) (upload_url host upload_token) content n
        ≡ (ok tt, asked (after n.peer (received pid upload_token content n.peer.server)) n)
  unfolding upload_package handle put_routes
  uploads pid key upload_token content n there =
      rw
        (checked-handled knobs repr host draws dropped
          (record {
            method = put;
            path = upload_url host upload_token ∷ [];
            authorization = "";
            headers = ("Content-Type", "application/gzip") ∷ [];
            body = bytes content;
          })
          n (reply 200 (("status", str "ok") ∷ ("pid", str pid) ∷ []))
          (received pid upload_token content n.peer.server)
          (rw
            (
              url_path-upload_url host upload_token,
              receive_upload-pending pid key upload_token content n.peer.server there,
            )
            refl)
          refl)
        refl

  pub builds :
      (pid : String) (item : Item) (n : Net World)
      → n.peer.server.pids pid ≡ some item
      → let item' : Item = record item { build_status = some "building"; build_error = "" } in
        Deploy.trigger_build peer (some token) (some pid) n
        ≡ (ok true, asked (after n.peer (set_item pid item' n.peer.server)) n)
  unfolding Deploy.trigger_build handle post_routes deploy_request raise_for_status
  builds pid item n there =
      let item' : Item = record item { build_status = some "building"; build_error = "" } in
      rw
        (deploy_peer-handled knobs repr host draws dropped
          (deploy_request (some token) post ("collectors" ∷ pid ∷ "deployment" ∷ "build" ∷ [])
            empty)
          n.peer (reply 200 (("status", str "building") ∷ [])) (set_item pid item' n.peer.server)
          (rw (trigger_build-there pid item n.peer.server there) refl))
        refl

  pub asks_status :
      (pid : String) (item : Item) (n : Net World)
      → n.peer.server.pids pid ≡ some item
      → get_build_status peer (some token) (some pid) n
        ≡ (ok (status_row item), asked (after n.peer n.peer.server) n)
  unfolding get_build_status handle get_routes deploy_request
  asks_status pid item n there =
      rw
        (checked-handled knobs repr host draws dropped
          (deploy_request (some token) get ("collectors" ∷ pid ∷ "deployment" ∷ "status" ∷ [])
            empty)
          n (status_reply (build_status item)) n.peer.server
          (rw (get_build_status-there pid item n.peer.server there) refl) refl)
        refl
