-- ===== src/Server/Routes/Deployment/Landed.antt =====
-- `deploy` of src/dlt_matterbeam/deploy.py against tests/fake_matterbeam/server.py, from end to end.
use Prim.Native.String.{◌++◌ as str_append}
use dlt_matterbeam.Prelude.{
  ℕ, zero, suc, String, ◌≡◌, refl, ap, ◌∙◌, Bool, true, Option, none, some, List, [], Dict, lookup,
  eq_refl,
}
use dlt_matterbeam.Json.{Json, Row, str}
use dlt_matterbeam.Exec.{Result, ok}
use dlt_matterbeam.Transport.Http.{Response, Net}
use dlt_matterbeam.Deploy.Poll.{poll_build_status}
use dlt_matterbeam.Server.{Server, Item, Knobs, Outcome, done, Fault}
use dlt_matterbeam.Server.Lock.{set_item}
use dlt_matterbeam.Server.Registry
use dlt_matterbeam.Server.Registry.{encrypt_all, decrypt_secret}
use dlt_matterbeam.Server.Build.{deployment_key}
use dlt_matterbeam.Server.Routes.{Draws, token}
use dlt_matterbeam.Server.Routes.Api.{World, after}
use dlt_matterbeam.Server.Routes.Once.{asked}
use dlt_matterbeam.Deploy.{
  CollectorDeployInfo, BuiltPackage, result_of, deploy, deploy_to, deploy_as, has_url,
  secret_fields, register_hosted_pid,
}
use dlt_matterbeam.Deploy.Secrets.{SecretItem}
use dlt_matterbeam.Server.Registry.Adoption.{register_again}
use dlt_matterbeam.Server.Registry.Secrets.{last_value, decrypt_secret-encrypt_all}
use dlt_matterbeam.Server.Routes.Deployment.{deploy_peer}
use dlt_matterbeam.Server.Routes.Deployment.Operations.{polled_row, pending, received}
use dlt_matterbeam.Server.Routes.Deployment.Steps.{
  registers, submits, asks_upload_url, uploads, builds,
}
use dlt_matterbeam.Server.Routes.Deployment.Polls.{polls}

-- an entry whose build is on
abbrev pub building : Item → Item
building item = record item { build_status = some "building"; build_error = "" }

-- the build status that the last poll reads
abbrev pub last_status : ℕ → Option Json
last_status zero = none
last_status (suc left) = some (str "building")

-- the build of a process is on
abbrev pub IsBuilding : String → Server → Type 0
IsBuilding pid s = (item : Item) × (s.pids pid ≡ some item) × (item.build_status ≡ some "building")

-- the secret of a name, of those submitted and those that the server had
abbrev pub secret_after : String → String → Dict String → Server → Outcome (Option String)
secret_after pid name secrets s = elim (last_value name secrets) [
  | none ↦ decrypt_secret pid name s
  | some v ↦ done (some v)
]

polled_building :
    (item : Item) (left : ℕ)
    → lookup "build_status" (polled_row (building item) left []) ≡ last_status left
polled_building item zero = refl
polled_building item (suc left) = refl

module _ (knobs : Knobs) (repr : Fault → String) (host : String) (draws : ℕ → Draws)
    (dropped : Response) where
  deploy_as_lands :
      (info : CollectorDeployInfo) (items : List SecretItem) (built : BuiltPackage)
      (pid name : String) (item : Item) (poll_max_attempts : ℕ) (n : Net World)
      → info.api_token ≡ some token
      → n.peer.server.pids pid ≡ some item
      → let peer = deploy_peer knobs repr host draws dropped in
        (status : Row) × (w : Net World) × (deploy_as peer
            (ok info)
            (ok items)
            (ok built)
            info
            poll_max_attempts
            (some pid)
            n
          ≡ (ok (result_of (some pid) built items true status), w))
        × (lookup "build_status" status ≡ last_status poll_max_attempts)
        × (w.peer.server.uploaded_packages pid ≡ some built.content)
        × IsBuilding pid w.peer.server
        × (decrypt_secret pid name w.peer.server
            ≡ secret_after pid name (secret_fields items []) n.peer.server)
  unfolding deploy_as poll_build_status
  deploy_as_lands info items built pid name item k n known there =
      let secrets = secret_fields items [] in
      let filename = str_append pid ".tar.gz" in
      let (n₁, submitted, kept) = submits knobs repr host draws dropped pid secrets item n there in
      let item₁ : Item = record item { secret = encrypt_all secrets item.secret } in
      let upload_token = (draws n₁.peer.served).upload_token in
      let asked_url = asks_upload_url knobs repr host draws dropped pid filename item₁ n₁ kept in
      let n₂ = asked (after n₁.peer (pending pid filename upload_token n₁.peer.server)) n₁ in
      let uploaded =
        uploads knobs repr host draws dropped pid (deployment_key pid filename) upload_token
          built.content n₂ (rw (eq_refl upload_token) refl) in
      let n₃ = asked (after n₂.peer (received pid upload_token built.content n₂.peer.server)) n₂ in
      let built_now = builds knobs repr host draws dropped pid item₁ n₃ kept in
      let item₂ = building item₁ in
      let n₄ = asked (after n₃.peer (set_item pid item₂ n₃.peer.server)) n₃ in
      let here : n₄.peer.server.pids pid ≡ some item₂ = rw (eq_refl pid) refl in
      let (n₅, polled_at, same) = polls knobs repr host draws dropped pid item₂ k [] n₄ here in
      let there₅ : n₅.peer.server.pids pid ≡ some item₂ = ap (λ s. s.pids pid) same ∙ here in
      (
        polled_row item₂ k [],
        n₅,
        rw (known, submitted, asked_url, uploaded, built_now, polled_at) refl,
        polled_building item₁ k,
        ap (λ s. s.uploaded_packages pid) same ∙ rw (eq_refl pid) refl,
        (item₂, there₅, refl),
        decrypt_secret-encrypt_all pid name secrets item item₂ n.peer.server n₅.peer.server there
            there₅ refl,
      )

  deploy-registers :
      (info : CollectorDeployInfo) (recovered : Result (List SecretItem))
      (build_package : Result BuiltPackage) (pid : String) (created : Bool) (s : Server)
      (poll_max_attempts : ℕ) (n : Net World)
      → info.api_token ≡ some token
      → has_url info.matterbeam_url ≡ true
      → Registry.register info.pipeline_name info.dataset_name "hosted_dlt"
          (draws n.peer.served).new_pid
          n.peer.server
        ≡ (done (pid, created), s)
      → let peer = deploy_peer knobs repr host draws dropped in
        deploy peer (ok info) recovered build_package poll_max_attempts n
        ≡ deploy_as peer
            (ok info)
            recovered
            build_package
            info
            poll_max_attempts
            (some pid)
            (asked (after n.peer s) n)
  unfolding deploy deploy_to
  deploy-registers info recovered build_package pid created s k n known has registered_at =
      let peer = deploy_peer knobs repr host draws dropped in
      let registered : register_hosted_pid peer info.api_token info.pipeline_name info.dataset_name
            n
          ≡ (ok (some pid), asked (after n.peer s) n) =
        rw (known) (
          registers knobs repr host draws dropped info.pipeline_name info.dataset_name pid created s
            n registered_at) in
      rw (has, registered) refl

  -- A deployment to the server, where the package can be built, the secrets are recovered, a URL is
  -- configured, the token is the account's and the registration answers with a pid: `deploy` returns
  -- with that pid and reports that the build was triggered and, where it polls at all, is building.
  -- The server then has the package's bytes for that pid and its build as building, and any name
  -- decrypts to the value that was recovered last under it, or else as it did before.
  pub deploy_lands :
      (info : CollectorDeployInfo) (items : List SecretItem) (built : BuiltPackage)
      (pid name : String) (created : Bool) (s : Server) (poll_max_attempts : ℕ) (n : Net World)
      → info.api_token ≡ some token
      → has_url info.matterbeam_url ≡ true
      → Registry.register info.pipeline_name info.dataset_name "hosted_dlt"
          (draws n.peer.served).new_pid
          n.peer.server
        ≡ (done (pid, created), s)
      → let peer = deploy_peer knobs repr host draws dropped in
        (status : Row) × (w : Net World) × (deploy peer
            (ok info)
            (ok items)
            (ok built)
            poll_max_attempts
            n
          ≡ (ok (result_of (some pid) built items true status), w))
        × (lookup "build_status" status ≡ last_status poll_max_attempts)
        × (w.peer.server.uploaded_packages pid ≡ some built.content)
        × IsBuilding pid w.peer.server
        × (decrypt_secret pid name w.peer.server ≡ secret_after pid name (secret_fields items []) s)
  deploy_lands info items built pid name created s k n known has registered_at =
      let (item, there, _) =
        register_again info.pipeline_name info.dataset_name "hosted_dlt" "hosted_dlt"
          (draws n.peer.served).new_pid "" pid created n.peer.server s registered_at in
      let (status, w, went, last, landed, build, secret) =
        deploy_as_lands info items built pid name item k (asked (after n.peer s) n) known there in
      (
        status,
        w,
        deploy-registers info (ok items) (ok built) pid created s k n known has registered_at
            ∙ went,
        last,
        landed,
        build,
        secret,
      )
