-- ===== src/Deploy.antt =====
-- src/dlt_matterbeam/deploy.py: the calls that a deployment makes, in their order. What answers the
-- requests, what dlt tells of the pipeline, and the files of the package are parameters.
pub mod Poll
pub mod Secrets
pub mod Files
pub mod Package
pub mod Order
use Prim.Native.String.{◌++◌ as str_append}
use dlt_matterbeam.Prelude.{
  ℕ, zero, suc, String, Bool, true, false, Option, none, some, List, [], ◌∷◌, map, ◌==◌, Dict,
  insert, length, is_empty, leb, nat_beq, lookup, if◌then◌else◌,
}
use dlt_matterbeam.Json.{Json, Row, null, str, obj, object, from_fields, truthy}
use dlt_matterbeam.Exec
use dlt_matterbeam.Exec.{Error, Result, ok, err, rejected, deploy_error, type_error}
use dlt_matterbeam.Action.{Action, pure, raise, lift, continue, ◌>>=◌, ◌>>◌}
use dlt_matterbeam.Gate.{Inspection, run_gate}
use dlt_matterbeam.Transport.Http.{
  Method, get, post, put, patch, Body, empty, json, bytes, Request, Response, Net, exchange, sleep,
  subscript, body_json, registration, text_of, as_text,
}
use Poll.{poll_build_status}
use Secrets.{SecretItem}

pub record CollectorDeployInfo : Type 0 where
  pub pipeline_name : String
  pub dataset_name : String
  pub matterbeam_url : Option String
  pub api_token : Option String

pub record BuiltPackage : Type 0 where
  pub content : List ℕ
  pub content_hash : String

pub record DeployResult : Type 0 where
  pub pid : Option String
  pub package_content_hash : String
  pub secret_count : ℕ
  pub build_triggered : Bool
  pub build_status : Option Json
  pub build_error : Option Json
  pub installed_packages : Json

-- `gather_deploy_info`: the gate once more, and then what the pipeline says of itself; a destination
-- without a URL has no configuration
unfoldable pub gather_deploy_info :
    Inspection
    → String
    → String
    → Option (Option String × Option String)
    → Result CollectorDeployInfo
gather_deploy_info inspection pipeline_name dataset_name config =
    Exec.◌>>=◌ (run_gate inspection) λ _. ok (record {
      pipeline_name = pipeline_name;
      dataset_name = dataset_name;
      matterbeam_url = elim config [ none ↦ none | some c ↦ c.0 ];
      api_token = elim config [ none ↦ none | some c ↦ c.1 ];
    })

-- `resolve_standalone_credentials`, given what dlt's configuration and secrets have
unfoldable pub resolve_standalone_credentials :
    Option String → Option String → Result (String × Option String)
resolve_standalone_credentials none api_token = err deploy_error
resolve_standalone_credentials (some matterbeam_url) api_token = ok (matterbeam_url, api_token)

-- `_raise_for_status`
unfoldable pub raise_for_status : Response → Result (Unit {0})
raise_for_status r = if leb 400 r.status_code then err (rejected r.status_code) else ok tt

-- the request of a `DeployClient`, with its token
unfoldable pub deploy_request : Option String → Method → List String → Body → Request
deploy_request api_token m path body = record {
  method = m;
  path = path;
  authorization = str_append "Token " (text_of api_token);
  headers = [];
  body = body;
}

-- `{item.key: item.value for item in secrets}`
unfoldable pub secret_fields : List SecretItem → Dict String → Dict String
secret_fields [] d = d
secret_fields (item ∷ items) d = secret_fields items (insert item.key item.value d)

abbrev pub as_json : Dict String → Json
as_json d = object (map (λ kv. (kv.0, str kv.1)) d)

-- the fields of a reply that is an object
abbrev pub reply_row : Json → Result Row
reply_row (obj fs) = ok (from_fields fs)
reply_row _ = err type_error

module _ {P : Type 0} (respond : Request → P → Response × P) (api_token : Option String) where
  -- a request, its reply checked and read
  unfoldable pub checked : Request → Action (Net P) Response
  checked r = do response ← exchange respond r; lift (raise_for_status response); pure response

  unfoldable pub register_hosted_pid : String → String → Action (Net P) (Option String)
  register_hosted_pid pipeline_key dataset_name = do
    response ← checked (
        deploy_request api_token post ("collectors" ∷ [])
          (json (registration "hosted_dlt" pipeline_key dataset_name)))
    reply ← lift (body_json response)
    id ← lift (subscript reply "id")
    lift (as_text id)

  -- no secrets, no request
  unfoldable pub submit_secrets : Option String → Dict String → Action (Net P) (Unit {0})
  submit_secrets pid [] = pure tt
  submit_secrets pid (secret ∷ secrets) = do
    checked (
        deploy_request api_token patch ("collectors" ∷ text_of pid ∷ "secrets" ∷ [])
          (json (object (("secrets", as_json (secret ∷ secrets)) ∷ []))))
    pure tt

  unfoldable pub create_upload_url : Option String → String → Action (Net P) Json
  create_upload_url pid filename = do
    response ← checked (
        deploy_request api_token post
          ("collectors" ∷ text_of pid ∷ "deployment" ∷ "upload-url" ∷ [])
          (json (object (("filename", str filename) ∷ []))))
    lift (body_json response)

  -- the presigned URL is its own authorization
  unfoldable pub upload_package : String → List ℕ → Action (Net P) (Unit {0})
  upload_package upload_url content = do
    checked (record {
      method = put;
      path = upload_url ∷ [];
      authorization = "";
      headers = ("Content-Type", "application/gzip") ∷ [];
      body = bytes content;
    })
    pure tt

  -- a 501 is no error: the builder is not there yet
  abbrev pub triggered : Response → Action (Net P) Bool
  triggered response =
      if nat_beq response.status_code 501
      then pure false
      else (lift (raise_for_status response) >> pure true)

  unfoldable pub trigger_build : Option String → Action (Net P) Bool
  trigger_build pid = do
    response ← exchange respond (
        deploy_request api_token post ("collectors" ∷ text_of pid ∷ "deployment" ∷ "build" ∷ [])
          empty)
    triggered response

  unfoldable pub get_build_status : Option String → Action (Net P) Row
  get_build_status pid = do
    response ← checked (
        deploy_request api_token get ("collectors" ∷ text_of pid ∷ "deployment" ∷ "status" ∷ [])
          empty)
    reply ← lift (body_json response)
    lift (reply_row reply)

  -- the poll after the trigger, where there is one
  abbrev pub polled : Option String → ℕ → Bool → Action (Net P) Row
  polled pid poll_max_attempts false = pure []
  polled pid poll_max_attempts true =
      poll_build_status (get_build_status pid) (λ _. pure tt) (sleep respond 40) poll_max_attempts

  abbrev pub url_text : Json → Result String
  url_text (str s) = ok s
  url_text _ = err type_error

abbrev pub has_url : Option String → Bool
has_url none = false
has_url (some url) = if url == "" then false else true

-- `value or {}`
abbrev pub or_empty : Option Json → Json
or_empty none = object []
or_empty (some j) = if truthy j then j else object []

abbrev pub result_of : Option String → BuiltPackage → List SecretItem → Bool → Row → DeployResult
result_of pid built secrets build_triggered status = record {
  pid = pid;
  package_content_hash = built.content_hash;
  secret_count = length secrets;
  build_triggered = build_triggered;
  build_status = lookup "build_status" status;
  build_error = lookup "build_error" status;
  installed_packages = or_empty (lookup "installed_packages" status);
}

module _ {P : Type 0} (respond : Request → P → Response × P) (gathered : Result CollectorDeployInfo)
    (recovered : Result (List SecretItem)) (build_package : Result BuiltPackage) where
  -- `deploy`, once it has registered
  unfoldable pub deploy_as : CollectorDeployInfo → ℕ → Option String → Action (Net P) DeployResult
  deploy_as info poll_max_attempts pid = do
    secrets ← lift recovered
    submit_secrets respond info.api_token pid (secret_fields secrets [])
    built ← lift build_package
    upload ← create_upload_url respond info.api_token pid (str_append (text_of pid) ".tar.gz")
    url ← lift (subscript upload "upload_url")
    upload_url ← lift (url_text respond info.api_token url)
    upload_package respond info.api_token upload_url built.content
    build_triggered ← trigger_build respond info.api_token pid
    status ← polled respond info.api_token pid poll_max_attempts build_triggered
    pure (result_of pid built secrets build_triggered status)

  -- `deploy`, once the pipeline's own configuration is known
  unfoldable pub deploy_to : CollectorDeployInfo → ℕ → Action (Net P) DeployResult
  deploy_to info poll_max_attempts = do
    pid ← register_hosted_pid respond info.api_token info.pipeline_name info.dataset_name
    deploy_as info poll_max_attempts pid

  unfoldable pub deploy : ℕ → Action (Net P) DeployResult
  deploy poll_max_attempts = do
    info ← lift gathered
    if has_url info.matterbeam_url then deploy_to info poll_max_attempts else raise deploy_error
