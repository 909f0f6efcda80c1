-- ===== src/Server/Routes/Deployment/Operations.antt =====
-- The operations of tests/fake_matterbeam/server.py that a deployment calls, at a process that is
-- there.
use dlt_matterbeam.Prelude.{
  ℕ, zero, suc, ◌+◌, String, ◌≡◌, refl, sym, ap, ◌∙◌, none, some, List, [], ◌∷◌, map, Dict, ◌==◌,
  update, Bool-cases, eq_iff, inl, inr,
}
use dlt_matterbeam.Json.{Row, str, from_fields-to_fields, truthy}
use dlt_matterbeam.Transport.Http.{Net}
use dlt_matterbeam.Deploy.{as_json}
use dlt_matterbeam.Server.{Server, Item, done}
use dlt_matterbeam.Server.Lock.{set_item}
use dlt_matterbeam.Server.Build
use dlt_matterbeam.Server.Build.{BuildStatus, deployment_key, status_of, error_of}
use dlt_matterbeam.Server.Routes.{texts, secrets_of, and_text, text_json, filename_of}
use dlt_matterbeam.Server.Routes.Api.{World}
use dlt_matterbeam.Server.Routes.Deployment.{upload_url}

pub texts-as_json : (d : Dict String) → texts (map (λ kv. (kv.0, str kv.1)) d) ≡ done d
texts-as_json [] = refl
texts-as_json ((k, v) ∷ d) = ap (and_text k (str v)) (texts-as_json d)

pub secrets_of-as_json : (d : Dict String) → secrets_of (some (as_json d)) ≡ done d
secrets_of-as_json d =
    ap texts (from_fields-to_fields (map (λ kv. (kv.0, str kv.1)) d)) ∙ texts-as_json d

pub filename_of-str : (filename : String) → filename_of (some (str filename)) ≡ done filename
unfolding truthy
filename_of-str filename = elim (Bool-cases (filename == "")) [
  | inl empty_name ↦ rw (empty_name) (ap done (sym ((eq_iff filename "").0 empty_name)))
  | inr named ↦ rw (named) refl
]

-- the build status of an entry
abbrev pub build_status : Item → BuildStatus
build_status item = record {
  build_status = status_of item.build_status;
  build_error = error_of item.build_error;
  current_package_hash = item.current_package_hash;
  installed_packages = item.installed_packages;
}

-- what a build's status reads as
abbrev pub status_row : Item → Row
status_row item =
    ("build_status", str (status_of item.build_status))
    ∷ ("build_error", text_json (error_of item.build_error))
    ∷ ("current_package_hash", text_json item.current_package_hash)
    ∷ ("installed_packages", as_json item.installed_packages)
    ∷ []

-- the last status of a poll
abbrev pub polled_row : Item → ℕ → Row → Row
polled_row item zero status = status
polled_row item (suc left) status = status_row item

pub polled_row_same :
    (item : Item) (left : ℕ) → polled_row item left (status_row item) ≡ status_row item
polled_row_same item zero = refl
polled_row_same item (suc left) = refl

abbrev pub slept : ℕ → Net World → Net World
slept k n = record n { slept = n.slept + k }

pub get_build_status-there :
    (pid : String) (item : Item) (s : Server)
    → s.pids pid ≡ some item
    → Build.get_build_status pid s ≡ (done (build_status item), s)
unfolding Build.get_build_status
get_build_status-there pid item s there = rw (Build.get_build_status, there) refl

pub trigger_build-there :
    (pid : String) (item : Item) (s : Server)
    → s.pids pid ≡ some item
    → Build.trigger_build pid s
      ≡ (done tt, set_item pid (record item { build_status = some "building"; build_error = "" }) s)
unfolding Build.trigger_build
trigger_build-there pid item s there = rw (Build.trigger_build, there) refl

-- an upload URL is pending
abbrev pub pending : String → String → String → Server → Server
pending pid filename upload_token s = record s {
  pending_uploads = update upload_token (some (pid, deployment_key pid filename)) s.pending_uploads;
}

pub create_upload_url-there :
    (pid filename host upload_token : String) (item : Item) (s : Server)
    → s.pids pid ≡ some item
    → Build.create_upload_url pid filename host upload_token s ≡ (
      done
          (record { upload_url = upload_url host upload_token; key = deployment_key pid filename }),
      pending pid filename upload_token s,
    )
unfolding Build.create_upload_url
create_upload_url-there pid filename host upload_token item s there =
    rw (Build.create_upload_url, there) refl

-- a package has come in
abbrev pub received : String → String → List ℕ → Server → Server
received pid upload_token content s = record s {
  pending_uploads = update upload_token none s.pending_uploads;
  uploaded_packages = update pid (some content) s.uploaded_packages;
}

pub receive_upload-pending :
    (pid key upload_token : String) (content : List ℕ) (s : Server)
    → s.pending_uploads upload_token ≡ some (pid, key)
    → Build.receive_upload upload_token content s ≡ (done pid, received pid upload_token content s)
unfolding Build.receive_upload
receive_upload-pending pid key upload_token content s there = rw (Build.receive_upload, there) refl
