-- ===== src/Server/Build.antt =====
-- Uploads and builds of tests/fake_matterbeam/server.py. A token is drawn by the caller.
use Prim.Native.String.{◌++◌ as str_append}
use dlt_matterbeam.Prelude.{ℕ, String, Option, none, some, List, ◌==◌, Dict, update, if◌then◌else◌}
use dlt_matterbeam.Server.{Server, Outcome, done, fault, no_such_key}
use dlt_matterbeam.Server.Lock.{set_item}

pub record UploadUrl : Type 0 where
  pub upload_url : String
  pub key : String

pub record BuildStatus : Type 0 where
  pub build_status : String
  pub build_error : Option String
  pub current_package_hash : Option String
  pub installed_packages : Dict String

unfoldable pub deployment_key : String → String → String
deployment_key pid filename =
    str_append "deployments/dlt/" (str_append pid (str_append "/" filename))

unfoldable pub create_upload_url :
    String → String → String → String → Server → Outcome UploadUrl × Server
create_upload_url pid filename host token s = elim (s.pids pid) [
  | none ↦ (fault (no_such_key pid), s)
  | some item ↦ (
    done (record {
      upload_url = str_append "http://" (str_append host (str_append "/uploads/" token));
      key = deployment_key pid filename;
    }),
    record s {
      pending_uploads = update token (some (pid, deployment_key pid filename)) s.pending_uploads;
    },
  )
]

unfoldable pub receive_upload : String → List ℕ → Server → Outcome String × Server
receive_upload token content s = elim (s.pending_uploads token) [
  | none ↦ (fault (no_such_key token), s)
  | some (pid, key) ↦ (
    done pid,
    record s {
      pending_uploads = update token none s.pending_uploads;
      uploaded_packages = update pid (some content) s.uploaded_packages;
    },
  )
]

unfoldable pub trigger_build : String → Server → Outcome (Unit {0}) × Server
trigger_build pid s = elim (s.pids pid) [
  | none ↦ (fault (no_such_key pid), s)
  | some item ↦
      (done tt, set_item pid (record item { build_status = some "building"; build_error = "" }) s)
]

abbrev pub error_of : String → Option String
error_of e = if e == "" then none else some e

abbrev pub status_of : Option String → String
status_of none = "never_built"
status_of (some st) = st

unfoldable pub get_build_status : String → Server → Outcome BuildStatus × Server
get_build_status pid s = elim (s.pids pid) [
  | none ↦ (fault (no_such_key pid), s)
  | some item ↦ (
    done (record {
      build_status = status_of item.build_status;
      build_error = error_of item.build_error;
      current_package_hash = item.current_package_hash;
      installed_packages = item.installed_packages;
    }),
    s,
  )
]
