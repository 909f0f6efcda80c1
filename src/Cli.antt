-- ===== src/Cli.antt =====
-- src/dlt_matterbeam/cli.py: what the commands print, and which errors they report as their own. A
-- line stands for its text.
use dlt_matterbeam.Prelude.{
  ℕ, String, Bool, false, Option, none, some, List, [], ◌∷◌, ◌++◌, ◌==◌, lookup, length,
  if◌then◌else◌,
}
use dlt_matterbeam.Json.{Json, Row, null, str, obj, from_fields, truthy}
use dlt_matterbeam.Exec.{Result, ok, err, deploy_error, rejected, command_failed}
use dlt_matterbeam.Action.{Action, pure, raise, lift, ◌>>=◌, ◌>>◌}
use dlt_matterbeam.Gate.{Inspection, run_gate}
use dlt_matterbeam.Transport.Http.{Request, Response, Net}
use dlt_matterbeam.Deploy.{
  CollectorDeployInfo, BuiltPackage, DeployResult, deploy, get_build_status,
  resolve_standalone_credentials,
}
use dlt_matterbeam.Deploy.Poll.{poll_build_status}
use dlt_matterbeam.Deploy.Secrets.{SecretItem}

pub data Line : Type 0 where
  recognized : Line
  registered : Option String → Line
  submitted : ℕ → Line
  uploaded : String → Line
  not_triggered : Option String → Line
  building_environment : Line
  build_ready : Option String → Option Json → ℕ → Line
  build_failed : Option String → Option Json → Line
  still_building : Option String → Line
  not_built : Option String → Json → Line
  usage : Line

-- the parsed arguments, and the credentials that the environment has for the status command
pub record Namespace : Type 0 where
  pub matterbeam_command : String
  pub pid : String
  pub matterbeam_url : Option String
  pub api_token : Option String

-- the server, and what was printed
pub record Console (N : Type 0) : Type 0 where
  pub net : N
  pub printed : List Line

-- a `DeployError` becomes an error of the command; any other goes on as it is
abbrev pub reported : {A : Type 0} → Result A → Result A
reported (ok a) = ok a
reported (err deploy_error) = err (command_failed deploy_error)
reported (err (rejected status_code)) = err (command_failed (rejected status_code))
reported (err e) = err e

module _ {N : Type 0} where
  abbrev pub print : Line → Action (Console N) (Unit {0})
  print line c = (ok tt, record c { printed = c.printed ++ line ∷ [] })

  abbrev pub reporting : {A : Type 0} → Action N A → Action (Console N) A
  reporting m c = let r = m c.net in (reported r.0, record c { net = r.1 })

-- `status.get("build_status") or "never_built"`
abbrev pub build_status_of : Option Json → Json
build_status_of none = str "never_built"
build_status_of (some j) = if truthy j then j else str "never_built"

-- `len(status.get("installed_packages") or {})`
abbrev pub package_count : Option Json → ℕ
package_count (some (obj fs)) = length (from_fields fs)
package_count _ = 0

abbrev pub is_text : String → Json → Bool
is_text s (str t) = t == s
is_text s _ = false

-- `_print_build_status`
unfoldable pub build_status_line : Option String → Row → Line
build_status_line pid status =
    let st = build_status_of (lookup "build_status" status) in
    if is_text "ready" st
    then build_ready pid (lookup "current_package_hash" status)
        (package_count (lookup "installed_packages" status))
    else if is_text "failed" st
    then build_failed pid (lookup "build_error" status)
    else if is_text "building" st
    then still_building pid
    else not_built pid st

-- the status that `_deploy` puts together
abbrev pub or_none : Option Json → Json
or_none none = null
or_none (some j) = j

abbrev pub status_of : DeployResult → Row
status_of r =
    ("build_status", or_none r.build_status)
    ∷ ("build_error", or_none r.build_error)
    ∷ ("current_package_hash", str r.package_content_hash)
    ∷ ("installed_packages", r.installed_packages)
    ∷ []

module _ {P : Type 0} (respond : Request → P → Response × P) where
  abbrev report : DeployResult → Action (Console (Net P)) (Unit {0})
  report r =
      if r.build_triggered
      then (print building_environment >> print (build_status_line r.pid (status_of r)))
      else print (not_triggered r.pid)

  -- `_deploy`, at the five attempts of `_DEPLOY_POLL_MAX_ATTEMPTS`
  unfoldable pub deploy_command :
      Inspection
      → Result CollectorDeployInfo
      → Result (List SecretItem)
      → Result BuiltPackage
      → Action (Console (Net P)) (Unit {0})
  deploy_command inspection gathered recovered build_package = elim (run_gate inspection) [
    | err e ↦ raise (command_failed e)
    | ok g ↦ do
      print recognized
      r ← reporting (deploy respond gathered recovered build_package 5)
      print (registered r.pid)
      print (submitted r.secret_count)
      print (uploaded r.package_content_hash)
      report r
  ]

  abbrev pub nothing : Row → Action (Net P) (Unit {0})
  nothing status = pure tt

  -- `_status`: one poll
  unfoldable pub status_command :
      Option String → Option String → String → Action (Console (Net P)) (Unit {0})
  status_command matterbeam_url api_token pid = do
    credentials ← lift (reported (resolve_standalone_credentials matterbeam_url api_token))
    status ←
        reporting (
          poll_build_status (get_build_status respond credentials.1 (some pid)) nothing (pure tt) 1)
    print (build_status_line (some pid) status)

  -- `execute`, of what the parser made of the arguments
  unfoldable pub execute :
      Namespace
      → Inspection
      → Result CollectorDeployInfo
      → Result (List SecretItem)
      → Result BuiltPackage
      → Action (Console (Net P)) (Unit {0})
  execute args inspection gathered recovered build_package =
      if args.matterbeam_command == "deploy"
      then deploy_command inspection gathered recovered build_package
      else if args.matterbeam_command == "status"
      then status_command args.matterbeam_url args.api_token args.pid
      else print usage
