-- ===== src/Tests/Deploys.antt =====
-- The deployment's theorems at a small directory, a short trace, a build that takes two polls, and a
-- whole deployment.
use dlt_matterbeam.Prelude.{
  ℕ, zero, suc, ◌+◌, String, refl, length, ◌≡◌, true, Option, some, List, [], ◌∷◌, ◌++◌, map,
  filter, any, All,
}
use dlt_matterbeam.Json.{Row, str, object}
use dlt_matterbeam.Exec.{ok}
use dlt_matterbeam.Deploy.Files.{Entries, end, file, directory, iter_package_files}
use dlt_matterbeam.Deploy.Files.Kept.{iter_package_files-filter, is_wanted, all_files, all_nested}
use dlt_matterbeam.Deploy.Secrets.{Resolved, recover_secrets, recover_from}
use dlt_matterbeam.Deploy.Secrets.Names.{Distinct, is_of, recover_secrets_lem}
use dlt_matterbeam.Transport.Http.{Request, Response, Net}
use dlt_matterbeam.Deploy.{
  CollectorDeployInfo, BuiltPackage, deploy, deploy_to, deploy_as, register_hosted_pid,
  submit_secrets, create_upload_url, upload_package, trigger_build, get_build_status, checked,
  raise_for_status, secret_fields,
}
use dlt_matterbeam.Deploy.Order.{Exchange, logged, InOrder}
use dlt_matterbeam.Deploy.Order.Deployment.{deploy-InOrder}
use dlt_matterbeam.Deploy.Poll.{poll_build_status, poll_from, is_terminal}
use dlt_matterbeam.Deploy.Poll.Bounds.{
  Counts, ask, update_seen, wait, after, Stopped, poll_build_status_stops,
}

abbrev tree : Entries
tree = file "main.py" (
    file "secrets.toml"
      (directory ".venv" (file "x.py" end) (directory "src" (file "y.py" end) end)))

iter_package_files-filter_example :
    iter_package_files tree ≡ filter is_wanted (all_files tree ++ all_nested tree)
iter_package_files-filter_example = iter_package_files-filter tree

abbrev resolved : List String → String → Resolved
resolved sections key = record { key = key; sections = sections; is_secret_hint = true }

abbrev trace : List Resolved
trace =
    resolved ("sources" ∷ []) "password"
    ∷ resolved ("destination" ∷ "matterbeam" ∷ []) "api_token"
    ∷ resolved ("sources" ∷ []) "password"
    ∷ []

abbrev key_of : String → List String → String
key_of key sections = key

abbrev found : String → Option String
found key = some "hidden"

recover_secrets_lem_example :
    Distinct (map (λ i. i.key) (recover_secrets key_of key_of found trace))
    × All
        (λ i. any (is_of key_of key_of found i) trace ≡ true)
        (recover_secrets key_of key_of found trace)
recover_secrets_lem_example = recover_secrets_lem key_of key_of found trace

abbrev replies : ℕ → Row
replies zero = ("build_status", str "building") ∷ []
replies (suc n) = ("build_status", str "ready") ∷ []

abbrev start : Counts
start = record { polls = 0; updates = 0; sleeps = 0 }

poll_build_status_stops_example :
    (k : ℕ) × Stopped replies 5 start k
    × (poll_build_status (ask replies) (update_seen replies) (wait replies) 5 start
        ≡ (ok (replies (0 + k)), after replies start k))
poll_build_status_stops_example = poll_build_status_stops replies 4 start

-- a server that has all that a deployment asks for, and a build that is ready at once
abbrev served : Request → Unit {0} → Response × Unit {0}
served r s = (
  record {
    status_code = 200;
    body =
        some (
          object
            (("id", str "p1") ∷ ("upload_url", str "u1") ∷ ("build_status", str "ready") ∷ []));
  },
  s,
)

abbrev info : CollectorDeployInfo
info = record {
  pipeline_name = "orders";
  dataset_name = "shop";
  matterbeam_url = some "https://matterbeam";
  api_token = some "t1";
}

abbrev built : BuiltPackage
built = record { content = 1 ∷ []; content_hash = "abc" }

abbrev fresh_net : Net (Unit {0} × List Exchange)
fresh_net = record { peer = (tt, []); requests = 0; slept = 0 }

deploy-InOrder_example :
    (pid : String) × InOrder
      (some "t1")
      pid
      (deploy
        (logged served)
        (ok info)
        (ok (recover_secrets key_of key_of found trace))
        (ok built)
        5
        fresh_net).1.peer.1
deploy-InOrder_example =
    deploy-InOrder served (ok (recover_secrets key_of key_of found trace)) (ok built) info 5
      fresh_net refl

-- it makes six requests, and the last one is the poll
deploys :
    length
      (deploy
        (logged served)
        (ok info)
        (ok (recover_secrets key_of key_of found trace))
        (ok built)
        5
        fresh_net).1.peer.1
    ≡ 6
unfolding deploy deploy_to deploy_as register_hosted_pid submit_secrets recover_secrets
    create_upload_url upload_package trigger_build get_build_status checked raise_for_status
    poll_build_status poll_from secret_fields recover_from is_terminal
deploys = refl
