-- ===== src/Tests/Landings.antt =====
-- A deployment of a pipeline that the server knows as external, over the server's routes.
use dlt_matterbeam.Prelude.{◌≡◌, refl, true, false, some, List, [], ◌∷◌, lookup}
use dlt_matterbeam.Json.{Row}
use dlt_matterbeam.Exec.{ok}
use dlt_matterbeam.Deploy.{CollectorDeployInfo, BuiltPackage, result_of, deploy, secret_fields}
use dlt_matterbeam.Deploy.Secrets.{SecretItem}
use dlt_matterbeam.Transport.Http.{Net}
use dlt_matterbeam.Server.{done}
use dlt_matterbeam.Server.Registry
use dlt_matterbeam.Server.Registry.{new_item, decrypt_secret}
use dlt_matterbeam.Server.Routes.{token}
use dlt_matterbeam.Server.Routes.Api.{World}
use dlt_matterbeam.Server.Routes.Deployment.{deploy_peer}
use dlt_matterbeam.Server.Routes.Deployment.Landed.{last_status, IsBuilding, deploy_lands}
use dlt_matterbeam.Tests.Stacks.{knobs, repr, draws, dropped, server, net}

abbrev info : CollectorDeployInfo
info = record {
  pipeline_name = "pipe";
  dataset_name = "data";
  matterbeam_url = some "https://matterbeam";
  api_token = some token;
}

abbrev secrets : List SecretItem
secrets = record { key = "api_key"; value = "old" } ∷ record { key = "api_key"; value = "new" } ∷ []

abbrev built : BuiltPackage
built = record { content = 1 ∷ 2 ∷ []; content_hash = "abc" }

deploy_lands_example :
    (status : Row) × (w : Net World) × (deploy
        (deploy_peer knobs repr "host" draws dropped)
        (ok info)
        (ok secrets)
        (ok built)
        3
        net
      ≡ (ok (result_of (some "p1") built secrets true status), w))
    × (lookup "build_status" status ≡ last_status 3)
    × (w.peer.server.uploaded_packages "p1" ≡ some (1 ∷ 2 ∷ []))
    × IsBuilding "p1" w.peer.server
    × (decrypt_secret "p1" "api_key" w.peer.server ≡ done (some "new"))
unfolding secret_fields server Registry.register Registry.registry_key new_item
deploy_lands_example =
    deploy_lands knobs repr "host" draws dropped info secrets built "p1" "api_key" false
      (Registry.register "pipe" "data" "hosted_dlt" "p9" net.peer.server).1 3 net refl refl refl
