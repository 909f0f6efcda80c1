-- ===== src/Deploy/Order/Deployment.antt =====
-- The order of all the requests of `deploy` of src/dlt_matterbeam/deploy.py.
use mathlib.Core.Path.{subst}
use dlt_matterbeam.Prelude.{ℕ, String, ◌≡◌, refl, sym, inl, inr, Option, List, [], Bool-cases}
use dlt_matterbeam.Exec.{Result, ok, err}
use dlt_matterbeam.Action.{Action, continue}
use dlt_matterbeam.Transport.Http.{Request, Response, Net, text_of, subscript}
use dlt_matterbeam.Deploy.Secrets.{SecretItem}
use dlt_matterbeam.Deploy.{
  CollectorDeployInfo, BuiltPackage, register_hosted_pid, deploy_as, deploy_to, deploy,
  DeployResult, has_url, url_text,
}
use dlt_matterbeam.Deploy.Order.{
  Exchange, logged, Ready, InOrder, log, Post, continue-InOrder, lift-Post,
}
use dlt_matterbeam.Deploy.Order.Calls.{
  register-Post, submit-Post, create-Post, upload-Post, trigger-InOrder, polled-InOrder, finished,
}

module _ {P : Type 0} (respond : Request → P → Response × P) (recovered : Result (List SecretItem))
    (build_package : Result BuiltPackage) (info : CollectorDeployInfo) (max_attempts : ℕ) where
  abbrev token : Option String
  token = info.api_token

  abbrev as_pid : Option String → Action (Net (P × List Exchange)) DeployResult
  as_pid = deploy_as (logged respond) (ok info) recovered build_package info max_attempts

  deploy_as-InOrder :
      (p : Option String) (n : Net (P × List Exchange))
      → Ready token (text_of p) 1 (log token (text_of p) n)
      → InOrder token (text_of p) (log token (text_of p) (as_pid p n).1)
  unfolding deploy_as
  deploy_as-InOrder p n h =
      continue-InOrder token (text_of p) 1 recovered _ n
        (lift-Post token (text_of p) 1 recovered n h)
        λ secrets n1 h1.
          continue-InOrder token (text_of p) 2 _ _ _
            (submit-Post token (text_of p) respond p _ n1 refl h1)
            λ _ n2 h2.
              continue-InOrder token (text_of p) 2 build_package _ n2
                (lift-Post token (text_of p) 2 build_package n2 h2)
                λ built n3 h3.
                  continue-InOrder token (text_of p) 3 _ _ _
                    (create-Post token (text_of p) respond p _ n3 refl h3)
                    λ upload n4 h4.
                      continue-InOrder token (text_of p) 3 (subscript upload "upload_url") _ n4
                        (lift-Post token (text_of p) 3 (subscript upload "upload_url") n4 h4)
                        λ url n5 h5.
                          continue-InOrder token (text_of p) 3 (url_text (logged respond) token url)
                            _ n5
                            (lift-Post token (text_of p) 3 (url_text (logged respond) token url) n5
                              h5)
                            λ upload_url n6 h6.
                              continue-InOrder token (text_of p) 4 _ _ _
                                (upload-Post token (text_of p) respond upload_url built.content n6
                                  h6)
                                λ _ n7 h7.
                                  trigger-InOrder token (text_of p) respond p _ n7 refl h7
                                    (λ n8 h8. h8)
                                    (λ n8 h8. finished token (text_of p) respond _ _ _ (
                                      polled-InOrder token (text_of p) respond p max_attempts n8
                                        refl h8))

  -- the process of a deployment is the one that the registration gave
  registered-InOrder :
      (r : Result (Option String)) (n : Net (P × List Exchange))
      → ((pid : String) → Post token pid 1 r n)
      → (pid : String) × InOrder token pid (log token pid (continue r as_pid n).1)
  unfolding Post
  registered-InOrder (ok p) n h = (text_of p, deploy_as-InOrder p n (h (text_of p)))
  registered-InOrder (err e) n h = ("", h "")

  -- Whatever the server answers, and however a deployment ends, its requests are the first ones of
  -- this order: the registration, the secrets, which may be left out, the upload URL, the upload, the
  -- build, and then any number of polls. All but the last were answered below 400. They are for one
  -- process and carry the token, except for the upload, which has no authorization.
  pub deploy-InOrder :
      (n : Net (P × List Exchange))
      → n.peer.1 ≡ []
      → (pid : String) × InOrder token pid
          (deploy (logged respond) (ok info) recovered build_package max_attempts n).1.peer.1
  unfolding deploy deploy_to
  deploy-InOrder n fresh = elim (Bool-cases (has_url info.matterbeam_url)) [
    | inl given ↦
        let m = register_hosted_pid (logged respond) token info.pipeline_name info.dataset_name n in
        rw (given) (
          registered-InOrder m.0 m.1 λ pid.
            register-Post token pid respond info.pipeline_name info.dataset_name n
              (subst (Ready token pid 0) (sym fresh) refl))
    | inr no_url ↦ rw (no_url) ("", subst (InOrder token "") (sym fresh) tt)
  ]
