-- ===== src/Server/Routes/Deployment.antt =====
-- A deployment of src/dlt_matterbeam/deploy.py whose peer is the server of
-- tests/fake_matterbeam/server.py. The path of a URL that the server gave is read off the URL.
pub mod Operations
pub mod Steps
pub mod Polls
pub mod Landed
use Prim.Native.String.{◌++◌ as str_append}
use text.Mathlib.TextLemmas.{append_assoc}
use dlt_matterbeam.Prelude.{
  ℕ, String, ◌≡◌, refl, sym, ap, ◌∙◌, false, Option, none, some, List, [], ◌∷◌, leb,
}
use dlt_matterbeam.Exec.{ok}
use dlt_matterbeam.Transport.Http.{Method, put, Request, Response, Net}
use dlt_matterbeam.Deploy.{checked, raise_for_status}
use dlt_matterbeam.Server.{Server, Knobs, Fault}
use dlt_matterbeam.Server.Registry.{strip_prefix}
use dlt_matterbeam.Server.Registry.Secrets.{strip_prefix-append}
use dlt_matterbeam.Server.Routes.{Draws, token}
use dlt_matterbeam.Server.Routes.Handler.{handle}
use dlt_matterbeam.Server.Routes.Api.{World, serve, after}
use dlt_matterbeam.Server.Routes.Once.{asked}

-- the path of an upload URL of the server at a host
abbrev pub url_path : String → String → List String
url_path host url = elim (strip_prefix (str_append "http://" (str_append host "/uploads/")) url) [
  | none ↦ url ∷ []
  | some upload_token ↦ "uploads" ∷ upload_token ∷ []
]

abbrev pub path_of : String → Method → List String → List String
path_of host put (url ∷ []) = url_path host url
path_of host m path = path

abbrev pub upload_url : String → String → String
upload_url host upload_token =
    str_append "http://" (str_append host (str_append "/uploads/" upload_token))

pub url_path-upload_url :
    (host upload_token : String)
    → url_path host (upload_url host upload_token) ≡ "uploads" ∷ upload_token ∷ []
url_path-upload_url host upload_token =
    let prefix = str_append "http://" (str_append host "/uploads/") in
    let whole : str_append prefix upload_token ≡ upload_url host upload_token =
      append_assoc "http://" (str_append host "/uploads/") upload_token
      ∙ ap (str_append "http://") (append_assoc host "/uploads/" upload_token) in
    ap (λ o. elim o [ none ↦ upload_url host upload_token ∷ [] | some t ↦ "uploads" ∷ t ∷ [] ])
      (ap (strip_prefix prefix) (sym whole) ∙ strip_prefix-append prefix upload_token)

module _ (knobs : Knobs) (repr : Fault → String) (host : String) (draws : ℕ → Draws)
    (dropped : Response) where
  -- the server, of a client that opens its upload URLs
  unfoldable pub deploy_peer : Request → World → Response × World
  deploy_peer r =
      serve knobs repr host draws dropped (record r { path = path_of host r.method r.path })

  abbrev pub handled : Request → World → Option Response × Server
  handled r w =
      handle knobs repr host (draws w.served) (record r { path = path_of host r.method r.path })
        w.server

  pub deploy_peer-handled :
      (r : Request) (w : World) (response : Response) (s : Server)
      → handled r w ≡ (some response, s)
      → deploy_peer r w ≡ (response, after w s)
  unfolding deploy_peer serve
  deploy_peer-handled r w response s at = rw (at) refl

  pub checked-handled :
      (r : Request) (n : Net World) (response : Response) (s : Server)
      → handled r n.peer ≡ (some response, s)
      → leb 400 response.status_code ≡ false
      → checked deploy_peer (some token) r n ≡ (ok response, asked (after n.peer s) n)
  unfolding checked raise_for_status
  checked-handled r n response s at fine =
      rw (deploy_peer-handled r n.peer response s at, fine) refl
