-- ===== src/Server/Routes/Access.antt =====
-- Who may do what at the routes of tests/fake_matterbeam/server.py.
use dlt_matterbeam.Prelude.{
  ℕ, String, ◌≡◌, refl, sym, ap, ◌∙◌, ◌⊎◌, Bool, false, none, some, List, [], ◌∷◌, ◌==◌, inl, inr,
  Option-cases, eq_refl,
}
use dlt_matterbeam.Json.{str}
use dlt_matterbeam.Transport.Http.{
  Method, get, post, put, patch, Body, empty, json, lines, bytes, Request, Response,
}
use dlt_matterbeam.Server.{Server, Knobs, Fault, fault, no_such_key}
use dlt_matterbeam.Server.Build.{receive_upload}
use dlt_matterbeam.Server.Routes.{Draws, is_authorized, unauthenticated, reply, replied}
use dlt_matterbeam.Server.Routes.Handler.{handle, put_routes, put_upload, answered_key}

-- the one route that asks for no token
abbrev pub is_upload : Method → List String → Bool
is_upload put (a ∷ b ∷ []) = a == "uploads"
is_upload _ _ = false

Method-cases : (m : Method) → (m ≡ get) ⊎ ((m ≡ post) ⊎ ((m ≡ put) ⊎ (m ≡ patch)))
Method-cases get = inl refl
Method-cases post = inr (inl refl)
Method-cases put = inr (inr (inl refl))
Method-cases patch = inr (inr (inr refl))

-- an upload of a body under a token
abbrev pub upload : String → Body → Request → Request
upload upload_token body r = record r {
  method = put;
  path = "uploads" ∷ upload_token ∷ [];
  body = body;
}

abbrev uploaded : String → Response
uploaded pid = reply 200 (("status", str "ok") ∷ ("pid", str pid) ∷ [])

receive_absent :
    (upload_token : String) (content : List ℕ) (s : Server)
    → s.pending_uploads upload_token ≡ none
    → receive_upload upload_token content s ≡ (fault (no_such_key upload_token), s)
unfolding receive_upload
receive_absent upload_token content s absent = rw (receive_upload, absent) refl

receive_upload-used :
    (upload_token path : String) (content : List ℕ) (s : Server)
    → let x = answered_key path (replied uploaded (receive_upload upload_token content s)) in
      x.1.pending_uploads upload_token ≡ none
unfolding receive_upload
receive_upload-used upload_token path content s =
    elim (Option-cases (s.pending_uploads upload_token)) [
      | inl absent ↦ rw (receive_upload, absent, absent) refl
      | inr ((pid, key), given) ↦ rw (receive_upload, given, eq_refl upload_token) refl
    ]

module _ (knobs : Knobs) (repr : Fault → String) (host : String) (d : Draws) where
  put_unauthorized :
      (path : List String) (r : Request) (s : Server)
      → is_authorized r ≡ false
      → is_upload put path ≡ false
      → put_routes knobs repr host d path r s ≡ (some unauthenticated, s)
  unfolding put_routes
  put_unauthorized [] r s no_token other = rw (no_token) refl
  put_unauthorized (a ∷ []) r s no_token other = rw (no_token) refl
  put_unauthorized (a ∷ b ∷ []) r s no_token other = rw (other, no_token) refl
  put_unauthorized (a ∷ b ∷ c ∷ []) r s no_token other = rw (no_token) refl
  put_unauthorized (a ∷ b ∷ c ∷ e ∷ path) r s no_token other = rw (no_token) refl

  upload_unknown :
      (upload_token : String) (body : Body) (path : String) (s : Server)
      → s.pending_uploads upload_token ≡ none
      → (answered_key path (put_upload knobs repr host d upload_token body s)).1 ≡ s
  upload_unknown upload_token (bytes content) path s absent =
      ap (λ x. (answered_key path (replied uploaded x)).1)
        (receive_absent upload_token content s absent)
  upload_unknown upload_token empty path s absent = refl
  upload_unknown upload_token (json j) path s absent = refl
  upload_unknown upload_token (lines rows) path s absent = refl

  unauthorized :
      (r : Request) (s : Server)
      → is_authorized r ≡ false
      → is_upload r.method r.path ≡ false
      → handle knobs repr host d r s ≡ (some unauthenticated, s)
  unfolding handle
  unauthorized r s no_token other = elim (Method-cases r.method) [
    | inl e ↦ rw (e, no_token) refl
    | inr (inl e) ↦ rw (e, no_token) refl
    | inr (inr (inl e)) ↦ rw (e) (
        put_unauthorized r.path (record r { method = put }) s no_token
          (ap (λ m. is_upload m r.path) (sym e) ∙ other))
    | inr (inr (inr e)) ↦ rw (e, no_token) refl
  ]

  unknown_upload :
      (r : Request) (upload_token : String) (body : Body) (s : Server)
      → s.pending_uploads upload_token ≡ none
      → (handle knobs repr host d (upload upload_token body r) s).1 ≡ s
  unfolding handle put_routes
  unknown_upload r upload_token body s absent = upload_unknown upload_token body _ s absent

  used_upload :
      (r : Request) (upload_token : String) (content : List ℕ) (s : Server)
      → let x = handle knobs repr host d (upload upload_token (bytes content) r) s in
        x.1.pending_uploads upload_token ≡ none
  unfolding handle put_routes
  used_upload r upload_token content s = receive_upload-used upload_token _ content s

module _ (knobs : Knobs) (repr : Fault → String) (host : String) (d d' : Draws) where
  -- A request without the account's token is refused with 401 and changes nothing, whatever it asks
  -- for, but for an upload. An upload under a token that the server did not give out changes nothing
  -- either, and nor does a second upload, of whatever body, under a token that bytes were uploaded
  -- under just before.
  pub handle_access :
      (r u u' : Request) (s : Server) (unknown given : String) (content : List ℕ) (body : Body)
      → is_authorized r ≡ false
      → is_upload r.method r.path ≡ false
      → s.pending_uploads unknown ≡ none
      → let s₁ = (handle knobs repr host d (upload given (bytes content) u) s).1 in
        (handle knobs repr host d r s ≡ (some unauthenticated, s))
        × ((handle knobs repr host d (upload unknown body u) s).1 ≡ s)
        × ((handle knobs repr host d' (upload given body u') s₁).1 ≡ s₁)
  handle_access r u u' s unknown given content body no_token other absent = (
    unauthorized knobs repr host d r s no_token other,
    unknown_upload knobs repr host d u unknown body s absent,
    unknown_upload knobs repr host d' u' given body _
        (used_upload knobs repr host d u given content s),
  )
