-- ===== src/Transport/Resolve.antt =====
-- `resolve_transport` of src/dlt_matterbeam/transport.py. What the installed entry points load is a
-- parameter, by name and in order.
use dlt_matterbeam.Prelude.{
  false, String, ◌≡◌, ◌≢◌, refl, Option, none, some, arith, ◌==◌, eq_iff, Dict, lookup,
  if◌then◌else◌,
}
use dlt_matterbeam.Exec.{Result, ok, err, configuration_error}
use dlt_matterbeam.Configuration.{Configuration, is_given, on_resolved}
use dlt_matterbeam.Transport.Http.{HttpTransport, text_of}

-- the transport chosen; a plugin's is what its factory makes
pub data Chosen (T : Type 0) : Type 0 where
  file : String → Chosen T
  http : String → HttpTransport → Chosen T
  plugin : T → Chosen T

module _ {T : Type 0} (entry_points : Dict (Configuration → Result T)) where
  abbrev pub loaded : Option (Configuration → Result T) → Configuration → Result (Chosen T)
  loaded none c = err configuration_error
  loaded (some factory) c = elim (factory c) [ ok t ↦ ok (plugin t) | err e ↦ err e ]

  unfoldable pub resolve_transport : String → Configuration → Result (Chosen T)
  resolve_transport name c =
      if name == "file"
      then (if c.output_dir == "" then err configuration_error else ok (file c.output_dir))
      else if name == "http"
      then (if is_given c.matterbeam_url
          then ok (
              http (text_of c.matterbeam_url)
                (record { api_token = c.api_token; max_409_retries = 20 }))
          else err configuration_error)
      else loaded (lookup name entry_points) c

  -- the transport of a client whose configuration has been resolved
  abbrev pub resolved : Option String → Configuration → Result (Chosen T)
  resolved beamix_pid c =
      resolve_transport (text_of (on_resolved beamix_pid c).transport) (on_resolved beamix_pid c)

  -- Inside the hosted runtime the transport is the entry point `internal_log` whatever the
  -- configuration asks for, and a configuration error where none is installed. Outside it, a
  -- configuration that names no transport is given HTTP to its URL, never a file, and is refused if
  -- it has no URL.
  pub resolve_transport-on_resolved :
      (pid : String) (c : Configuration)
      → pid ≢ ""
      → (resolved (some pid) c
          ≡ loaded (lookup "internal_log" entry_points) (on_resolved (some pid) c))
        × (resolved none (record c { transport = none }) ≡ (
            if is_given c.matterbeam_url
            then ok (
                http
                  (text_of c.matterbeam_url)
                  (record { api_token = c.api_token; max_409_retries = 20 }))
            else err configuration_error))
  unfolding resolve_transport on_resolved
  resolve_transport-on_resolved pid c hosted =
      let given : (pid == "") ≡ false = ground (arith, eq_iff pid "") in (rw given, refl)
