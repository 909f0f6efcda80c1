-- ===== src/Client.antt =====
-- `MatterbeamJobClient` of src/dlt_matterbeam/client.py, over any transport. What dlt's container and
-- schema say is part of the client's setting.
pub mod Identity
pub mod StateSync
use Prim.Native.String.{◌++◌ as str_append}
use dlt_matterbeam.Prelude.{
  String, Bool, true, false, Option, none, some, List, ◌==◌, Dict, lookup, insert, remove,
  if◌then◌else◌,
}
use dlt_matterbeam.Json.{Json, Row, null, obj, from_fields}
use dlt_matterbeam.Exec
use dlt_matterbeam.Exec.{Result, ok, err, type_error, key_error}
use dlt_matterbeam.Action.{Action, pure, lift, continue, ◌>>=◌, ◌>>◌}
use dlt_matterbeam.LoadJob.{Chunk}
use dlt_matterbeam.Transport.{Transport}
use dlt_matterbeam.Transport.Http.{subscript}

-- what does not change: the dataset and schema names, and the running pipeline's name if one runs
pub record Setting : Type 0 where
  pub dataset_name : String
  pub schema_name : String
  pub active_pipeline : Option String

-- the client's own fields, and the state of what its transport talks to
pub record Client (N : Type 0) : Type 0 where
  pub pid : Option String
  pub pid_resolved : Bool
  pub net : N

abbrev pub init : {N : Type 0} → N → Client N
init n = record { pid = none; pid_resolved = false; net = n }

-- dlt's `StateInfo`
pub record StateInfo : Type 0 where
  pub version : Json
  pub engine_version : Json
  pub pipeline_name : Json
  pub state : Json
  pub created_at : Json
  pub version_hash : Option Json
  pub dlt_load_id : Option Json

module _ {N : Type 0} where
  -- a call of the transport
  abbrev pub on_net : {A : Type 0} → Action N A → Action (Client N) A
  on_net m c = let r = m c.net in (r.0, record c { net = r.1 })

  abbrev pub get_pid : Action (Client N) (Option String)
  get_pid c = (ok c.pid, c)

  abbrev pub set_pid : Option String → Action (Client N) (Unit {0})
  set_pid pid c = (ok tt, record c { pid = pid; pid_resolved = true })

-- `f"schema:{name}"`
abbrev pub or_schema : Option String → String → String
or_schema none schema_name = str_append "schema:" schema_name
or_schema (some p) schema_name = if p == "" then str_append "schema:" schema_name else p

-- `doc["dlt_load_id"] = doc.pop("_dlt_load_id")`, if it is there
unfoldable pub renamed : Row → Row
renamed doc = elim (lookup "_dlt_load_id" doc) [
  | none ↦ doc
  | some v ↦ insert "dlt_load_id" v (remove "_dlt_load_id" doc)
]

-- `dict(row)`; a row is an object
abbrev pub as_dict : Json → Result Row
as_dict (obj fs) = ok (from_fields fs)
as_dict _ = err type_error

abbrev pub field_of : Row → String → Result Json
field_of doc k = elim (lookup k doc) [ none ↦ err (key_error k) | some v ↦ ok v ]

abbrev pub read_state : Row → Result StateInfo
read_state doc = Exec.◌>>=◌ (field_of doc "version") λ version.
    Exec.◌>>=◌ (field_of doc "engine_version") λ engine_version.
      Exec.◌>>=◌ (field_of doc "pipeline_name") λ pipeline_name.
        Exec.◌>>=◌ (field_of doc "state") λ state.
          Exec.◌>>=◌ (field_of doc "created_at") λ created_at. ok (record {
            version = version;
            engine_version = engine_version;
            pipeline_name = pipeline_name;
            state = state;
            created_at = created_at;
            version_hash = lookup "version_hash" doc;
            dlt_load_id = lookup "dlt_load_id" doc;
          })

unfoldable pub state_info : Option Json → Result (Option StateInfo)
state_info none = ok none
state_info (some doc) =
    Exec.◌>>=◌ (as_dict doc) λ fields. Exec.◌>>=◌ (read_state fields) λ info. ok (some info)

-- dlt's state table is diverted, every other table is loaded
pub data LoadJobKind : Type 0 where
  state_job load_job : LoadJobKind

unfoldable pub create_load_job : String → LoadJobKind
create_load_job table_name = if table_name == "_dlt_pipeline_state" then state_job else load_job

module _ {N : Type 0} (t : Transport N) (setting : Setting) where
  unfoldable pub ensure_pid : String → Action (Client N) (Option String)
  ensure_pid pipeline_key c =
      if c.pid_resolved
      then (ok c.pid, c)
      else (do pid ← on_net (t.register pipeline_key setting.dataset_name); set_pid pid; pure pid) c

  abbrev pub fallback_key : String
  fallback_key = or_schema setting.active_pipeline setting.schema_name

  unfoldable pub ensure_pid_fallback : Action (Client N) (Option String)
  ensure_pid_fallback c = if c.pid_resolved then (ok c.pid, c) else ensure_pid fallback_key c

  unfoldable pub send_chunk : Chunk → Action (Client N) (Option String)
  send_chunk chunk = do ensure_pid_fallback; pid ← get_pid; on_net (t.send_chunk chunk pid)

  abbrev pub put_to : Row → Option String → Action (Client N) (Unit {0})
  put_to doc none = pure tt
  put_to doc (some pid) = on_net (t.put_dlt_state pid (renamed doc))

  unfoldable pub put_dlt_state : Row → Action (Client N) (Unit {0})
  put_dlt_state row = do ensure_pid_fallback; pid ← get_pid; put_to row pid

  unfoldable pub complete_load : String → Action (Client N) (Unit {0})
  complete_load load_id = do
    ensure_pid_fallback
    pid ← get_pid
    on_net (t.complete_load load_id pid)

  abbrev pub get_from : Option String → Action (Client N) (Option StateInfo)
  get_from none = pure none
  get_from (some pid) = do doc ← on_net (t.get_dlt_state pid); lift (state_info doc)

  unfoldable pub get_stored_state : String → Action (Client N) (Option StateInfo)
  get_stored_state pipeline_name = do ensure_pid pipeline_name; pid ← get_pid; get_from pid
