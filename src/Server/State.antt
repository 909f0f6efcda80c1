-- ===== src/Server/State.antt =====
-- dlt's state and the close of a load, of tests/fake_matterbeam/server.py.
pub mod Pushes
use dlt_matterbeam.Prelude.{
  String, Bool, true, false, not, Option, none, some, update, lookup, is_empty, if◌then◌else◌,
}
use dlt_matterbeam.Json.{Json, obj, from_fields, truthy, as_doc}
use dlt_matterbeam.Exec
use dlt_matterbeam.Envelope.Sort.{py_lt}
use dlt_matterbeam.Server.{Server, Knobs, ProcessState, Outcome, done, fault, terminal, malformed}
use dlt_matterbeam.Server.Lock.{with_lock}

abbrev pub set_process : String → ProcessState → Server → Server
set_process pid p s = record s { process_state = update pid p s.process_state }

abbrev pub set_dlt_state : String → Json → Server → Server
set_dlt_state pid doc s = set_process pid (record (s.process_state pid) { dlt_state = doc }) s

-- `doc["version"]`, where there is one
abbrev pub version_of : Json → Option Json
version_of (obj fs) = lookup "version" (from_fields fs)
version_of _ = none

-- `doc["version"] <= previous["version"]`; a version that is missing or no number raises
abbrev pub is_stale : Option Json → Option Json → Outcome Bool
is_stale (some version) (some before) = elim (py_lt before version) [
  | Exec.ok newer ↦ done (not newer)
  | Exec.err e ↦ fault malformed
]
is_stale _ _ = fault malformed

abbrev pub store_unless : String → Json → Outcome Bool → Server → Outcome (Unit {0}) × Server
store_unless pid doc (done true) s = (fault (terminal "stale_state_version"), s)
store_unless pid doc (done false) s = (done tt, set_dlt_state pid doc s)
store_unless pid doc (fault f) s = (fault f, s)

-- `previous and doc["version"] <= previous["version"]`
abbrev pub staleness : Json → Json → Outcome Bool
staleness doc previous =
    if truthy previous then is_stale (version_of doc) (version_of previous) else done false

unfoldable pub write_state : String → Json → Server → Outcome (Unit {0}) × Server
write_state pid doc s = store_unless pid doc (staleness doc (s.process_state pid).dlt_state) s

unfoldable pub put_dlt_state : Knobs → String → Json → Server → Outcome (Unit {0}) × Server
put_dlt_state knobs pid doc = with_lock knobs pid (write_state pid doc)

unfoldable pub get_dlt_state : String → Server → Option Json
get_dlt_state pid s = as_doc (s.process_state pid).dlt_state

unfoldable pub complete_load : String → String → Server → Server
complete_load pid load_id s = record s {
  closed_loads = update pid (update load_id true (s.closed_loads pid)) s.closed_loads;
}
