-- ===== src/Server/Registry.antt =====
-- Registration and secrets of tests/fake_matterbeam/server.py. A new pid is drawn by the caller.
pub mod Adoption
pub mod Secrets
use Prim.Native.Char.{code}
use Prim.Native.String.{◌++◌ as str_append}
use dlt_matterbeam.Prelude.{
  String, Bool, true, false, ◌&&◌, Option, none, some, List, [], ◌∷◌, ◌==◌, Dict, lookup, insert,
  update, nat_beq, if◌then◌else◌,
}
use dlt_matterbeam.Server.{
  Server, Item, Outcome, done, fault, no_such_key, malformed, FsmState, listening, new_process,
}
use dlt_matterbeam.Server.Lock.{set_item}

-- the claim key, `f"{pipeline_key}|{dataset_name}"`
unfoldable pub registry_key : String → String → String
registry_key pipeline_key dataset_name = str_append pipeline_key (str_append "|" dataset_name)

abbrev pub adopted : Item → Item
adopted item = record item { collector_type = "hosted_dlt"; execution = "hosted"; runtime = "ECS" }

-- a hosted deployment takes an external collector over in place
abbrev pub adopt : String → Item → Item
adopt collector_type item =
    if collector_type == "hosted_dlt" && item.collector_type == "external_dlt"
    then adopted item
    else item

unfoldable pub new_item : String → Item
new_item collector_type = record {
  update_version = 1;
  invoke_semaphore = 1;
  fsm_state = listening;
  collector_type = collector_type;
  execution = if collector_type == "hosted_dlt" then "hosted" else "external";
  runtime = if collector_type == "hosted_dlt" then "ECS" else "LAMBDA";
  secret = [];
  writer_seq = 0;
  build_status = none;
  build_error = "";
  current_package_hash = none;
  installed_packages = [];
}

-- the process that the registry names, adopted in place
abbrev pub found_pid : String → String → Option Item → Server → Outcome (String × Bool) × Server
found_pid collector_type pid none s = (fault (no_such_key pid), s)
found_pid collector_type pid (some item) s =
    (done (pid, false), set_item pid (adopt collector_type item) s)

abbrev pub lookup_or_create :
    String → String → String → Option String → Server → Outcome (String × Bool) × Server
lookup_or_create key collector_type new_pid (some pid) s =
    found_pid collector_type pid (s.pids pid) s
lookup_or_create key collector_type new_pid none s = (
  done (new_pid, true),
  record s {
    registry = update key (some new_pid) s.registry;
    pids = update new_pid (some (new_item collector_type)) s.pids;
    process_state = update new_pid (s.process_state new_pid) s.process_state;
  },
)

-- `register`, with the pid that a new process gets; and whether it is new
unfoldable pub register :
    String → String → String → String → Server → Outcome (String × Bool) × Server
register pipeline_key dataset_name collector_type new_pid s =
    let key = registry_key pipeline_key dataset_name in
    lookup_or_create key collector_type new_pid (s.registry key) s

-- `stored[name] = f"encrypted:{value}"` for each secret
abbrev pub encrypt_all : Dict String → Dict String → Dict String
encrypt_all [] stored = stored
encrypt_all ((name, value) ∷ secrets) stored =
    encrypt_all secrets (insert name (str_append "encrypted:" value) stored)

unfoldable pub submit_secrets : String → Dict String → Server → Outcome (Unit {0}) × Server
submit_secrets pid secrets s = elim (s.pids pid) [
  | none ↦ (fault (no_such_key pid), s)
  | some item ↦ (done tt, set_item pid (record item { secret = encrypt_all secrets item.secret }) s)
]

-- `enc[len("encrypted:") :]`, after the check that it starts so
abbrev pub strip_prefix : String → String → Option String
strip_prefix String.[] s = some s
strip_prefix (String.◌∷◌ c p) String.[] = none
strip_prefix (String.◌∷◌ c p) (String.◌∷◌ d s) =
    if nat_beq (code c) (code d) then strip_prefix p s else none

abbrev pub decrypted : Option String → Outcome (Option String)
decrypted none = done none
decrypted (some enc) = elim (strip_prefix "encrypted:" enc) [
  | none ↦ fault malformed
  | some value ↦ done (some value)
]

unfoldable pub decrypt_secret : String → String → Server → Outcome (Option String)
decrypt_secret pid name s = elim (s.pids pid) [
  | none ↦ done none
  | some item ↦ decrypted (lookup name item.secret)
]
