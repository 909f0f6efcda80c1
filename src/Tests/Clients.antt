-- ===== src/Tests/Clients.antt =====
-- The client's theorems over a transport that keeps one state in memory.
use dlt_matterbeam.Prelude.{◌≡◌, refl, true, Option, none, some, [], ◌∷◌, arith, eq_iff}
use dlt_matterbeam.Json.{Json, Row, str, num, object}
use dlt_matterbeam.Json.Int.{pos}
use dlt_matterbeam.Exec.{ok}
use dlt_matterbeam.Action.{pure}
use dlt_matterbeam.LoadJob.{Chunk}
use dlt_matterbeam.Transport.{Transport}
use dlt_matterbeam.Client.{
  Client, Setting, init, send_chunk, put_dlt_state, complete_load, get_stored_state, put_to,
  get_from, on_net,
}
use dlt_matterbeam.Client.Identity.{registering, first_calls}

abbrev found : Option Row → Option Json
found none = none
found (some row) = some (object row)

abbrev memory : Transport (Option Row)
memory = record {
  register = λ pipeline_key dataset_name. pure (some "p1");
  get_dlt_state = λ pid s. (ok (found s), s);
  put_dlt_state = λ pid doc s. (ok tt, some doc);
  send_chunk = λ chunk pid. pure (some "segment");
  complete_load = λ load_id pid. pure tt;
}

abbrev setting : Setting
setting = record { dataset_name = "data"; schema_name = "s"; active_pipeline = some "pipe" }

abbrev known : Client (Option Row)
known = record { pid = some "p1"; pid_resolved = true; net = none }

abbrev row : Row
row =
    ("version", num (pos 3))
    ∷ ("engine_version", num (pos 4))
    ∷ ("pipeline_name", str "pipe")
    ∷ ("state", str "{}")
    ∷ ("created_at", str "now")
    ∷ ("_dlt_load_id", str "l1")
    ∷ []

abbrev chunk : Chunk
chunk = record {
  recordtype_id = "data.users";
  dataset_name = "data";
  table_name = "users";
  rows = [];
  keys = [];
  hard_delete = [];
  load_id = "l1";
  job_id = "j1";
  seq = 0;
}

first_calls_example :
    (send_chunk memory setting chunk (init none)
      ≡ registering memory setting "pipe" (λ pid. on_net (memory.send_chunk chunk pid)) (init none))
    × (put_dlt_state memory setting row (init none)
        ≡ registering memory setting "pipe" (put_to memory setting row) (init none))
    × (complete_load memory setting "l1" (init none)
        ≡ registering memory setting "pipe"
            (λ pid. on_net (memory.complete_load "l1" pid))
            (init none))
    × (get_stored_state memory setting "pipe" (init none)
        ≡ registering memory setting "pipe" (get_from memory setting) (init none))
first_calls_example =
    first_calls memory setting (init none) "pipe" "l1" chunk row refl refl
      λ h. ground (arith, eq_iff "pipe" "")
