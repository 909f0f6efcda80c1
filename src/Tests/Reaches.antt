-- ===== src/Tests/Reaches.antt =====
-- A server that has registered a process and ingested a chunk of it.
use Prim.Native.String.{◌++◌ as str_append}
use dlt_matterbeam.Prelude.{◌≡◌, true, some, [], ◌∷◌}
use dlt_matterbeam.Json.{str, object}
use dlt_matterbeam.Transport.Http.{Request, post, json, lines, registration, chunk_headers}
use dlt_matterbeam.Server.{Server, IngestResult, done, init}
use dlt_matterbeam.Server.Lock.Frees.{AllFree}
use dlt_matterbeam.Server.Ingest.{Call, Moment, ingest, ledger_key, count_duplicate}
use dlt_matterbeam.Server.Routes.{token}
use dlt_matterbeam.Server.Routes.Handler.{handle}
use dlt_matterbeam.Server.Routes.Reachable.{started, served, Reachable-IsSound}
use dlt_matterbeam.Tests.Stacks.{knobs, repr, draws, full}

abbrev registers : Request
registers = record {
  method = post;
  path = "collectors" ∷ [];
  authorization = str_append "Token " token;
  headers = [];
  body = json (registration "external_dlt" "pipe" "data");
}

abbrev ingests : Request
ingests = record registers {
  path = "collectors" ∷ "p9" ∷ "ingest" ∷ "users:bulk" ∷ [];
  headers = chunk_headers full;
  body = lines ((("v", object (("id", str "1") ∷ [])) ∷ ("i", str "r1") ∷ []) ∷ []);
}

abbrev registered : Server
registered = (handle knobs repr "host" (draws 0) registers init).1

abbrev ingested : Server
ingested = (handle knobs repr "host" (draws 1) ingests registered).1

Reachable-IsSound_example :
    AllFree ingested
    × ((c : Call) (m : Moment)
        → ingested.ledger (ledger_key c) ≡ true
        → (r : IngestResult) × (ingested.ledger_results (ledger_key c) ≡ some r)
          × (ingest knobs c m ingested
              ≡ (done (record r { duplicate = true }), count_duplicate ingested)))
Reachable-IsSound_example =
    Reachable-IsSound knobs repr "host" ingested
      (served (draws 1) ingests (served (draws 0) registers started))
