-- ===== src/Server.antt =====
-- tests/fake_matterbeam/server.py: `FakeMatterbeamState`, the state of the server that the HTTP
-- transport talks to, and what its operations are made of.
pub mod Segments
pub mod Lock
pub mod Registry
pub mod Build
pub mod Ingest
pub mod State
pub mod Routes
use dlt_matterbeam.Prelude.{ℕ, String, Bool, true, false, Option, none, some, List, [], Dict}
use dlt_matterbeam.Json.{Json, Row, null}

-- what an operation raises: `Contention`, `Terminal`, `_ChaosCrash`, `KeyError`, or anything else
-- that a malformed record causes
pub data Fault : Type 0 where
  contention : Fault
  terminal : String → Fault
  chaos_crash : String → Fault
  no_such_key : String → Fault
  malformed : Fault

pub data Outcome (A : Type 0) : Type 0 where
  done : A → Outcome A
  fault : Fault → Outcome A

pub data FsmState : Type 0 where
  listening running paused : FsmState

-- one entry of `pids`
pub record Item : Type 0 where
  pub update_version : ℕ
  pub invoke_semaphore : ℕ
  pub fsm_state : FsmState
  pub collector_type : String
  pub execution : String
  pub runtime : String
  pub secret : Dict String
  pub writer_seq : ℕ
  pub build_status : Option String
  pub build_error : String
  pub current_package_hash : Option String
  pub installed_packages : Dict String

-- `rt_state`, the state kept of a record type
pub record RtState : Type 0 where
  pub high_water_ms : ℕ
  pub last_record_id : Option ℕ
  pub job_order : List String
  pub stale_resurrections : ℕ

abbrev pub new_rt : RtState
new_rt = record {
  high_water_ms = 0;
  last_record_id = none;
  job_order = [];
  stale_resurrections = 0;
}

-- a state that is missing is the same as one that is null
pub record ProcessState : Type 0 where
  pub dlt_state : Json
  pub recordtypes : String → RtState

abbrev pub new_process : ProcessState
new_process = record { dlt_state = null; recordtypes = λ _. new_rt }

pub record Counters : Type 0 where
  pub lock_contention : ℕ
  pub duplicates : ℕ
  pub inversions : ℕ
  pub record_dedup_hits : ℕ
  pub stale_resurrections : ℕ

pub record IngestResult : Type 0 where
  pub record_count : ℕ
  pub segment_key : Option String
  pub writer_id : ℕ
  pub first_record_id : Option ℕ
  pub last_record_id : Option ℕ
  pub duplicate : Bool

-- one committed segment: its facts, by record id
pub record Segment : Type 0 where
  pub first_id : ℕ
  pub last_id : ℕ
  pub facts : List (ℕ × Row)

-- Dicts and sets are functions; a dict that is read with a default has it everywhere. The directory
-- of segments is a part of the state, by record type and in the order of the commits.
pub record Server : Type 0 where
  pub pids : String → Option Item
  pub registry : String → Option String
  pub pending_uploads : String → Option (String × String)
  pub uploaded_packages : String → Option (List ℕ)
  pub process_state : String → ProcessState
  pub ledger : String → Bool
  pub ledger_results : String → Option IngestResult
  pub dlt_ids_seen : String → String → List String
  pub closed_loads : String → String → Bool
  pub counters : Counters
  pub visibility : String → List String
  pub segments : String → List Segment

-- the environment switches
pub record Knobs : Type 0 where
  pub lock_on : Bool
  pub clamp_on : Bool
  pub dedup_on : Bool

abbrev pub init : Server
init = record {
  pids = λ _. none;
  registry = λ _. none;
  pending_uploads = λ _. none;
  uploaded_packages = λ _. none;
  process_state = λ _. new_process;
  ledger = λ _. false;
  ledger_results = λ _. none;
  dlt_ids_seen = λ _ _. [];
  closed_loads = λ _ _. false;
  counters = record {
    lock_contention = 0;
    duplicates = 0;
    inversions = 0;
    record_dedup_hits = 0;
    stale_resurrections = 0;
  };
  visibility = λ _. [];
  segments = λ _. [];
}
