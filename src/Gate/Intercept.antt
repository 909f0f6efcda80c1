-- ===== src/Gate/Intercept.antt =====
-- `_run_intercepted` of src/dlt_matterbeam/gate.py, and what runs a script under it. The script is a
-- parameter, an action on the process: what it patches, what it raises, and what it does to the
-- world outside; `PipelineContext` keeps the pipeline that is active, if dlt's container has one.
pub mod Restored
use dlt_matterbeam.Prelude.{String, Bool, true, false, Option, none, some}
use dlt_matterbeam.Exec.{Error, Result, ok, err}
use dlt_matterbeam.Gate.{
  GateResult, Inspection, no_file, unknown_destination, inactive, pipeline, inspect_destination,
  judged,
}

-- `Pipeline.run`: the one that raises at once, or any other
pub data RunMethod : Type 0 where
  intercepting : RunMethod
  method : String → RunMethod

pub record Pipeline : Type 0 where
  pub pipeline_name : String
  pub dataset_name : String
  pub destination_type : Option String

-- what the interpreter shares with the script, and the world outside it
pub record Process (W : Type 0) : Type 0 where
  pub run : RunMethod
  pub data_dir : Option String
  pub context : Option (Option Pipeline)
  pub world : W

pub data Exception : Type 0 where
  intercepted : Exception
  unknown_destination_module : String → Exception
  gate_failed : Error → Exception
  other : String → Exception

pub data Ran (A : Type 0) : Type 0 where
  returned : A → Ran A
  raised : Exception → Ran A

-- `if PipelineContext in container: container[PipelineContext].deactivate()`
abbrev pub deactivated : Option (Option Pipeline) → Option (Option Pipeline)
deactivated none = none
deactivated (some active) = some none

-- what the context says of the script
abbrev pub inspection_of : Option (Option Pipeline) → Inspection
inspection_of none = inactive
inspection_of (some none) = inactive
inspection_of (some (some p)) = pipeline p.destination_type

-- `except UnknownDestinationModule`
abbrev pub unresolved : Ran GateResult → Ran GateResult
unresolved (raised (unknown_destination_module ex)) =
    returned (inspect_destination (unknown_destination ex))
unresolved r = r

-- what the judgement of a classification raises
abbrev pub gated : Result GateResult → Ran GateResult
gated (ok r) = returned r
gated (err e) = raised (gate_failed e)

abbrev pub gate : Ran GateResult → Ran GateResult
gate (returned r) = gated (judged r)
gate (raised e) = raised e

-- `container[PipelineContext].pipeline()`, which makes a default pipeline where none is active
abbrev pub active_or : Pipeline → Option (Option Pipeline) → Pipeline
active_or default (some (some p)) = p
active_or default _ = default

abbrev pub Call : Type 0 → Type 0 → Type 0
Call W A = Process W → Ran A × Process W

module _ {W : Type 0} where
  -- the process that the script runs in
  abbrev pub patched : String → Process W → Process W
  patched tmp_dir p = record p {
    run = intercepting;
    data_dir = some tmp_dir;
    context = deactivated p.context;
  }

  -- `finally`, with the method and the directory that were there before
  abbrev pub restored : RunMethod → Option String → Process W → Process W
  restored original_run old_data_dir p = record p {
    run = original_run;
    data_dir = old_data_dir;
    context = deactivated p.context;
  }

  -- `except _RunIntercepted: pass`, and the body of the `with`
  abbrev pub then_body : {A : Type 0} → Call W A → Ran (Unit {0}) → Call W A
  then_body body (returned u) p = body p
  then_body body (raised intercepted) p = body p
  then_body body (raised e) p = (raised e, p)

  unfoldable pub run_intercepted : {A : Type 0} → Call W (Unit {0}) → String → Call W A → Call W A
  run_intercepted script tmp_dir body p =
      let ran = script (patched tmp_dir p) in
      let left = then_body body ran.0 ran.1 in (left.0, restored p.run p.data_dir left.1)

  abbrev pub inspect_context : Call W GateResult
  inspect_context p = (returned (inspect_destination (inspection_of p.context)), p)

  -- `inspect_destination`, of a path that is a file or not
  unfoldable pub inspect_script : Bool → String → Call W (Unit {0}) → String → Call W GateResult
  inspect_script false path script tmp_dir p = (returned (inspect_destination (no_file path)), p)
  inspect_script true path script tmp_dir p =
      let x = run_intercepted script tmp_dir inspect_context p in (unresolved x.0, x.1)

  -- `run_gate`, of the script
  unfoldable pub run_gate_script : Bool → String → Call W (Unit {0}) → String → Call W GateResult
  run_gate_script is_file path script tmp_dir p =
      let x = inspect_script is_file path script tmp_dir p in (gate x.0, x.1)

  abbrev pub if_returned : {A B : Type 0} → Ran A → Call W B → Call W B
  if_returned (returned a) next p = next p
  if_returned (raised e) next p = (raised e, p)

  -- `open_collector_pipeline`: the gate, and then the script once more with its pipeline open to a
  -- caller
  unfoldable pub open_collector_pipeline :
      {A : Type 0}
      → Bool
      → String
      → Call W (Unit {0})
      → String
      → Pipeline
      → (Pipeline → Call W A)
      → Call W A
  open_collector_pipeline is_file path script tmp_dir default caller p =
      let x = run_gate_script is_file path script tmp_dir p in
      if_returned x.0 (run_intercepted script tmp_dir (λ q. caller (active_or default q.context) q))
        x.1
