-- ===== src/Gate.antt =====
-- src/dlt_matterbeam/gate.py: what a script resolves to, and whether it may be deployed. The run of
-- the script under dlt is a parameter.
pub mod Intercept
use dlt_matterbeam.Prelude.{
  String, ◌≡◌, ◌≢◌, refl, ap, ◌⊎◌, inl, inr, Option, none, some, arith, ◌==◌, eq_iff, if◌then◌else◌,
  Bool-cases,
}
use dlt_matterbeam.Exec.{Result, ok, err, gate_error}

pub record GateResult : Type 0 where
  pub outcome : String
  pub destination_type : Option String
  pub detail : Option String

abbrev pub matterbeam_destination_type : String
matterbeam_destination_type = "dlt_matterbeam.destinations.matterbeam"

-- what the file system and dlt say of a script: no such file; a destination whose module is not
-- known; no active pipeline after the run; a pipeline and the type of its destination
pub data Inspection : Type 0 where
  no_file : String → Inspection
  unknown_destination : String → Inspection
  inactive : Inspection
  pipeline : Option String → Inspection

abbrev result : String → Option String → Option String → GateResult
result o t d = record { outcome = o; destination_type = t; detail = d }

unfoldable pub inspect_destination : Inspection → GateResult
inspect_destination (no_file path) = result "no_pipeline" none (some path)
inspect_destination (unknown_destination ex) = result "unresolved" none (some ex)
inspect_destination inactive =
    result "no_pipeline" none (some "script ran without constructing a dlt pipeline")
inspect_destination (pipeline none) = result "no_destination" none none
inspect_destination (pipeline (some t)) =
    if t == matterbeam_destination_type
    then result "collector" (some t) none
    else result "not_matterbeam" (some t) none

-- an error names the outcome that it reports
abbrev pub judged : GateResult → Result GateResult
judged r =
    if r.outcome == "no_pipeline"
    then err (gate_error r.outcome)
    else if r.outcome == "unresolved"
    then err (gate_error r.outcome)
    else if r.outcome == "no_destination"
    then err (gate_error r.outcome)
    else if r.outcome == "not_matterbeam"
    then err (gate_error r.outcome)
    else ok r

unfoldable pub run_gate : Inspection → Result GateResult
run_gate i = judged (inspect_destination i)

-- The gate lets a script through exactly where the run leaves an active pipeline with the matterbeam
-- destination, and then reports a collector; it raises a gate error for every other.
pub run_gate_lem :
    (i : Inspection)
    → ((i ≡ pipeline (some matterbeam_destination_type))
        × (run_gate i
            ≡ ok (record {
              outcome = "collector";
              destination_type = some matterbeam_destination_type;
              detail = none;
            })))
      ⊎ ((i ≢ pipeline (some matterbeam_destination_type))
          × (o : String) × (run_gate i ≡ err (gate_error o)))
unfolding run_gate inspect_destination
run_gate_lem (no_file path) = inr ((λ eq. cc), "no_pipeline", refl)
run_gate_lem (unknown_destination ex) = inr ((λ eq. cc), "unresolved", refl)
run_gate_lem inactive = inr ((λ eq. cc), "no_pipeline", refl)
run_gate_lem (pipeline none) = inr ((λ eq. cc), "no_destination", refl)
run_gate_lem (pipeline (some t)) = elim (Bool-cases (t == matterbeam_destination_type)) [
  | inl same ↦
      let at = (eq_iff t matterbeam_destination_type).0 same in
      inl (ap (λ x. pipeline (some x)) at, ap (λ x. run_gate (pipeline (some x))) at)
  | inr other ↦ inr (
    (λ eq. ground (arith, eq_iff t matterbeam_destination_type)),
    "not_matterbeam",
    rw (inspect_destination, other) refl,
  )
]
