-- ===== src/Tests/Gates.antt =====
-- The gate at a script that makes a pipeline and runs it.
use dlt_matterbeam.Prelude.{ℕ, ◌+◌, ◌≡◌, refl, true, none, some, ◌⊎◌, arith}
use dlt_matterbeam.Gate.{GateResult, matterbeam_destination_type}
use dlt_matterbeam.Gate.Intercept.{
  RunMethod, intercepting, method, Pipeline, Process, returned, raised, intercepted, Call, patched,
  run_gate_script,
}
use dlt_matterbeam.Gate.Intercept.Restored.{IsRestored, run_gate_script_lem}

abbrev orders : Pipeline
orders = record {
  pipeline_name = "orders";
  dataset_name = "shop";
  destination_type = some matterbeam_destination_type;
}

-- `pipeline.run()`: the world counts the runs that reach a destination
abbrev run_by : RunMethod → Call ℕ (Unit {0})
run_by intercepting p = (raised intercepted, p)
run_by (method name) p = (returned tt, record p { world = p.world + 1 })

abbrev script : Call ℕ (Unit {0})
script p = run_by p.run (record p { context = some (some orders) })

run_by-inside : (m : RunMethod) (p : Process ℕ) → m ≡ intercepting → (run_by m p).1.world ≡ p.world
run_by-inside intercepting p e = refl
run_by-inside (method name) p e = absurd (ground arith)

run_by-run : (m : RunMethod) (p : Process ℕ) → (run_by m p).1.run ≡ p.run
run_by-run intercepting p = refl
run_by-run (method name) p = refl

abbrev process : Process ℕ
process = record { run = method "run"; data_dir = none; context = none; world = 0 }

run_gate_script_lem_example :
    let x = run_gate_script true "main.py" script "/tmp/gate" process in
    let ran = script (patched "/tmp/gate" process) in
    IsRestored process x.1
    × (x.1.world ≡ process.world)
    × ((r : GateResult)
        → x.0 ≡ returned r
        → ((ran.0 ≡ returned tt) ⊎ (ran.0 ≡ raised intercepted))
          × (pipeline' : Pipeline) × (ran.1.context ≡ some (some pipeline'))
          × (pipeline'.destination_type ≡ some matterbeam_destination_type))
run_gate_script_lem_example =
    run_gate_script_lem "main.py" "/tmp/gate" script process
      (λ p. run_by-inside p.run (record p { context = some (some orders) }))
      (λ p. run_by-run p.run (record p { context = some (some orders) }))
