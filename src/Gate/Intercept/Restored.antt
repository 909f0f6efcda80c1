-- ===== src/Gate/Intercept/Restored.antt =====
-- What the gate of src/dlt_matterbeam/gate.py does to the process that it runs a script in, and to
-- the world outside.
use dlt_matterbeam.Prelude.{String, ◌≡◌, refl, ◌∙◌, true, Option, none, some, ◌⊎◌, inl, inr, arith}
use dlt_matterbeam.Gate.{
  GateResult, matterbeam_destination_type, inspect_destination, pipeline, run_gate, run_gate_lem,
}
use dlt_matterbeam.Gate.Intercept.{
  intercepting, Pipeline, Process, intercepted, unknown_destination_module, gate_failed, other, Ran,
  returned, raised, Call, patched, then_body, run_intercepted, inspect_context, unresolved,
  inspect_script, gate, run_gate_script, inspection_of, deactivated,
}

-- no pipeline is left active
abbrev pub IsInactive : Option (Option Pipeline) → Type 0
IsInactive none = Unit
IsInactive (some none) = Unit
IsInactive (some (some p)) = ⊥

deactivated-IsInactive : (c : Option (Option Pipeline)) → IsInactive (deactivated c)
deactivated-IsInactive none = tt
deactivated-IsInactive (some c) = tt

module _ {W : Type 0} where
  -- the process is as it was before, with no pipeline active
  abbrev pub IsRestored : Process W → Process W → Type 0
  IsRestored p q = (q.run ≡ p.run) × (q.data_dir ≡ p.data_dir) × IsInactive q.context

  -- an action that leaves the world alone while `Pipeline.run` only raises
  abbrev pub StaysInside : {A : Type 0} → Call W A → Type 0
  StaysInside script = (p : Process W) → p.run ≡ intercepting → (script p).1.world ≡ p.world

  -- a script that does not patch `Pipeline.run` itself
  abbrev pub KeepsRun : Call W (Unit {0}) → Type 0
  KeepsRun script = (p : Process W) → (script p).1.run ≡ p.run

  then_body-world :
      {A : Type 0} (body : Call W A) (o : Ran (Unit {0})) (q : Process W)
      → StaysInside body
      → q.run ≡ intercepting
      → (then_body body o q).1.world ≡ q.world
  then_body-world body (returned u) q inside runs = inside q runs
  then_body-world body (raised intercepted) q inside runs = inside q runs
  then_body-world body (raised (unknown_destination_module ex)) q inside runs = refl
  then_body-world body (raised (gate_failed e)) q inside runs = refl
  then_body-world body (raised (other e)) q inside runs = refl

  run_intercepted-world :
      {A : Type 0} (script : Call W (Unit {0})) (tmp_dir : String) (body : Call W A) (p : Process W)
      → StaysInside script
      → KeepsRun script
      → StaysInside body
      → (run_intercepted script tmp_dir body p).1.world ≡ p.world
  unfolding run_intercepted
  run_intercepted-world script tmp_dir body p inside keeps body_inside =
      let ran = script (patched tmp_dir p) in
      then_body-world body ran.0 ran.1 body_inside (keeps (patched tmp_dir p))
      ∙ inside (patched tmp_dir p) refl

  run_intercepted-IsRestored :
      {A : Type 0} (script : Call W (Unit {0})) (tmp_dir : String) (body : Call W A) (p : Process W)
      → IsRestored p (run_intercepted script tmp_dir body p).1
  unfolding run_intercepted
  run_intercepted-IsRestored script tmp_dir body p =
      let ran = script (patched tmp_dir p) in
      (refl, refl, deactivated-IsInactive (then_body body ran.0 ran.1).1.context)

matterbeam_only :
    (d : Option String) (r : GateResult)
    → gate (returned (inspect_destination (pipeline d))) ≡ returned r
    → d ≡ some matterbeam_destination_type
unfolding run_gate
matterbeam_only d r passed = elim (run_gate_lem (pipeline d)) [
  | inl (at, _) ↦ cc
  | inr (_, o, failed) ↦ absurd (ground arith)
]

context_only :
    (c : Option (Option Pipeline)) (r : GateResult)
    → gate (returned (inspect_destination (inspection_of c))) ≡ returned r
    → (pipeline' : Pipeline) × (c ≡ some (some pipeline'))
      × (pipeline'.destination_type ≡ some matterbeam_destination_type)
unfolding inspect_destination
context_only none r passed = absurd (cc)
context_only (some none) r passed = absurd (cc)
context_only (some (some q)) r passed = (q, refl, matterbeam_only q.destination_type r passed)

module _ {W : Type 0} where
  accepted :
      (o : Ran (Unit {0})) (q : Process W) (r : GateResult)
      → gate (unresolved (then_body inspect_context o q).0) ≡ returned r
      → ((o ≡ returned tt) ⊎ (o ≡ raised intercepted))
        × (pipeline' : Pipeline) × (q.context ≡ some (some pipeline'))
        × (pipeline'.destination_type ≡ some matterbeam_destination_type)
  unfolding inspect_destination
  accepted (returned u) q r passed =
      let (q', at, matterbeam) = context_only q.context r passed in (inl refl, q', at, matterbeam)
  accepted (raised intercepted) q r passed =
      let (q', at, matterbeam) = context_only q.context r passed in (inr refl, q', at, matterbeam)
  accepted (raised (unknown_destination_module ex)) q r passed = absurd (cc)
  accepted (raised (gate_failed e)) q r passed = absurd (cc)
  accepted (raised (other e)) q r passed = absurd (cc)

  -- Where a script leaves `Pipeline.run` as it finds it and reaches the world by it only, the gate
  -- runs the script and nothing is reached: the world, the method and the data directory are
  -- afterwards what they were, and no pipeline is active. It accepts the script only if that came to
  -- its end or to a run of its pipeline, and left one active with the matterbeam destination.
  pub run_gate_script_lem :
      (path tmp_dir : String) (script : Call W (Unit {0})) (p : Process W)
      → StaysInside script
      → KeepsRun script
      → let x = run_gate_script true path script tmp_dir p in
        let ran = script (patched tmp_dir p) in
        IsRestored p x.1
        × (x.1.world ≡ p.world)
        × ((r : GateResult)
            → x.0 ≡ returned r
            → ((ran.0 ≡ returned tt) ⊎ (ran.0 ≡ raised intercepted))
              × (pipeline' : Pipeline) × (ran.1.context ≡ some (some pipeline'))
              × (pipeline'.destination_type ≡ some matterbeam_destination_type))
  unfolding run_gate_script inspect_script run_intercepted
  run_gate_script_lem path tmp_dir script p inside keeps =
      let ran = script (patched tmp_dir p) in
      (
        run_intercepted-IsRestored script tmp_dir inspect_context p,
        run_intercepted-world script tmp_dir inspect_context p inside keeps (λ _ _. refl),
        accepted ran.0 ran.1,
      )
