-- ===== src/LoadJob/State.antt =====
-- `MatterbeamStateJob.run` of src/dlt_matterbeam/load_job.py: the last row of dlt's state table goes to
-- the client as a state document.
use dlt_matterbeam.Prelude.{String, Option, none, some, List, [], ◌∷◌, if◌then◌else◌}
use dlt_matterbeam.Json.{Json, null, arr, nil, cons}
use dlt_matterbeam.Exec.{Result, ok, err, ◌>>=◌, json_decode_error, index_error}
use dlt_matterbeam.Action
use dlt_matterbeam.Action.{Action, continue}
use dlt_matterbeam.Envelope.Strip.{strip_pua}
use dlt_matterbeam.Envelope.Rows.{is_blank}

-- `recs[0] if isinstance(recs, list) else recs`
unfoldable pub first_rec : Json → Result Json
first_rec (arr nil) = err index_error
first_rec (arr (cons x xs)) = ok x
first_rec j = ok j

-- `if row is None: return`
abbrev put_row : {S : Type 0} → (Json → Action S (Unit {0})) → Json → Action S (Unit {0})
put_row put_dlt_state null = Action.pure tt
put_row put_dlt_state row = put_dlt_state row

module _ (custom_pua_remove : String → String) (loads : String → Option Json) where
  abbrev pub line_row : String → Result Json
  line_row raw = elim (loads raw) [
    | none ↦ err json_decode_error
    | some recs ↦ do rec ← first_rec recs; ok (strip_pua custom_pua_remove rec)
  ]

  -- the loop over the file; a `row` that is `None` is null
  unfoldable pub last_row : Json → List String → Result Json
  last_row row [] = ok row
  last_row row (raw ∷ lines) =
      let skip = last_row row lines in
      let read = (do row' ← line_row raw; last_row row' lines) in
      if is_blank raw then skip else read

  unfoldable pub run_state_job :
      {S : Type 0} → (Json → Action S (Unit {0})) → List String → Action S (Unit {0})
  unfolding last_row
  run_state_job put_dlt_state lines s = continue (last_row null lines) (put_row put_dlt_state) s
