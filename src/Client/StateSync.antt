-- ===== src/Client/StateSync.antt =====
-- dlt's pipeline state through a client of src/dlt_matterbeam/client.py and back.
use mathlib.Core.Path.{subst}
use dlt_matterbeam.Prelude.{
  String, ◌≡◌, refl, sym, ap, ◌∙◌, true, false, some, arith, eq_iff, ◌==◌, lookup, lookup-insert,
  lookup-remove, inl, inr, Option-cases, remove,
}
use dlt_matterbeam.Json.{Json, Row, object, from_fields-to_fields}
use dlt_matterbeam.Exec.{ok}
use dlt_matterbeam.Transport.{Transport}
use dlt_matterbeam.Client.{
  Setting, Client, StateInfo, renamed, state_info, put_dlt_state, get_stored_state, put_to,
  get_from, on_net,
}
use dlt_matterbeam.Client.Identity.{resolved_put, resolved_restore}

lookup-renamed :
    (row : Row) (k : String)
    → (k == "dlt_load_id") ≡ false
    → (k == "_dlt_load_id") ≡ false
    → lookup k (renamed row) ≡ lookup k row
unfolding renamed
lookup-renamed row k a b = elim (Option-cases (lookup "_dlt_load_id" row)) [
  | inl e ↦ rw (renamed, e)
  | inr (v, e) ↦
      rw (renamed, e)
        (ground (
          arith,
          lookup-insert "dlt_load_id" k v (remove "_dlt_load_id" row),
          lookup-remove "_dlt_load_id" k row,
          eq_iff "dlt_load_id" k,
          eq_iff k "dlt_load_id",
          eq_iff k "_dlt_load_id",
          eq_iff "_dlt_load_id" k,
        ))
]

lookup-renamed_load :
    (row : Row) (v : Json)
    → lookup "_dlt_load_id" row ≡ some v
    → lookup "dlt_load_id" (renamed row) ≡ some v
unfolding renamed
lookup-renamed_load row v e =
    rw (renamed, e)
      (ground (arith, lookup-insert "dlt_load_id" "dlt_load_id" v (remove "_dlt_load_id" row)))

-- the columns of dlt's state table that a restored state wants
pub record HasState (row : Row) (i : StateInfo) : Type 0 where
  pub version : lookup "version" row ≡ some i.version
  pub engine_version : lookup "engine_version" row ≡ some i.engine_version
  pub pipeline_name : lookup "pipeline_name" row ≡ some i.pipeline_name
  pub state : lookup "state" row ≡ some i.state
  pub created_at : lookup "created_at" row ≡ some i.created_at
  pub version_hash : lookup "version_hash" row ≡ i.version_hash
  pub load_id : (v : Json) × (lookup "_dlt_load_id" row ≡ some v) × (i.dlt_load_id ≡ some v)

state_info-renamed :
    (row : Row) (i : StateInfo)
    → HasState row i
    → state_info (some (object (renamed row))) ≡ ok (some i)
unfolding state_info
state_info-renamed row i h =
    let (v, stored, given) = h.load_id in
    ground (
      arith,
      from_fields-to_fields (renamed row),
      lookup-renamed row "version" refl refl,
      lookup-renamed row "engine_version" refl refl,
      lookup-renamed row "pipeline_name" refl refl,
      lookup-renamed row "state" refl refl,
      lookup-renamed row "created_at" refl refl,
      lookup-renamed row "version_hash" refl refl,
      lookup-renamed_load row v stored,
    )

module _ {N : Type 0} (t : Transport N) (setting : Setting) where
  -- Over a transport that gives back the document that is put, a client that is resolved to a pid
  -- reads back the state that it puts: every field, and the load id that the row had.
  pub get_stored_state-put_dlt_state :
      (c : Client N) (pid name : String) (row : Row) (i : StateInfo)
      → (t.get_dlt_state pid (t.put_dlt_state pid (renamed row) c.net).1).0
        ≡ ok (some (object (renamed row)))
      → c.pid_resolved ≡ true
      → c.pid ≡ some pid
      → HasState row i
      → (get_stored_state t setting name (put_dlt_state t setting row c).1).0 ≡ ok (some i)
  get_stored_state-put_dlt_state c pid name row i stored resolved known h =
      subst (λ x. (get_stored_state t setting name x.1).0 ≡ ok (some i)) (sym written)
        (ap (λ x. x.0) (resolved_restore t setting c' resolved name)
          ∙ ap (λ p. (get_from t setting p c').0) known
          ∙ rw stored (state_info-renamed row i h))
    where
      c' : Client N
      c' = record c { net = (t.put_dlt_state pid (renamed row) c.net).1 }

      written : put_dlt_state t setting row c ≡ on_net (t.put_dlt_state pid (renamed row)) c
      written = resolved_put t setting c resolved row ∙ ap (λ p. put_to t setting row p c) known
