-- ===== src/Envelope/Record/Bodies.antt =====
-- What the body of a record holds: `_tombstone_and_body` of src/dlt_matterbeam/envelope.py.
use dlt_matterbeam.Prelude.{
  String, ◌≡◌, ◌↔◌, inl, inr, Bool, true, false, ◌||◌, none, some, List, [], ◌∷◌, arith, ◌==◌,
  eq_iff, lookup, insert, remove, lookup-insert, lookup-remove, contains, is_empty, if◌then◌else◌,
  Option-cases,
}
use dlt_matterbeam.Json.{Row, boolean, object}
use dlt_matterbeam.Exec.{Error, ok, err, key_error, Result-cases}
use dlt_matterbeam.Envelope.Record.{
  pick, tombstone_and_body, is_deleted, popped, build_wire_record, wire,
}

abbrev pub is_popped : String → Bool
is_popped f = f == "_dlt_id" || f == "_dlt_load_id"

pub lookup-popped :
    (f : String) (row : Row) → lookup f (popped row) ≡ (if is_popped f then none else lookup f row)
lookup-popped f row = ground (
  arith,
  lookup-remove "_dlt_load_id" f (remove "_dlt_id" row),
  lookup-remove "_dlt_id" f row,
  eq_iff f "_dlt_id",
  eq_iff "_dlt_id" f,
  eq_iff f "_dlt_load_id",
  eq_iff "_dlt_load_id" f,
)

module _ (row : Row) where
  pub lookup-pick :
      (fs : List String) (body₀ : Row) {body : Row} (f : String)
      → pick row fs body₀ ≡ ok body
      → lookup f body ≡ (if contains f fs then lookup f row else lookup f body₀)
  unfolding pick
  lookup-pick [] body₀ f h = ground arith
  lookup-pick (g ∷ fs) body₀ {body} f h = elim (Option-cases (lookup g row)) [
    | inl e ↦ absurd (ground arith)
    | inr (v, e) ↦ ground (
      arith,
      e,
      lookup-pick fs (insert g v body₀) {body = body} f (ground (arith, e)),
      lookup-insert g f v body₀,
      eq_iff f g,
      eq_iff g f,
    )
  ]

  pub pick-err :
      (fs : List String) (body₀ : Row) {e : Error}
      → pick row fs body₀ ≡ err e
      → (f : String) × (e ≡ key_error f) × (contains f fs ≡ true) × (lookup f row ≡ none)
  unfolding pick
  pick-err [] body₀ h = absurd (ground arith)
  pick-err (g ∷ fs) body₀ h = elim (Option-cases (lookup g row)) [
    | inl e ↦ (g, ground arith, ground (arith, eq_iff g g), e)
    | inr (v, e) ↦
        let (f, p, q, r) = pick-err fs (insert g v body₀) (ground (arith, e)) in
        (f, p, ground arith, r)
  ]

  pub pick_missing :
      (fs : List String) (body₀ : Row) (f : String)
      → contains f fs ≡ true
      → lookup f row ≡ none
      → (e : Error) × (pick row fs body₀ ≡ err e)
  unfolding pick
  pick_missing [] body₀ f c m = absurd (ground arith)
  pick_missing (g ∷ fs) body₀ f c m = elim (Option-cases (lookup g row)) [
    | inl e ↦ (key_error g, ground arith)
    | inr (v, e) ↦
        rw (pick, e) (pick_missing fs (insert g v body₀) f (ground (arith, eq_iff f g)) m)
  ]

module _ (row : Row) (keys hard_delete : List String) where
  build_wire_record_live :
      is_deleted (popped row) hard_delete ≡ false
      → (w body : Row) × (build_wire_record row keys hard_delete ≡ ok w)
        × (lookup "t" w ≡ none)
        × (lookup "v" w ≡ some (object body))
        × ((f : String) → lookup f body ≡ (if is_popped f then none else lookup f row))
  unfolding build_wire_record tombstone_and_body
  build_wire_record_live live = (
    wire false (popped row) (lookup "_dlt_id" row),
    popped row,
    ground arith,
    ground arith,
    ground arith,
    λ f. lookup-popped f row,
  )

  build_wire_record_tombstone :
      {w : Row}
      → is_deleted (popped row) hard_delete ≡ true
      → is_empty keys ≡ false
      → build_wire_record row keys hard_delete ≡ ok w
      → (body : Row) × (lookup "t" w ≡ some (boolean true))
        × (lookup "v" w ≡ some (object body))
        × ((f : String) → lookup f body ≡ (if contains f keys then lookup f (popped row) else none))
  unfolding build_wire_record tombstone_and_body
  build_wire_record_tombstone {w} dead keyed h = elim (Result-cases (pick (popped row) keys [])) [
    | inl (body, e) ↦ (body, ground arith, ground arith, λ f. lookup-pick (popped row) keys [] f e)
    | inr (e, q) ↦ absurd (ground arith)
  ]

  -- A row that is not deleted goes out whole: the record is no tombstone, and its body has every
  -- field of the row with its value, but for `_dlt_id` and `_dlt_load_id`, which it never has. A row
  -- that is deleted from a keyed table becomes a tombstone, where the build succeeds, whose body is
  -- the key fields of the row and nothing else.
  pub build_wire_record_bodies :
      (is_deleted (popped row) hard_delete ≡ false
        → (w body : Row) × (build_wire_record row keys hard_delete ≡ ok w)
          × (lookup "t" w ≡ none)
          × (lookup "v" w ≡ some (object body))
          × ((f : String) → lookup f body ≡ (if is_popped f then none else lookup f row)))
      × ((w : Row)
          → is_deleted (popped row) hard_delete ≡ true
          → is_empty keys ≡ false
          → build_wire_record row keys hard_delete ≡ ok w
          → (body : Row) × (lookup "t" w ≡ some (boolean true))
            × (lookup "v" w ≡ some (object body))
            × ((f : String)
                → lookup f body ≡ (if contains f keys then lookup f (popped row) else none)))
  build_wire_record_bodies = (build_wire_record_live, λ w. build_wire_record_tombstone {w = w})

  err-missing :
      {e : Error}
      → build_wire_record row keys hard_delete ≡ err e
      → (is_deleted (popped row) hard_delete ≡ true)
        × ((f : String) × (e ≡ key_error f)
            × (contains f keys ≡ true)
            × (lookup f (popped row) ≡ none))
  unfolding build_wire_record tombstone_and_body
  err-missing {e} h = elim (Result-cases (pick (popped row) keys [])) [
    | inl (body, p) ↦ absurd (ground arith)
    | inr (e', q) ↦ (
      ground arith,
      let (f, p, r, t) = pick-err (popped row) keys [] q in (f, ground arith, r, t),
    )
  ]

  missing-err :
      (f : String)
      → is_deleted (popped row) hard_delete ≡ true
      → contains f keys ≡ true
      → lookup f (popped row) ≡ none
      → (e : Error) × (build_wire_record row keys hard_delete ≡ err e)
  unfolding build_wire_record tombstone_and_body
  missing-err f dead key missing =
      let (e, q) = pick_missing (popped row) keys [] f key missing in (e, ground arith)

  -- The build fails exactly on a tombstone of a table one of whose key fields the row lacks, or
  -- had popped; what it raises is then a `KeyError` on a key field that is missing.
  pub build_wire_record-err_iff :
      (e : Error)
      → (build_wire_record row keys hard_delete ≡ err e
          → (f : String) × (e ≡ key_error f)
            × (contains f keys ≡ true)
            × (lookup f (popped row) ≡ none))
        × (((e' : Error) × (build_wire_record row keys hard_delete ≡ err e')) ↔ (
            (is_deleted (popped row) hard_delete ≡ true)
            × ((f : String) × (contains f keys ≡ true) × (lookup f (popped row) ≡ none))))
  build_wire_record-err_iff e = (
    λ h. (err-missing h).1,
    (
      λ (e', h).
          let (dead, found) = err-missing h in
          let (f, raised, key, missing) = found in (dead, (f, key, missing)),
      λ (dead, (f, key, missing)). missing-err f dead key missing,
    ),
  )
