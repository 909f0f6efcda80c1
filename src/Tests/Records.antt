-- ===== src/Tests/Records.antt =====
-- The envelope's theorems at one row of a keyed table, and at three rows to sort.
use dlt_matterbeam.Prelude.{
  String, ◌≡◌, ◌↔◌, refl, Bool, true, false, not, none, some, List, [], ◌∷◌, ◌++◌, lookup, insert,
  contains, is_empty, filter, length, if◌then◌else◌,
}
use dlt_matterbeam.Json.{Json, Row, null, str, num, boolean, object}
use dlt_matterbeam.Json.Int.{pos}
use dlt_matterbeam.Exec.{Error, ok, err, key_error}
use dlt_matterbeam.Envelope.Record.{build_record, build_wire_record, is_deleted, popped}
use dlt_matterbeam.Envelope.Record.Bodies.{
  build_wire_record_bodies, build_wire_record-err_iff, is_popped,
}
use dlt_matterbeam.Envelope.Record.Agreement.{build_record-build_wire_record}
use dlt_matterbeam.Envelope.Sort.{
  sort_rows, sort_by, place, py_lt, before, key, is_present, is_desc,
}
use dlt_matterbeam.Envelope.Sort.Sorted.{InOrder}
use dlt_matterbeam.Envelope.Sort.Laws.{sort_rows_sorts}
use dlt_matterbeam.Envelope.Sort.Returns.{sort_rows_returns, numbers}

abbrev row : Row
row =
    ("_dlt_id", str "r1")
    ∷ ("_dlt_load_id", str "l1")
    ∷ ("id", num (pos 7))
    ∷ ("gone", boolean true)
    ∷ []

abbrev keys : List String
keys = "id" ∷ []

build_wire_record_bodies_example :
    (is_deleted (popped row) ("gone" ∷ []) ≡ false
      → (w body : Row) × (build_wire_record row keys ("gone" ∷ []) ≡ ok w)
        × (lookup "t" w ≡ none)
        × (lookup "v" w ≡ some (object body))
        × ((f : String) → lookup f body ≡ (if is_popped f then none else lookup f row)))
    × ((w : Row)
        → is_deleted (popped row) ("gone" ∷ []) ≡ true
        → is_empty keys ≡ false
        → build_wire_record row keys ("gone" ∷ []) ≡ ok w
        → (body : Row) × (lookup "t" w ≡ some (boolean true))
          × (lookup "v" w ≡ some (object body))
          × ((f : String)
              → lookup f body ≡ (if contains f keys then lookup f (popped row) else none)))
build_wire_record_bodies_example = build_wire_record_bodies row keys ("gone" ∷ [])

build_wire_record-err_iff_example :
    (build_wire_record row ("other" ∷ []) ("gone" ∷ []) ≡ err (key_error "other")
      → (f : String) × (key_error "other" ≡ key_error f)
        × (contains f ("other" ∷ []) ≡ true)
        × (lookup f (popped row) ≡ none))
    × (((e' : Error) × (build_wire_record row ("other" ∷ []) ("gone" ∷ []) ≡ err e')) ↔ (
        (is_deleted (popped row) ("gone" ∷ []) ≡ true)
        × ((f : String) × (contains f ("other" ∷ []) ≡ true) × (lookup f (popped row) ≡ none))))
build_wire_record-err_iff_example =
    build_wire_record-err_iff row ("other" ∷ []) ("gone" ∷ []) (key_error "other")

build_record-build_wire_record_example :
    ((e : Error)
      → (build_wire_record row keys ("gone" ∷ []) ≡ err e)
        ↔ (build_record "now" row "d.t" keys ("gone" ∷ []) "l1" none ≡ err e))
    × ((w : Row)
        → build_wire_record row keys ("gone" ∷ []) ≡ ok w
        → (body meta : Row) × (lookup "v" w ≡ some (object body))
          × (build_record "now" row "d.t" keys ("gone" ∷ []) "l1" none
              ≡ ok (insert "mb.metadata" (object meta) body))
          × (lookup "is_tombstone" meta ≡ lookup "t" w)
          × (lookup "source_record_id" meta ≡ lookup "i" w))
build_record-build_wire_record_example =
    build_record-build_wire_record "now" "d.t" "l1" none row keys ("gone" ∷ [])

abbrev numbered : Json → String → Row
numbered n name = ("n", n) ∷ ("name", str name) ∷ []

abbrev unsorted : List Row
unsorted =
    numbered (num (pos 2)) "a"
    ∷ numbered null "b"
    ∷ numbered (num (pos 1)) "c"
    ∷ numbered (num (pos 2)) "d"
    ∷ []

sort_rows_returns_example :
    (sort_rows unsorted none ≡ ok unsorted)
    × ((out : List Row) × (sort_rows unsorted (some ("n", str "desc")) ≡ ok out))
sort_rows_returns_example =
    sort_rows_returns unsorted "n" (str "desc") numbers (refl, (refl, (refl, tt)))

abbrev ties : List Row
ties =
    numbered (num (pos 1)) "a"
    ∷ numbered (num (pos 0)) "b"
    ∷ numbered null "c"
    ∷ numbered (num (pos 0)) "d"
    ∷ []

abbrev untied : List Row
untied =
    numbered (num (pos 0)) "b"
    ∷ numbered (num (pos 0)) "d"
    ∷ numbered (num (pos 1)) "a"
    ∷ numbered null "c"
    ∷ []

sort_rows_sorts_example :
    ((front : List Row) × (untied ≡ front ++ filter (λ r. not (is_present "n" r)) ties)
      × InOrder (is_desc (str "asc")) "n" front)
    × ((p : Row → Bool) → length (filter p untied) ≡ length (filter p ties))
    × ((p : Row → Bool)
        → ((x : Row) → p x ≡ true → is_present "n" x ≡ true)
        → ((x y : Row)
            → p x ≡ true
            → p y ≡ true
            → before (is_desc (str "asc")) (key "n" y) (key "n" x) ≡ ok false)
        → filter p untied ≡ filter p ties)
unfolding sort_rows sort_by place py_lt
sort_rows_sorts_example = sort_rows_sorts ties "n" (str "asc") refl
