-- ===== src/Tests/Folds.antt =====
-- The fold's theorems at three facts of two keys.
use dlt_matterbeam.Prelude.{
  ℕ, String, ◌≡◌, refl, true, false, Option, none, some, List, [], ◌∷◌, ◌++◌, Dict, lookup,
}
use dlt_matterbeam.Json.{Json, Row, str, boolean, object, truthy}
use dlt_matterbeam.Exec.{ok}
use dlt_matterbeam.Fold.{Fact, fold, keyed}
use dlt_matterbeam.Fold.LastValue.{IsReadable, last_value, fold-last_value, fold-again}

abbrev show : Option Json → String
show (some (str s)) = s
show _ = "None"

abbrev keys : List String
keys = "id" ∷ []

abbrev fact : ℕ → String → Row → Fact
fact rid i meta = (rid, ("id", str i) ∷ ("mb.metadata", object meta) ∷ [])

abbrev tombstone : Row
tombstone = ("is_tombstone", boolean true) ∷ []

abbrev first : List Fact
first = fact 1 "a" [] ∷ []

abbrev chunk : List Fact
chunk = fact 2 "b" [] ∷ fact 3 "a" tombstone ∷ []

abbrev first_reads : IsReadable first
unfolding truthy
first_reads = ((false, refl), tt)

abbrev chunk_reads : IsReadable chunk
unfolding truthy
chunk_reads = ((false, refl), ((true, refl), tt))

fold-last_value_example :
    (out : Dict Row) × (fold show chunk keys ≡ ok (keyed out))
    × ((k : String) → lookup k out ≡ last_value show keys k none chunk)
fold-last_value_example = fold-last_value show keys chunk refl chunk_reads

fold-again_example :
    (once twice : Dict Row) × (fold show (first ++ chunk) keys ≡ ok (keyed once))
    × (fold show (first ++ (chunk ++ chunk)) keys ≡ ok (keyed twice))
    × ((k : String) → lookup k twice ≡ lookup k once)
fold-again_example = fold-again show keys first chunk refl first_reads chunk_reads
