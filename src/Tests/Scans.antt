-- ===== src/Tests/Scans.antt =====
-- A directory with two segments and a temporary file, scanned from the id of the first.
use dlt_matterbeam.Prelude.{String, ◌≡◌, refl, not, none, some, List, [], ◌∷◌, map, filter}
use dlt_matterbeam.Json.{Row, str}
use dlt_matterbeam.Fold.Scan.{SegmentFile, blank, entry, before_dot, scan}
use dlt_matterbeam.Fold.Scan.Filtered.{is_committed, is_above, facts_of, scan-filtered}
use dlt_matterbeam.Sorting.{sort, place}

abbrev row : String → Row
row i = ("id", str i) ∷ []

abbrev files : List SegmentFile
files =
    record { name = "200.190.jsonl"; lines = entry 190 (row "b") ∷ entry 200 (row "c") ∷ [] }
    ∷ record { name = "300.290.jsonl.7.9.tmp"; lines = blank ∷ [] }
    ∷ record { name = "100.100.jsonl"; lines = entry 100 (row "a") ∷ [] }
    ∷ []

abbrev committed : List SegmentFile
committed = filter is_committed (sort (λ f. f.name) files)

scan-filtered_example :
    (scan (some files) "100" ≡ (
      facts_of (filter (is_above "100") committed),
      map (λ f. f.name) (filter (λ f. not (is_above "100" f)) committed),
    ))
    × (scan none "100" ≡ ([], []))
unfolding sort place before_dot
scan-filtered_example = scan-filtered files "100" ((refl, tt), (tt, tt))
