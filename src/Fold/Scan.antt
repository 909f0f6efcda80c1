-- ===== src/Fold/Scan.antt =====
-- `scan` of tests/fake_matterbeam/fold.py, the reader that feeds the fold, over `read_segment` of
-- tests/fake_matterbeam/segment_store.py. A line of a segment stands for its id and its record.
pub mod Filtered
use Prim.Native.Char.{Char, code}
use dlt_matterbeam.Prelude.{
  ℕ, String, Bool, true, false, not, Option, none, some, List, [], ◌∷◌, ◌++◌, nat_beq,
  if◌then◌else◌,
}
use dlt_matterbeam.Json.{Row}
use dlt_matterbeam.Deploy.Files.{ends_with}
use dlt_matterbeam.Fold.{Fact}
use dlt_matterbeam.Sorting.{text_lt, sort}

pub data SegmentLine : Type 0 where
  blank : SegmentLine
  entry : ℕ → Row → SegmentLine

-- a file of the directory of a record type
pub record SegmentFile : Type 0 where
  pub name : String
  pub lines : List SegmentLine

unfoldable pub read_segment : List SegmentLine → List Fact
read_segment [] = []
read_segment (blank ∷ ls) = read_segment ls
read_segment (entry rid data' ∷ ls) = (rid, data') ∷ read_segment ls

-- `key.split(".")[0]`
abbrev pub until_dot : Char → String → String
until_dot c rest = if nat_beq (code c) 46 then "" else String.◌∷◌ c rest

unfoldable pub before_dot : String → String
before_dot String.[] = ""
before_dot (String.◌∷◌ c s) = until_dot c (before_dot s)

abbrev pub last_id : SegmentFile → String
last_id f = before_dot f.name

abbrev pub is_temporary : SegmentFile → Bool
is_temporary f = ends_with f.name ".tmp"

-- what the reader does with a file: a temporary one is passed over, one that is not above the cursor
-- is dropped
pub data Visit : Type 0 where
  skipped dropped read : Visit

abbrev pub visit : String → SegmentFile → Visit
visit cursor f =
    if is_temporary f then skipped else if not (text_lt cursor (last_id f)) then dropped else read

abbrev pub moved : String → SegmentFile → Visit → String
moved cursor f read = last_id f
moved cursor f _ = cursor

abbrev pub seen : SegmentFile → Visit → List Fact × List String → List Fact × List String
seen f read (facts, keys) = (read_segment f.lines ++ facts, keys)
seen f dropped (facts, keys) = (facts, f.name ∷ keys)
seen f skipped found = found

-- the loop over the sorted names
unfoldable pub scan_from : String → List SegmentFile → List Fact × List String
scan_from cursor [] = ([], [])
scan_from cursor (f ∷ fs) = let v = visit cursor f in seen f v (scan_from (moved cursor f v) fs)

-- `scan`, of a directory that may be missing: the facts, and the keys of the files dropped
unfoldable pub scan : Option (List SegmentFile) → String → List Fact × List String
scan none cursor = ([], [])
scan (some files) cursor = scan_from cursor (sort (λ f. f.name) files)
