-- ===== src/Fold/Scan/Filtered.antt =====
-- A scan against the files that sort above its cursor.
use mathlib.Core.Path.{subst}
use dlt_matterbeam.Prelude.{
  String, ◌≡◌, refl, sym, ap, ◌∙◌, Bool, true, not, none, some, List, [], ◌∷◌, ◌++◌, map, filter,
  All, arith, Bool-cases, inl, inr,
}
use dlt_matterbeam.Json.Text.{codes}
use dlt_matterbeam.Envelope.Sort.Order.{ltb_codes_asymm, ltb_codes_trans}
use dlt_matterbeam.Fold.{Fact}
use dlt_matterbeam.Fold.Scan.{
  SegmentFile, read_segment, last_id, is_temporary, seen, read, dropped, scan_from, scan,
}
use dlt_matterbeam.Sorting.{text_lt, sort}

-- the files whose writing is complete
abbrev pub is_committed : SegmentFile → Bool
is_committed f = not (is_temporary f)

abbrev pub is_above : String → SegmentFile → Bool
is_above cursor f = text_lt cursor (last_id f)

-- each file of a list has a last id above those before it
abbrev pub Increasing : List SegmentFile → Type 0
Increasing [] = Unit
Increasing (f ∷ fs) = All (λ g. is_above (last_id f) g ≡ true) fs × Increasing fs

text_lt_trans : (a b c : String) → text_lt a b ≡ true → text_lt b c ≡ true → text_lt a c ≡ true
text_lt_trans a b c h k = elim (Bool-cases (text_lt a c)) [
  | inl lt ↦ lt
  | inr not_lt ↦
      let asymm = ltb_codes_asymm (codes b) (codes c) k in
      absurd (ground (arith, ltb_codes_trans (codes a) (codes c) (codes b) not_lt asymm, h))
]

abbrev pub facts_of : List SegmentFile → List Fact
facts_of [] = []
facts_of (f ∷ fs) = read_segment f.lines ++ facts_of fs

-- what the files above a cursor hold, and the names of the others
abbrev pub filtered : String → List SegmentFile → List Fact × List String
filtered cursor fs = (
  facts_of (filter (is_above cursor) fs),
  map (λ f. f.name) (filter (λ f. not (is_above cursor f)) fs),
)

abbrev AllAbove : String → List SegmentFile → Type 0
AllAbove cursor = All (λ g. is_above cursor g ≡ true)

-- where all are above the cursor, none is dropped
filtered_all :
    (cursor : String) (fs : List SegmentFile)
    → AllAbove cursor fs
    → filtered cursor fs ≡ (facts_of fs, [])
filtered_all cursor [] above = refl
filtered_all cursor (f ∷ fs) (here, others) =
    rw (here) (ap (λ x. (read_segment f.lines ++ x.0, x.1)) (filtered_all cursor fs others))

AllAbove-below :
    (cursor : String) (f : SegmentFile) (fs : List SegmentFile)
    → is_above cursor f ≡ true
    → AllAbove (last_id f) fs
    → AllAbove cursor fs
AllAbove-below cursor f [] above all = tt
AllAbove-below cursor f (g ∷ fs) above (here, others) = (
  text_lt_trans cursor (last_id f) (last_id g) above here,
  AllAbove-below cursor f fs above others,
)

scan_from-filtered :
    (cursor : String) (fs : List SegmentFile)
    → Increasing (filter is_committed fs)
    → scan_from cursor fs ≡ filtered cursor (filter is_committed fs)
unfolding scan_from
scan_from-filtered cursor [] h = refl
scan_from-filtered cursor (f ∷ fs) h = elim (Bool-cases (is_temporary f)) [
  | inl temporary ↦
      let passed : filter is_committed (f ∷ fs) ≡ filter is_committed fs = rw (temporary) refl in
      rw (temporary) (scan_from-filtered cursor fs (subst Increasing passed h))
  | inr committed ↦
      let gs = filter is_committed fs in
      let kept : filter is_committed (f ∷ fs) ≡ f ∷ gs = rw (committed) refl in
      let rest : Increasing (f ∷ gs) = subst Increasing kept h in
      elim (Bool-cases (is_above cursor f)) [
        | inl above ↦
            rw (committed, above)
              (ap (seen f read) (
                scan_from-filtered (last_id f) fs rest.1
                ∙ filtered_all (last_id f) gs rest.0
                ∙ sym (filtered_all cursor gs (AllAbove-below cursor f gs above rest.0))))
        | inr below ↦
            rw (committed, below) (ap (seen f dropped) (scan_from-filtered cursor fs rest.1))
      ]
]

-- Where the last ids of the committed segments of a directory increase in the order of their names,
-- a scan finds the facts of those that sort above its cursor, segment after segment, and reports the
-- others as dropped; it passes over temporary files, and finds nothing in a directory that is not
-- there.
pub scan-filtered :
    (files : List SegmentFile) (cursor : String)
    → let committed = filter is_committed (sort (λ f. f.name) files) in
      Increasing committed
      → (scan (some files) cursor ≡ (
        facts_of (filter (is_above cursor) committed),
        map (λ f. f.name) (filter (λ f. not (is_above cursor f)) committed),
      ))
        × (scan none cursor ≡ ([], []))
unfolding scan
scan-filtered files cursor increasing =
    (scan_from-filtered cursor (sort (λ f. f.name) files) increasing, refl)
