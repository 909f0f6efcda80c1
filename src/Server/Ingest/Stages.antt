-- ===== src/Server/Ingest/Stages.antt =====
-- What an ingest does to its records, one stage after another.
pub mod Selection
use Prim.Native.String.{◌++◌ as str_append}
use dlt_matterbeam.Prelude.{
  ℕ, zero, suc, ◌+◌, ◌-◌, String, Bool, true, false, not, ◌&&◌, Option, none, some, List, [], ◌∷◌,
  ◌++◌, ◌==◌, max, lookup, insert, update, contains, length, drop, get_last?, ltb, leb, any,
  decimal, if◌then◌else◌,
}
use dlt_matterbeam.Json.{
  Json, Row, null, str, num, boolean, obj, object, truthy, truthy?, from_fields,
}
use dlt_matterbeam.Json.Int.{pos}
use dlt_matterbeam.Json.Text.{codes, ltb_codes}
use dlt_matterbeam.Envelope.Record.{flag, optional}
use dlt_matterbeam.Server.{
  Server, Knobs, RtState, ProcessState, Counters, Segment, Outcome, done, fault, malformed,
}
use dlt_matterbeam.Server.Segments.{write_segment}

-- a line read: its id, its body, and whether it is a tombstone
pub record Parsed : Type 0 where
  pub dlt_id : Option String
  pub body : Row
  pub is_tombstone : Bool

-- an id that is false of `if` counts as none; ids are texts, any other is refused here
abbrev pub id_of_json : Option Json → Outcome (Option String)
id_of_json none = done none
id_of_json (some null) = done none
id_of_json (some (str s)) = done (if s == "" then none else some s)
id_of_json (some _) = fault malformed

abbrev parsed_line : Outcome (Option String) → Option Json → Bool → Outcome Parsed
parsed_line (done i) (some (obj fs)) t =
    done (record { dlt_id = i; body = from_fields fs; is_tombstone = t })
parsed_line (fault f) v t = fault f
parsed_line _ _ t = fault malformed

unfoldable pub parse_line : Row → Outcome Parsed
parse_line line =
    parsed_line (id_of_json (lookup "i" line)) (lookup "v" line) (truthy? (lookup "t" line))

abbrev cons_parsed : Outcome Parsed → Outcome (List Parsed) → Outcome (List Parsed)
cons_parsed (done p) (done ps) = done (p ∷ ps)
cons_parsed (fault f) ps = fault f
cons_parsed (done p) (fault f) = fault f

unfoldable pub parse_lines : List Row → Outcome (List Parsed)
parse_lines [] = done []
parse_lines (line ∷ lines) = cons_parsed (parse_line line) (parse_lines lines)

abbrev pub id_json : Option String → Option Json
id_json none = none
id_json (some i) = some (str i)

-- `body["mb.metadata"] = …`
unfoldable pub stamp : String → String → String → Parsed → Row
stamp now_text recordtype_id load_id p =
    insert "mb.metadata"
      (object (
        (("version", num (pos 1))
          ∷ ("record_type_id", str recordtype_id)
          ∷ ("collected_at_utc", str now_text)
          ∷ [])
        ++ (flag "is_tombstone" p.is_tombstone
            ++ (optional "source_record_id" (id_json p.dlt_id)
                ++ optional "source_load_id" (some (str load_id))))))
      p.body

-- what is left of the lines: the records, the ids among them, and how many were seen before
pub record Stamped : Type 0 where
  pub records : List Row
  pub written_ids : List String
  pub hits : ℕ

abbrev pub was_seen : Bool → List String → Option String → Bool
was_seen dedup_on seen none = false
was_seen dedup_on seen (some i) = dedup_on && contains i seen

abbrev pub with_id : Option String → List String → List String
with_id none ids = ids
with_id (some i) ids = i ∷ ids

unfoldable pub select : Bool → List String → (Parsed → Row) → List Parsed → Stamped
select dedup_on seen stamped [] = record { records = []; written_ids = []; hits = 0 }
select dedup_on seen stamped (p ∷ ps) =
    let rest = select dedup_on seen stamped ps in
    if was_seen dedup_on seen p.dlt_id then record rest { hits = rest.hits + 1 } else record {
      records = stamped p ∷ rest.records;
      written_ids = with_id p.dlt_id rest.written_ids;
      hits = rest.hits;
    }

abbrev pub is_last : Option String → String → Bool
is_last none job_id = false
is_last (some j) job_id = j == job_id

-- `del order[:-16]`
abbrev pub last_16 : List String → List String
last_16 order = drop (length order - 16) order

-- `_track_job_arrival`: the state of the record type, and whether an earlier job came back
unfoldable pub track_arrival : String → RtState → RtState × Bool
track_arrival job_id rt =
    if is_last (get_last? rt.job_order) job_id
    then (rt, false)
    else (let resurrected = contains job_id rt.job_order in
        (
          record rt {
            job_order = last_16 (rt.job_order ++ job_id ∷ []);
            stale_resurrections = rt.stale_resurrections + (if resurrected then 1 else 0);
          },
          resurrected,
        ))

-- the begin timestamp, above all earlier ones where the clamp is on
abbrev pub begin_of : Bool → ℕ → RtState → ℕ
begin_of clamp_on now_ms rt = if clamp_on then max now_ms (rt.high_water_ms + 1) else now_ms

abbrev pub get_rt : String → String → Server → RtState
get_rt pid recordtype_id s = (s.process_state pid).recordtypes recordtype_id

abbrev pub set_rt : String → String → RtState → Server → Server
set_rt pid recordtype_id rt s = record s {
  process_state =
      update pid
        (record (s.process_state pid) {
          recordtypes = update recordtype_id rt (s.process_state pid).recordtypes;
        })
        s.process_state;
}

-- whether a text sorts below the greatest of some, that is, below one of them
abbrev pub sorts_below : String → List String → Bool
sorts_below t vis = any (λ v. ltb_codes (codes t) (codes v)) vis

abbrev pub count_inversion : Bool → Counters → Counters
count_inversion inverted c = record c { inversions = c.inversions + (if inverted then 1 else 0) }

-- the commit of a segment: it is on disk, and visible
unfoldable pub commit : String → Segment → Server → Server
commit recordtype_id seg s = record s {
  segments = update recordtype_id (s.segments recordtype_id ++ seg ∷ []) s.segments;
  visibility =
      update recordtype_id (s.visibility recordtype_id ++ decimal seg.last_id ∷ []) s.visibility;
  counters =
      count_inversion (sorts_below (decimal seg.last_id) (s.visibility recordtype_id)) s.counters;
}

-- `f"segments/{recordtype_id}/{last_id}.{first_id}.jsonl"`
abbrev pub segment_key_of : String → Segment → String
segment_key_of recordtype_id seg = str_append "segments/" (
    str_append recordtype_id (
      str_append "/" (
        str_append (decimal seg.last_id)
          (str_append "." (str_append (decimal seg.first_id) ".jsonl")))))
