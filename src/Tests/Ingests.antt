-- ===== src/Tests/Ingests.antt =====
-- The server's theorems at one process, one load and a chunk of two lines.
use dlt_matterbeam.Prelude.{
  String, ◌≡◌, ◌≢◌, refl, true, false, ◌+◌, ◌&&◌, arith, Option, none, some, [], ◌∷◌, map, length,
  contains, get_last?, decimal,
}
use dlt_matterbeam.Json.{Json, Row, str, num, object}
use dlt_matterbeam.Json.Int.{pos}
use dlt_matterbeam.Server.{Server, Item, Knobs, init, done, fault, contention, IngestResult}
use dlt_matterbeam.Server.Lock.{set_item, claimed, count_contention, with_lock, claim, release}
use dlt_matterbeam.Server.Lock.Apart.{stored}
use dlt_matterbeam.Server.Segments.{write_segment, pack_record_id, padded, digit_count, digits_in}
use dlt_matterbeam.Server.Segments.Ids.{write_segment_lem, Increasing, AllBelow}
use dlt_matterbeam.Server.Registry.{register, new_item, adopt}
use dlt_matterbeam.Server.Registry.Adoption.{register_again}
use dlt_matterbeam.Server.State.{put_dlt_state, complete_load}
use dlt_matterbeam.Server.State.Pushes.{put_dlt_state-get_dlt_state, Pushed}
use dlt_matterbeam.Server.Ingest.{
  Call, Moment, ingest, ingest_locked, ledger_key, arrive, store, count_duplicate,
}
use dlt_matterbeam.Server.Ingest.Stages.{
  Parsed, parse_line, parse_lines, select, stamp, track_arrival, commit,
}
use dlt_matterbeam.Server.Ingest.Stages.Selection.{select_lem, fresh}
use dlt_matterbeam.Server.Ingest.Replay.{ingest_again}
use dlt_matterbeam.Server.Ingest.Crashes.{ingest_after_crash}
use dlt_matterbeam.Server.Ingest.Closed.{ingest_closed}
use dlt_matterbeam.Server.Ingest.Unmarked.{ingest_unmarked, SameMarks}
use dlt_matterbeam.Server.Ingest.Held.{held_refuses, free_hands_back, IsHandedBack}

abbrev knobs : Knobs
knobs = record { lock_on = true; clamp_on = true; dedup_on = true }

abbrev line : String → Row
line i = ("i", str i) ∷ ("v", object (("id", str i) ∷ [])) ∷ []

abbrev call : Call
call = record {
  pid = "p1";
  table = "users";
  load_id = "load1";
  job_id = "job1";
  seq = "0";
  lines = line "a" ∷ line "b" ∷ [];
}

abbrev at : Option String → Moment
at crash = record { now_ms = 1000; now_text = "now"; noise = 7; crash_at = crash }

abbrev server : Server
unfolding register new_item
server = (register "pipe" "data" "external_dlt" "p1" init).1

abbrev first_result : IngestResult
first_result = record {
  record_count = 2;
  segment_key =
      some "segments/p1.users/10000000000001000010000000007.10000000000000000010000000007.jsonl";
  writer_id = 1;
  first_record_id = some 10000000000000000010000000007;
  last_record_id = some 10000000000001000010000000007;
  duplicate = false;
}

ingest_again_example : ingest knobs call (at none) (ingest knobs call (at none) server).1 ≡ (
  done (record first_result { duplicate = true }),
  count_duplicate (ingest knobs call (at none) server).1,
)
unfolding ingest with_lock claim release ingest_locked arrive store parse_line parse_lines select
    stamp track_arrival commit write_segment pack_record_id padded digit_count digits_in register
    new_item ledger_key decimal
ingest_again_example =
    ingest_again knobs call call (at none) (at none) server first_result refl refl refl

abbrev unledgered : Moment
unledgered = at (some "after_mark_before_ledger")

abbrev parsed : String → Parsed
parsed i = record { dlt_id = some i; body = ("id", str i) ∷ []; is_tombstone = false }

ingest_after_crash_example :
    (ingest knobs call (at none) (ingest knobs call unledgered server).1).1.segments
    ≡ (ingest knobs call unledgered server).1.segments
unfolding ingest with_lock claim release ingest_locked arrive store parse_line parse_lines select
    stamp track_arrival commit write_segment pack_record_id padded digit_count digits_in register
    new_item ledger_key decimal
ingest_after_crash_example =
    ingest_after_crash knobs call unledgered (at none) server (parsed "a" ∷ parsed "b" ∷ []) refl
      refl refl refl (refl, (refl, tt)) refl

ingest_unmarked_example :
    SameMarks server (ingest knobs call (at (some "after_commit_before_mark")) server).1
unfolding ingest with_lock claim release ingest_locked arrive store parse_line parse_lines select
    stamp track_arrival commit write_segment pack_record_id padded digit_count digits_in register
    new_item ledger_key decimal
ingest_unmarked_example =
    ingest_unmarked knobs call (at (some "after_commit_before_mark")) refl server refl

abbrev state : Json
state = object (("version", num (pos 2)) ∷ [])

put_dlt_state-get_dlt_state_example :
    Pushed "p1" state (server.process_state "p1").dlt_state (put_dlt_state knobs "p1" state server)
put_dlt_state-get_dlt_state_example = put_dlt_state-get_dlt_state knobs "p1" state server

abbrev closed : Server
unfolding complete_load
closed = complete_load "p1" "load1" server

ingest_closed_example :
    (stored (ingest knobs call (at none) closed).1 ≡ stored closed)
    × ((r : IngestResult) → (ingest knobs call (at none) closed).0 ≢ done r)
unfolding register new_item complete_load
ingest_closed_example = ingest_closed knobs call (at none) closed refl refl

abbrev body_of : Parsed → Row
body_of p = p.body

select_lem_example :
    ((select true ("a" ∷ []) body_of (parsed "a" ∷ parsed "b" ∷ [])).records
      ≡ map body_of (fresh true ("a" ∷ []) (parsed "a" ∷ parsed "b" ∷ [])))
    × ((select true ("a" ∷ []) body_of (parsed "a" ∷ parsed "b" ∷ [])).hits
          + length (select true ("a" ∷ []) body_of (parsed "a" ∷ parsed "b" ∷ [])).records
        ≡ 2)
    × ((i : String)
        → (true
            && (contains i ("a" ∷ [])
                && contains i
                    (select true ("a" ∷ []) body_of (parsed "a" ∷ parsed "b" ∷ [])).written_ids))
          ≡ false)
select_lem_example = select_lem true ("a" ∷ []) body_of (parsed "a" ∷ parsed "b" ∷ [])

abbrev row : Row
row = ("id", str "a") ∷ []

write_segment_lem_example :
    let segment = write_segment 5 99999 9 row (row ∷ []) in
    (map (λ x. x.1) segment.facts ≡ row ∷ row ∷ [])
    × Increasing segment.facts
    × (get_last? (map (λ x. x.0) segment.facts) ≡ some segment.last_id)
    × AllBelow segment.facts (write_segment 6 0 0 row []).facts
write_segment_lem_example =
    write_segment_lem 5 6 99999 0 9 0 row row (row ∷ []) [] (omega arith) (omega arith)
      (omega arith) (omega arith) (omega arith) (omega arith) (omega arith)

register_again_example :
    (item : Item) × (server.pids "p1" ≡ some item)
    × (register "pipe" "data" "hosted_dlt" "p2" server
        ≡ (done ("p1", false), set_item "p1" (adopt "hosted_dlt" item) server))
unfolding register new_item
register_again_example =
    register_again "pipe" "data" "external_dlt" "hosted_dlt" "p1" "p2" "p1" true init server refl

abbrev fresh_item : Item
unfolding new_item
fresh_item = new_item "external_dlt"

abbrev held : Server
held = set_item "p1" (claimed fresh_item) server

held_refuses_example :
    (ingest knobs call (at none) held ≡ (fault contention, count_contention held))
    × (put_dlt_state knobs "p1" state held ≡ (fault contention, count_contention held))
unfolding register new_item
held_refuses_example =
    held_refuses knobs "p1" (claimed fresh_item) held refl refl refl call (at none) state refl refl
      refl

free_hands_back_example : IsHandedBack "p1" fresh_item (ingest knobs call unledgered server).1
unfolding register new_item
free_hands_back_example =
    free_hands_back knobs "p1" fresh_item server refl refl refl call unledgered refl refl refl
