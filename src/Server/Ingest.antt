-- ===== src/Server/Ingest.antt =====
-- The bulk ingest of tests/fake_matterbeam/server.py. A line stands for its record; the clock, the
-- formatted time, the noise of record ids and the crash that a test asks for are in the call.
pub mod Stages
pub mod Locks
pub mod Held
pub mod Replay
pub mod Closed
pub mod Crashes
pub mod Unmarked
pub mod Entries
use Prim.Native.String.{◌++◌ as str_append}
use dlt_matterbeam.Prelude.{
  ℕ, ◌+◌, ◌%◌, String, Bool, true, false, ◌||◌, Option, none, some, List, [], ◌∷◌, ◌++◌, ◌==◌, max,
  update, length, if◌then◌else◌,
}
use dlt_matterbeam.Json.{Row}
use dlt_matterbeam.Server.{
  Server, Item, Knobs, RtState, IngestResult, Segment, Outcome, done, fault, terminal, chaos_crash,
  no_such_key, malformed,
}
use dlt_matterbeam.Server.Segments.{write_segment}
use dlt_matterbeam.Server.Lock.{set_item, with_lock}
use Stages.{
  Parsed, parse_lines, Stamped, select, stamp, track_arrival, begin_of, commit, segment_key_of,
  set_rt, get_rt,
}

pub record Call : Type 0 where
  pub pid : String
  pub table : String
  pub load_id : String
  pub job_id : String
  pub seq : String
  pub lines : List Row

pub record Moment : Type 0 where
  pub now_ms : ℕ
  pub now_text : String
  pub noise : ℕ
  pub crash_at : Option String

-- `f"{pid}|{load_id}|{job_id}|{seq}"`
unfoldable pub ledger_key : Call → String
ledger_key c = str_append c.pid (
    str_append "|"
      (str_append c.load_id (str_append "|" (str_append c.job_id (str_append "|" c.seq)))))

abbrev pub recordtype_of : Call → String
recordtype_of c = str_append c.pid (str_append "." c.table)

-- the writer id of this request, after those before it
abbrev pub next_writer : Option Item → ℕ
next_writer none = 0
next_writer (some item) = (item.writer_seq + 1) % 65536

abbrev pub take_writer : String → Option Item → Server → Server
take_writer pid none s = s
take_writer pid (some item) s =
    set_item pid (record item { writer_seq = next_writer (some item) }) s

abbrev pub count_resurrection : Bool → Server → Server
count_resurrection resurrected s = record s {
  counters = record (s.counters) {
    stale_resurrections = s.counters.stale_resurrections + (if resurrected then 1 else 0);
  };
}

-- the writer id is taken and the job's arrival noted
unfoldable pub arrive : Call → Server → Server
arrive c s =
    let seen = track_arrival c.job_id (get_rt c.pid (recordtype_of c) s) in
    count_resurrection seen.1
      (set_rt c.pid (recordtype_of c) seen.0 (take_writer c.pid (s.pids c.pid) s))

abbrev pub count_hits : ℕ → Server → Server
count_hits hits s = record s {
  counters = record (s.counters) { record_dedup_hits = s.counters.record_dedup_hits + hits };
}

abbrev pub mark_seen : Call → List String → Server → Server
mark_seen c ids s = record s {
  dlt_ids_seen =
      update c.pid (update c.load_id (s.dlt_ids_seen c.pid c.load_id ++ ids) (s.dlt_ids_seen c.pid))
        s.dlt_ids_seen;
}

abbrev pub last_of : Option Segment → Option ℕ → Option ℕ
last_of none before = before
last_of (some seg) before = some seg.last_id

abbrev pub raise_water : Call → ℕ → Option Segment → Server → Server
raise_water c begin_ms seg s =
    let rt = get_rt c.pid (recordtype_of c) s in
    set_rt c.pid (recordtype_of c)
      (record rt {
        high_water_ms = max rt.high_water_ms begin_ms;
        last_record_id = last_of seg rt.last_record_id;
      })
      s

abbrev pub result_of : Call → ℕ → ℕ → Option Segment → IngestResult
result_of c writer_id count none = record {
  record_count = count;
  segment_key = none;
  writer_id = writer_id;
  first_record_id = none;
  last_record_id = none;
  duplicate = false;
}
result_of c writer_id count (some seg) = record {
  record_count = count;
  segment_key = some (segment_key_of (recordtype_of c) seg);
  writer_id = writer_id;
  first_record_id = some seg.first_id;
  last_record_id = some seg.last_id;
  duplicate = false;
}

abbrev pub enter : Call → IngestResult → Server → Server
enter c r s = record s {
  ledger = update (ledger_key c) true s.ledger;
  ledger_results = update (ledger_key c) (some r) s.ledger_results;
}

abbrev pub is_at : Option String → String → Bool
is_at none point = false
is_at (some p) point = p == point

-- `_chaos_crash`, and what follows where it does not raise
abbrev pub crash_or :
    {A : Type 0} → Option String → String → Server → Outcome A × Server → Outcome A × Server
crash_or requested point s next =
    if is_at requested point then (fault (chaos_crash point), s) else next

-- the segment of some records; none of none
abbrev pub segment_of : ℕ → ℕ → ℕ → List Row → Option Segment
segment_of begin_ms writer_id noise [] = none
segment_of begin_ms writer_id noise (r ∷ rs) = some (write_segment begin_ms writer_id noise r rs)

abbrev pub commit_if : String → Option Segment → Server → Server
commit_if recordtype_id none s = s
commit_if recordtype_id (some seg) s = commit recordtype_id seg s

abbrev pub count_duplicate : Server → Server
count_duplicate s = record s {
  counters = record (s.counters) { duplicates = s.counters.duplicates + 1 };
}

module _ (knobs : Knobs) (c : Call) (m : Moment) where
  abbrev pub selected : List Parsed → Server → Stamped
  selected parsed s =
      select knobs.dedup_on (s.dlt_ids_seen c.pid c.load_id)
        (stamp m.now_text (recordtype_of c) c.load_id) parsed

  abbrev pub begin_ms : Server → ℕ
  begin_ms s = begin_of knobs.clamp_on m.now_ms (get_rt c.pid (recordtype_of c) s)

  abbrev pub segment : ℕ → List Parsed → Server → Option Segment
  segment writer_id parsed s = segment_of (begin_ms s) writer_id m.noise (selected parsed s).records

  abbrev pub committed : ℕ → List Parsed → Server → Server
  committed writer_id parsed s =
      commit_if (recordtype_of c) (segment writer_id parsed s)
        (count_hits (selected parsed s).hits s)

  abbrev pub marked : ℕ → List Parsed → Server → Server
  marked writer_id parsed s =
      mark_seen c (selected parsed s).written_ids (committed writer_id parsed s)

  abbrev pub result : ℕ → List Parsed → Server → IngestResult
  result writer_id parsed s =
      result_of c writer_id (length (selected parsed s).records) (segment writer_id parsed s)

  -- the result is entered in the ledger after all else
  abbrev pub entered : ℕ → List Parsed → Server → Server
  entered writer_id parsed s =
      enter c (result writer_id parsed s)
        (raise_water c (begin_ms s) (segment writer_id parsed s) (marked writer_id parsed s))

  -- from the parsed lines on: the commit, the mark, and the ledger, in this order
  unfoldable pub store : ℕ → Outcome (List Parsed) → Server → Outcome IngestResult × Server
  store writer_id (fault f) s = (fault f, s)
  store writer_id (done parsed) s =
      crash_or m.crash_at "after_commit_before_mark" (committed writer_id parsed s) (
        crash_or m.crash_at "after_mark_before_ledger" (marked writer_id parsed s) (
          crash_or m.crash_at "after_ledger" (entered writer_id parsed s)
            (done (result writer_id parsed s), entered writer_id parsed s)))

  -- what runs under the lock
  unfoldable pub ingest_locked : Server → Outcome IngestResult × Server
  ingest_locked s =
      let go = store (next_writer (s.pids c.pid)) (parse_lines c.lines) (arrive c s) in
      if s.closed_loads c.pid c.load_id then (fault (terminal "load_closed"), s) else go

  abbrev pub replayed : Option IngestResult → Server → Outcome IngestResult × Server
  replayed none s = (fault (no_such_key (ledger_key c)), count_duplicate s)
  replayed (some r) s = (done (record r { duplicate = true }), count_duplicate s)

  -- `ingest`: a chunk in the ledger is acknowledged before anything else
  unfoldable pub ingest : Server → Outcome IngestResult × Server
  ingest s =
      if s.ledger (ledger_key c)
      then replayed (s.ledger_results (ledger_key c)) s
      else with_lock knobs c.pid ingest_locked s
