-- ===== src/Server/Ingest/Crashes.antt =====
-- An ingest that crashed between the mark of its ids and its ledger entry, and its retry.
use mathlib.Core.Path.{subst}
use dlt_matterbeam.Prelude.{
  ℕ, String, ◌≡◌, ◌≢◌, ◌++◌, refl, ap, sym, ◌∙◌, true, false, Option, none, some, List, [], arith,
  eq_refl, All, contains-append, Bool-cases, inl, inr,
}
use dlt_matterbeam.Json.{Row}
use dlt_matterbeam.Server.{
  Server, Knobs, Outcome, done, fault, Segment, IngestResult, Fault, terminal, chaos_crash,
}
use dlt_matterbeam.Server.Lock.{claim, release}
use dlt_matterbeam.Server.Lock.Apart.{
  stored, claim-stored, release-stored, with_lock-cases, is_crash,
}
use dlt_matterbeam.Server.Ingest.{
  Call, Moment, committed, marked, selected, arrive, store, ingest, ingest_locked, recordtype_of,
  next_writer, ledger_key, commit_if, count_hits, segment, segment_of, begin_ms,
}
use dlt_matterbeam.Server.Ingest.Closed.{arrive-stored, ingest_locked-closed, ingest_locked-opened}
use dlt_matterbeam.Server.Ingest.Locks.{store-keeps}
use dlt_matterbeam.Server.Ingest.Replay.{ingest-new, done-injective}
use dlt_matterbeam.Server.Ingest.Stages.{Parsed, parse_lines, commit, select, stamp}
use dlt_matterbeam.Server.Ingest.Stages.Selection.{has_id, select-again}

fault≢crash :
    {A : Type 0} (f : Fault) (point : String)
    → is_crash f ≡ false
    → ◌≢◌ {A = Outcome A} (fault f) (fault (chaos_crash point))
fault≢crash f point safe eq = ground arith

module _ (rt : String) where
  pub commit_if-ledger :
      (seg : Option Segment) (s : Server) → (commit_if rt seg s).ledger ≡ s.ledger
  unfolding commit
  commit_if-ledger none s = refl
  commit_if-ledger (some seg) s = refl

  pub commit_if-seen :
      (seg : Option Segment) (s : Server) → (commit_if rt seg s).dlt_ids_seen ≡ s.dlt_ids_seen
  unfolding commit
  commit_if-seen none s = refl
  commit_if-seen (some seg) s = refl

module _ (c : Call) (ps : List Parsed) where
  -- the chunk is not in the ledger, and its lines were all seen
  abbrev IsQuiet : Server → Type 0
  IsQuiet s =
      (s.ledger (ledger_key c) ≡ false)
      × ((stamped : Parsed → Row)
          → (select true (s.dlt_ids_seen c.pid c.load_id) stamped ps).records ≡ [])

  IsQuiet-stored : (a b : Server) → stored a ≡ stored b → IsQuiet b → IsQuiet a
  IsQuiet-stored a b same quiet =
      subst
        (λ x.
          (x.0 (ledger_key c) ≡ false)
          × ((stamped : Parsed → Row)
              → (select true (x.2 c.pid c.load_id) stamped ps).records ≡ []))
        (sym same) quiet

  module _ (knobs : Knobs) (m : Moment) (dedup : knobs.dedup_on ≡ true) where
    abbrev stamped_by : Server → Parsed → Row
    stamped_by s = stamp m.now_text (recordtype_of c) c.load_id

    marked-seen :
        (w : ℕ) (s : Server)
        → (marked knobs c m w ps s).dlt_ids_seen c.pid c.load_id
          ≡ s.dlt_ids_seen c.pid c.load_id
            ++ (select true (s.dlt_ids_seen c.pid c.load_id) (stamped_by s) ps).written_ids
    marked-seen w s =
        rw
          (
            eq_refl c.pid,
            eq_refl c.load_id,
            commit_if-seen (recordtype_of c) (segment knobs c m w ps s)
                (count_hits (selected knobs c m ps s).hits s),
            dedup,
          )
          refl

    marked-IsQuiet :
        (w : ℕ) (s : Server)
        → s.ledger (ledger_key c) ≡ false
        → All (λ p. has_id p ≡ true) ps
        → IsQuiet (marked knobs c m w ps s)
    marked-IsQuiet w s new ids =
        let seen = s.dlt_ids_seen c.pid c.load_id in
        let after = seen ++ (select true seen (stamped_by s) ps).written_ids in
        (
          ap (λ f. f (ledger_key c))
                (commit_if-ledger (recordtype_of c) (segment knobs c m w ps s) _)
              ∙ new,
          λ stamped.
              subst (λ x. (select true x stamped ps).records ≡ []) (sym (marked-seen w s))
                (select-again seen after (stamped_by s) stamped ps ids
                  (λ i at. ground (
                    arith,
                    contains-append i seen (select true seen (stamped_by s) ps).written_ids,
                  ))
                  λ i at. ground (
                    arith,
                    contains-append i seen (select true seen (stamped_by s) ps).written_ids,
                  )),
        )

    quiet-segments :
        (w : ℕ) (s : Server)
        → IsQuiet s
        → (parsed : Outcome (List Parsed)) → parsed ≡ done ps
        → (store knobs c m w parsed s).1.segments ≡ s.segments
    quiet-segments w s quiet parsed eq =
        store-keeps knobs c m (λ x. x.segments ≡ s.segments) w parsed s refl
          λ ps' eq'.
            let same : ps' ≡ ps = done-injective (sym eq' ∙ eq) in
            let none_left : (selected knobs c m ps' s).records ≡ [] =
              rw (same, dedup) (quiet.1 (stamped_by s)) in
            let at : (committed knobs c m w ps' s).segments ≡ s.segments =
              ap
                (λ rs.
                  (commit_if (recordtype_of c) (segment_of (begin_ms knobs c m s) w m.noise rs)
                    (count_hits (selected knobs c m ps' s).hits s)).segments)
                none_left in
            (at, at, at)

module _ (knobs : Knobs) (c : Call) (m : Moment) (ps : List Parsed)
    (dedup : knobs.dedup_on ≡ true) where
  store-crash :
      (w : ℕ) (s : Server)
      → m.crash_at ≡ some "after_mark_before_ledger"
      → store knobs c m w (done ps) s
        ≡ (fault (chaos_crash "after_mark_before_ledger"), marked knobs c m w ps s)
  unfolding store
  store-crash w s crash = rw (crash) refl

  locked-segments :
      (s : Server)
      → IsQuiet c ps s
      → parse_lines c.lines ≡ done ps
      → (ingest_locked knobs c m s).1.segments ≡ s.segments
  locked-segments s quiet parsed = elim (Bool-cases (s.closed_loads c.pid c.load_id)) [
    | inl closed ↦ ap (λ x. x.1.segments) (ingest_locked-closed knobs c m s closed)
    | inr opened ↦
        ap (λ x. x.1.segments) (ingest_locked-opened knobs c m s opened)
        ∙ (quiet-segments c ps knobs m dedup (next_writer (s.pids c.pid)) (arrive c s)
              (IsQuiet-stored c ps (arrive c s) s (arrive-stored knobs c m s) quiet)
              (parse_lines c.lines) parsed
            ∙ ap (λ x. x.4) (arrive-stored knobs c m s))
  ]

  locked-IsQuiet :
      (s : Server)
      → s.ledger (ledger_key c) ≡ false
      → m.crash_at ≡ some "after_mark_before_ledger"
      → parse_lines c.lines ≡ done ps
      → All (λ p. has_id p ≡ true) ps
      → (ingest_locked knobs c m s).0 ≡ fault (chaos_crash "after_mark_before_ledger")
      → IsQuiet c ps (ingest_locked knobs c m s).1
  locked-IsQuiet s new crash parsed ids first = elim (Bool-cases (s.closed_loads c.pid c.load_id)) [
    | inl closed ↦
        elim (fault≢crash (terminal "load_closed") "after_mark_before_ledger" refl
          (sym (ap (λ x. x.0) (ingest_locked-closed knobs c m s closed)) ∙ first)) [ ]
    | inr opened ↦
        subst (λ x. IsQuiet c ps x.1)
          (sym (
            ingest_locked-opened knobs c m s opened
            ∙ (ap (λ p. store knobs c m (next_writer (s.pids c.pid)) p (arrive c s)) parsed
                ∙ store-crash (next_writer (s.pids c.pid)) (arrive c s) crash)))
          (marked-IsQuiet c ps knobs m dedup (next_writer (s.pids c.pid)) (arrive c s)
            (ap (λ x. x.0 (ledger_key c)) (arrive-stored knobs c m s) ∙ new) ids)
  ]

  crashed-IsQuiet :
      (s : Server)
      → s.ledger (ledger_key c) ≡ false
      → m.crash_at ≡ some "after_mark_before_ledger"
      → parse_lines c.lines ≡ done ps
      → All (λ p. has_id p ≡ true) ps
      → (ingest knobs c m s).0 ≡ fault (chaos_crash "after_mark_before_ledger")
      → IsQuiet c ps (ingest knobs c m s).1
  crashed-IsQuiet s new crash parsed ids first =
      let s₁ = (claim knobs c.pid s).1 in
      let start = ingest-new knobs c m s new in
      let first_locked = sym (ap (λ x. x.0) start) ∙ first in
      let apart = claim-stored knobs c.pid s in
      subst (λ x. IsQuiet c ps x.1) (sym start)
        (elim (with_lock-cases knobs c.pid (ingest_locked knobs c m) s) [
          | inl (f, safe, at) ↦
              elim (fault≢crash f "after_mark_before_ledger" safe
                (sym (ap (λ x. x.0) at) ∙ first_locked)) [ ]
          | inr (v, at) ↦
              subst (λ x. IsQuiet c ps x.1) (sym at)
                (IsQuiet-stored c ps (release knobs c.pid v (ingest_locked knobs c m s₁).1)
                  (ingest_locked knobs c m s₁).1
                  (release-stored knobs c.pid v (ingest_locked knobs c m s₁).1)
                  (locked-IsQuiet s₁ (ap (λ x. x.0 (ledger_key c)) apart ∙ new) crash parsed ids
                    (sym (ap (λ x. x.0) at) ∙ first_locked)))
        ])

  retry-segments :
      (s : Server)
      → IsQuiet c ps s
      → parse_lines c.lines ≡ done ps
      → (ingest knobs c m s).1.segments ≡ s.segments
  retry-segments s quiet parsed =
      let s₁ = (claim knobs c.pid s).1 in
      let apart = claim-stored knobs c.pid s in
      let quiet₁ = IsQuiet-stored c ps s₁ s apart quiet in
      let P : Outcome IngestResult × Server → Type 0 = λ x. x.1.segments ≡ s.segments in
      subst P (sym (ingest-new knobs c m s quiet.0))
        (elim (with_lock-cases knobs c.pid (ingest_locked knobs c m) s) [
          | inl (f, safe, at) ↦ subst P (sym at) (ap (λ x. x.4) apart)
          | inr (v, at) ↦ subst P (sym at) (
              ap (λ x. x.4) (release-stored knobs c.pid v (ingest_locked knobs c m s₁).1)
              ∙ (locked-segments s₁ quiet₁ parsed ∙ ap (λ x. x.4) apart))
        ])

-- With dedup on, a chunk all of whose lines have ids, and whose ingest crashed between the mark of
-- its ids and its ledger entry, is sent again at any moment: then no segment is written, whatever
-- comes of it. The ledger must not have held the chunk before.
pub ingest_after_crash :
    (knobs : Knobs) (c : Call) (m m' : Moment) (s : Server) (ps : List Parsed)
    → knobs.dedup_on ≡ true
    → s.ledger (ledger_key c) ≡ false
    → m.crash_at ≡ some "after_mark_before_ledger"
    → parse_lines c.lines ≡ done ps
    → All (λ p. has_id p ≡ true) ps
    → (ingest knobs c m s).0 ≡ fault (chaos_crash "after_mark_before_ledger")
    → (ingest knobs c m' (ingest knobs c m s).1).1.segments ≡ (ingest knobs c m s).1.segments
ingest_after_crash knobs c m m' s ps dedup new crash parsed ids first =
    retry-segments knobs c m' ps dedup (ingest knobs c m s).1
      (crashed-IsQuiet knobs c m ps dedup s new crash parsed ids first) parsed
