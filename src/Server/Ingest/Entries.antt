-- ===== src/Server/Ingest/Entries.antt =====
-- The entries of the ledger over an `ingest` of tests/fake_matterbeam/server.py.
use mathlib.Core.Path.{subst}
use dlt_matterbeam.Prelude.{
  ℕ, List, String, ◌≡◌, refl, ap, sym, ◌∙◌, true, Option, none, some, ◌==◌, Bool-cases,
  Option-cases, inl, inr,
}
use dlt_matterbeam.Server.{Server, Segment, Knobs, Outcome, done, fault, IngestResult}
use dlt_matterbeam.Server.Lock.{with_lock, claim, release}
use dlt_matterbeam.Server.Lock.Apart.{stored, claim-stored, release-stored, with_lock-cases}
use dlt_matterbeam.Server.Ingest.{
  Call, Moment, committed, marked, entered, result, segment, selected, recordtype_of, count_hits,
  commit_if, arrive, store, ingest, ingest_locked, crash_or, is_at, replayed, next_writer,
  ledger_key, count_duplicate,
}
use dlt_matterbeam.Server.Ingest.Stages.{Parsed, parse_lines, commit}
use dlt_matterbeam.Server.Ingest.Closed.{arrive-stored, fault≢done}
use dlt_matterbeam.Server.Ingest.Replay.{IsEntered, locked-IsEntered, ingest-new, ingest-old}

abbrev pub HasEntry : String → Server → Type 0
HasEntry k s = (s.ledger k ≡ true) × ((r : IngestResult) × (s.ledger_results k ≡ some r))

-- every entry of the one server is in the other
abbrev pub Remembers : Server → Server → Type 0
Remembers s s' = (k : String) → HasEntry k s → HasEntry k s'

stored-Remembers : (s s' : Server) → stored s' ≡ stored s → Remembers s s'
stored-Remembers s s' eq k (held, (r, kept)) =
    (ap (λ x. x.0 k) eq ∙ held, (r, ap (λ x. x.1 k) eq ∙ kept))

crash_or-Remembers :
    (requested : Option String) (point : String) (s t : Server)
    (next : Outcome IngestResult × Server)
    → Remembers s t
    → Remembers s next.1
    → Remembers s (crash_or requested point t next).1
crash_or-Remembers requested point s t next here after = elim (Bool-cases (is_at requested point)) [
  | inl at ↦ rw (at) here
  | inr past ↦ rw (past) after
]

commit_if-Remembers :
    (recordtype_id : String) (seg : Option Segment) (s : Server)
    → Remembers s (commit_if recordtype_id seg s)
unfolding commit
commit_if-Remembers recordtype_id none s k h = h
commit_if-Remembers recordtype_id (some seg) s k h = h

module _ (knobs : Knobs) (c : Call) (m : Moment) where
  marked-Remembers : (w : ℕ) (ps : List Parsed) (s : Server) → Remembers s (marked knobs c m w ps s)
  marked-Remembers w ps s k h =
      commit_if-Remembers (recordtype_of c) (segment knobs c m w ps s)
        (count_hits (selected knobs c m ps s).hits s) k h

  entered-Remembers :
      (w : ℕ) (ps : List Parsed) (s : Server) → Remembers s (entered knobs c m w ps s)
  entered-Remembers w ps s k h = elim (Bool-cases (ledger_key c == k)) [
    | inl own ↦ rw (own) (refl, (result knobs c m w ps s, refl))
    | inr other ↦ rw (other) (marked-Remembers w ps s k h)
  ]

  store-Remembers :
      (w : ℕ) (parsed : Outcome (List Parsed)) (s : Server)
      → Remembers s (store knobs c m w parsed s).1
  unfolding store
  store-Remembers w (fault f) s = λ k h. h
  store-Remembers w (done ps) s =
      let after = entered-Remembers w ps s in
      let before = marked-Remembers w ps s in
      crash_or-Remembers m.crash_at "after_commit_before_mark" s (committed knobs c m w ps s) _
        before
        (crash_or-Remembers m.crash_at "after_mark_before_ledger" s (marked knobs c m w ps s) _
          before
          (crash_or-Remembers m.crash_at "after_ledger" s (entered knobs c m w ps s) _ after after))

  ingest_locked-Remembers : (s : Server) → Remembers s (ingest_locked knobs c m s).1
  unfolding ingest_locked
  ingest_locked-Remembers s = elim (Bool-cases (s.closed_loads c.pid c.load_id)) [
    | inl closed ↦ rw (closed) (λ k h. h)
    | inr opened ↦ rw (opened) λ k h.
        store-Remembers (next_writer (s.pids c.pid)) (parse_lines c.lines) (arrive c s) k
          (stored-Remembers s (arrive c s) (arrive-stored knobs c m s) k h)
  ]

  locked-Remembers :
      (s : Server) → Remembers s (with_lock knobs c.pid (ingest_locked knobs c m) s).1
  locked-Remembers s =
      let s₁ = (claim knobs c.pid s).1 in
      let claimed = stored-Remembers s s₁ (claim-stored knobs c.pid s) in
      elim (with_lock-cases knobs c.pid (ingest_locked knobs c m) s) [
        | inl (f, safe, at) ↦ rw (at) claimed
        | inr (v, at) ↦ rw (at) λ k h.
            let s₂ = (ingest_locked knobs c m s₁).1 in
            stored-Remembers s₂ (release knobs c.pid v s₂) (release-stored knobs c.pid v s₂) k
              (ingest_locked-Remembers s₁ k (claimed k h))
      ]

  replayed-Remembers :
      (o : Option IngestResult) (s : Server) → Remembers s (replayed knobs c m o s).1
  replayed-Remembers none s k h = h
  replayed-Remembers (some r) s k h = h

  -- whatever becomes of a call, no entry is lost
  pub ingest-Remembers : (s : Server) → Remembers s (ingest knobs c m s).1
  ingest-Remembers s = elim (Bool-cases (s.ledger (ledger_key c))) [
    | inl old ↦
        rw (ingest-old knobs c m s old) (replayed-Remembers (s.ledger_results (ledger_key c)) s)
    | inr new ↦ rw (ingest-new knobs c m s new) (locked-Remembers s)
  ]

  -- a call that returned has an entry
  pub ingest-HasEntry :
      (s : Server) (r : IngestResult)
      → (ingest knobs c m s).0 ≡ done r
      → HasEntry (ledger_key c) (ingest knobs c m s).1
  ingest-HasEntry s r returned = elim (Bool-cases (s.ledger (ledger_key c))) [
    | inl old ↦ elim (Option-cases (s.ledger_results (ledger_key c))) [
      | inl lost ↦
          let at = ingest-old knobs c m s old ∙ ap (λ o. replayed knobs c m o s) lost in
          absurd (fault≢done _ r (sym (ap (λ x. x.0) at) ∙ returned))
      | inr (r', kept) ↦ ingest-Remembers s (ledger_key c) (old, (r', kept))
    ]
    | inr new ↦
        let at = ingest-new knobs c m s new in
        let (held, kept) =
          subst (λ x. x.0 ≡ done r → IsEntered c r x.1) (sym at) (locked-IsEntered knobs c m s r)
            returned in
        (held, (r, kept))
  ]

  -- a call with an entry changes the count of the duplicates only
  pub ingest-entered :
      (s : Server)
      → HasEntry (ledger_key c) s
      → (r : IngestResult) × (ingest knobs c m s ≡ (done r, count_duplicate s))
  ingest-entered s (held, (r, kept)) = (
    record r { duplicate = true },
    ingest-old knobs c m s held ∙ ap (λ o. replayed knobs c m o s) kept,
  )
