-- ===== src/Server/Ingest/Locks.antt =====
-- The lock over a bulk ingest, a state push and a crash inside either.
use mathlib.Core.Path.{subst}
use dlt_matterbeam.Prelude.{
  ℕ, String, ◌≡◌, refl, Bool, true, false, Option, none, some, List, ◌==◌, eq_iff, Bool-cases, inl,
  inr,
}
use dlt_matterbeam.Json.{Json}
use dlt_matterbeam.Server.{Server, Item, Knobs, Outcome, done, fault, Segment, IngestResult}
use dlt_matterbeam.Server.Lock.Frees.{
  SameLock, SameLock-refl, KeepsLocks, AllFree, with_lock-AllFree,
}
use dlt_matterbeam.Server.State.{write_state, put_dlt_state, store_unless, staleness}
use dlt_matterbeam.Server.Ingest.{
  Call, Moment, committed, marked, entered, result, segment, arrive, store, ingest, ingest_locked,
  commit_if, crash_or, is_at, recordtype_of, take_writer, replayed, ledger_key,
}
use dlt_matterbeam.Server.Ingest.Stages.{Parsed, commit}

-- what holds of the server before and after a crash point holds of either outcome
pub crash_or-keeps :
    {A : Type 0} (P : Server → Type 0) (requested : Option String) (point : String) (s : Server)
    (next : Outcome A × Server)
    → P s
    → P next.1
    → P (crash_or requested point s next).1
crash_or-keeps P requested point s next here after = elim (Bool-cases (is_at requested point)) [
  | inl at ↦ rw (at) here
  | inr past ↦ rw (past) after
]

commit_if-pids :
    (rt : String) (seg : Option Segment) (s : Server) → (commit_if rt seg s).pids ≡ s.pids
unfolding commit
commit_if-pids rt none s = refl
commit_if-pids rt (some seg) s = refl

module _ (knobs : Knobs) (c : Call) (m : Moment) where
  -- a property that holds at each of the states a crash can leave holds of the server left
  pub store-keeps :
      (P : Server → Type 0) (w : ℕ) (parsed : Outcome (List Parsed)) (s : Server)
      → P s
      → ((ps : List Parsed)
          → parsed ≡ done ps
          → P (committed knobs c m w ps s)
            × P (marked knobs c m w ps s)
            × P (entered knobs c m w ps s))
      → P (store knobs c m w parsed s).1
  unfolding store
  store-keeps P w (fault f) s here all = here
  store-keeps P w (done ps) s here all =
      let (p₁, p₂, p₃) = all ps refl in
      crash_or-keeps P m.crash_at "after_commit_before_mark" (committed knobs c m w ps s) _ p₁ (
        crash_or-keeps P m.crash_at "after_mark_before_ledger" (marked knobs c m w ps s) _ p₂ (
          crash_or-keeps P m.crash_at "after_ledger" (entered knobs c m w ps s)
            (done (result knobs c m w ps s), entered knobs c m w ps s) p₃ p₃))

  store-pids :
      (w : ℕ) (parsed : Outcome (List Parsed)) (s : Server)
      → (store knobs c m w parsed s).1.pids ≡ s.pids
  store-pids w parsed s =
      store-keeps (λ x. x.pids ≡ s.pids) w parsed s refl
        λ ps _.
          let same = commit_if-pids (recordtype_of c) (segment knobs c m w ps s) _ in
          (same, same, same)

  take_writer-SameLock :
      (s : Server) (q : String) (o : Option Item)
      → s.pids c.pid ≡ o
      → SameLock (s.pids q) ((take_writer c.pid o s).pids q)
  take_writer-SameLock s q none eq = SameLock-refl (s.pids q)
  take_writer-SameLock s q (some item) eq = elim (Bool-cases (c.pid == q)) [
    | inl same ↦
        let eq_q : s.pids q ≡ some item =
          subst (λ x. s.pids x ≡ some item) ((eq_iff c.pid q).0 same) eq in
        rw (same, eq_q) (refl, refl)
    | inr other ↦ rw (other) (SameLock-refl (s.pids q))
  ]

  arrive-SameLock : (s : Server) (q : String) → SameLock (s.pids q) ((arrive c s).pids q)
  unfolding arrive
  arrive-SameLock s q = take_writer-SameLock s q (s.pids c.pid) refl

  pub ingest_locked-KeepsLocks : KeepsLocks (ingest_locked knobs c m)
  unfolding ingest_locked
  ingest_locked-KeepsLocks s q = elim (Bool-cases (s.closed_loads c.pid c.load_id)) [
    | inl closed ↦ rw (closed) (SameLock-refl (s.pids q))
    | inr opened ↦ rw (opened, store-pids) (arrive-SameLock s q)
  ]

replayed-AllFree :
    (knobs : Knobs) (c : Call) (m : Moment) (o : Option IngestResult) (s : Server)
    → AllFree s
    → AllFree (replayed knobs c m o s).1
replayed-AllFree knobs c m none s free = free
replayed-AllFree knobs c m (some r) s free = free

-- Where no process is locked, none is locked after a bulk ingest either, whatever its outcome: a
-- result, a replay, a refusal, an error of its lines, or a crash at any of the three crash points.
pub ingest-AllFree :
    (knobs : Knobs) (c : Call) (m : Moment) (s : Server)
    → AllFree s
    → AllFree (ingest knobs c m s).1
unfolding ingest
ingest-AllFree knobs c m s free = elim (Bool-cases (s.ledger (ledger_key c))) [
  | inl old ↦ rw (old) (replayed-AllFree knobs c m (s.ledger_results (ledger_key c)) s free)
  | inr new ↦ rw (new) (
      with_lock-AllFree knobs c.pid (ingest_locked knobs c m) (ingest_locked-KeepsLocks knobs c m) s
        free)
]

store_unless-pids :
    (pid : String) (doc : Json) (b : Outcome Bool) (s : Server)
    → (store_unless pid doc b s).1.pids ≡ s.pids
store_unless-pids pid doc (done true) s = refl
store_unless-pids pid doc (done false) s = refl
store_unless-pids pid doc (fault f) s = refl

write_state-KeepsLocks : (pid : String) (doc : Json) → KeepsLocks (write_state pid doc)
unfolding write_state
write_state-KeepsLocks pid doc s q =
    rw (store_unless-pids pid doc (staleness doc (s.process_state pid).dlt_state) s)
      (SameLock-refl (s.pids q))

-- Where no process is locked, none is locked after a push of a state, stored or refused.
pub put_dlt_state-AllFree :
    (knobs : Knobs) (pid : String) (doc : Json) (s : Server)
    → AllFree s
    → AllFree (put_dlt_state knobs pid doc s).1
unfolding put_dlt_state
put_dlt_state-AllFree knobs pid doc =
    with_lock-AllFree knobs pid (write_state pid doc) (write_state-KeepsLocks pid doc)
