-- ===== src/Server/Routes/Recorded.antt =====
-- The ledger of tests/fake_matterbeam/server.py and its results, over every operation.
use mathlib.Core.Path.{subst}
use dlt_matterbeam.Prelude.{
  ℕ, String, ◌≡◌, refl, sym, ap, Bool, true, false, Option, none, some, List, Dict, ◌==◌,
  Bool-cases, Option-cases, inl, inr,
}
use dlt_matterbeam.Json.{Json}
use dlt_matterbeam.Server.{Server, Segment, Item, Knobs, Outcome, done, fault, IngestResult}
use dlt_matterbeam.Server.Lock.{with_lock, claim, release}
use dlt_matterbeam.Server.Lock.Apart.{stored, claim-stored, release-stored, with_lock-cases}
use dlt_matterbeam.Server.Registry.{
  register, found_pid, lookup_or_create, registry_key, submit_secrets,
}
use dlt_matterbeam.Server.Build.{create_upload_url, receive_upload, trigger_build, get_build_status}
use dlt_matterbeam.Server.State.{complete_load, put_dlt_state, write_state, store_unless, staleness}
use dlt_matterbeam.Server.Ingest.{
  Call, Moment, ingest, ingest_locked, arrive, replayed, ledger_key, next_writer, marked, entered,
  result, segment, selected, recordtype_of, count_hits, commit_if,
}
use dlt_matterbeam.Server.Ingest.Stages.{Parsed, parse_lines, commit}
use dlt_matterbeam.Server.Ingest.Closed.{arrive-stored}
use dlt_matterbeam.Server.Ingest.Locks.{store-keeps}
use dlt_matterbeam.Server.Ingest.Replay.{ingest-new, ingest-old}
use dlt_matterbeam.Server.Routes.Kept.{IsKept}

abbrev pub IsRecorded : Server → Type 0
IsRecorded s = (k : String) → s.ledger k ≡ true → (r : IngestResult) × (s.ledger_results k ≡ some r)

abbrev book : Server → (String → Bool) × (String → Option IngestResult)
book s = (s.ledger, s.ledger_results)

book-IsRecorded : (s s' : Server) → book s' ≡ book s → IsRecorded s → IsRecorded s'
book-IsRecorded s s' same recorded =
    subst
      (λ (b : (String → Bool) × (String → Option IngestResult)).
        (k : String) → b.0 k ≡ true → (r : IngestResult) × (b.1 k ≡ some r))
      (sym same) recorded

stored-book : (s s' : Server) → stored s' ≡ stored s → book s' ≡ book s
stored-book s s' same = ap (λ x. (x.0, x.1)) same

found-book :
    (kind pid : String) (o : Option Item) (s : Server) → book (found_pid kind pid o s).1 ≡ book s
found-book kind pid none s = refl
found-book kind pid (some item) s = refl

created-book :
    (key kind pid : String) (o : Option String) (s : Server)
    → book (lookup_or_create key kind pid o s).1 ≡ book s
created-book key kind pid (some p) s = found-book kind p (s.pids p) s
created-book key kind pid none s = refl

submit-book :
    (pid : String) (secrets : Dict String) (s : Server)
    → book (submit_secrets pid secrets s).1 ≡ book s
unfolding submit_secrets
submit-book pid secrets s = elim (Option-cases (s.pids pid)) [
  | inl missing ↦ rw (submit_secrets, missing) refl
  | inr (item, there) ↦ rw (submit_secrets, there) refl
]

upload-book :
    (pid filename host token : String) (s : Server)
    → book (create_upload_url pid filename host token s).1 ≡ book s
unfolding create_upload_url
upload-book pid filename host token s = elim (Option-cases (s.pids pid)) [
  | inl missing ↦ rw (create_upload_url, missing) refl
  | inr (item, there) ↦ rw (create_upload_url, there) refl
]

build-book : (pid : String) (s : Server) → book (trigger_build pid s).1 ≡ book s
unfolding trigger_build
build-book pid s = elim (Option-cases (s.pids pid)) [
  | inl missing ↦ rw (trigger_build, missing) refl
  | inr (item, there) ↦ rw (trigger_build, there) refl
]

status-book : (pid : String) (s : Server) → book (get_build_status pid s).1 ≡ book s
unfolding get_build_status
status-book pid s = elim (Option-cases (s.pids pid)) [
  | inl missing ↦ rw (get_build_status, missing) refl
  | inr (item, there) ↦ rw (get_build_status, there) refl
]

receive-book :
    (token : String) (content : List ℕ) (s : Server)
    → book (receive_upload token content s).1 ≡ book s
unfolding receive_upload
receive-book token content s = elim (Option-cases (s.pending_uploads token)) [
  | inl unknown ↦ rw (receive_upload, unknown) refl
  | inr (pending, known) ↦ rw (receive_upload, known) refl
]

store_unless-book :
    (pid : String) (doc : Json) (b : Outcome Bool) (s : Server)
    → book (store_unless pid doc b s).1 ≡ book s
store_unless-book pid doc (done true) s = refl
store_unless-book pid doc (done false) s = refl
store_unless-book pid doc (fault f) s = refl

module _ (knobs : Knobs) where
  -- what a body under the lock keeps of the ledger, the whole call keeps
  with_lock-IsRecorded :
      {A : Type 0} (pid : String) (body : Server → Outcome A × Server) (s : Server)
      → ((t : Server) → IsRecorded t → IsRecorded (body t).1)
      → IsRecorded s
      → IsRecorded (with_lock knobs pid body s).1
  with_lock-IsRecorded pid body s keeps recorded =
      let s₁ = (claim knobs pid s).1 in
      let claimed = book-IsRecorded s s₁ (stored-book s s₁ (claim-stored knobs pid s)) recorded in
      elim (with_lock-cases knobs pid body s) [
        | inl (f, safe, at) ↦ rw (at) claimed
        | inr (v, at) ↦
            let s₂ = (body s₁).1 in
            rw (at) (
              book-IsRecorded s₂ (release knobs pid v s₂)
                (stored-book s₂ (release knobs pid v s₂) (release-stored knobs pid v s₂))
                (keeps s₁ claimed))
      ]

  put-IsRecorded :
      (pid : String) (doc : Json) (s : Server)
      → IsRecorded s
      → IsRecorded (put_dlt_state knobs pid doc s).1
  unfolding put_dlt_state write_state
  put-IsRecorded pid doc s = with_lock-IsRecorded pid (write_state pid doc) s λ t.
      book-IsRecorded t (write_state pid doc t).1
        (store_unless-book pid doc (staleness doc (t.process_state pid).dlt_state) t)

  module _ (c : Call) (m : Moment) where
    commit_if-book :
        (rt : String) (seg : Option Segment) (s : Server) → book (commit_if rt seg s) ≡ book s
    unfolding commit
    commit_if-book rt none s = refl
    commit_if-book rt (some seg) s = refl

    marked-IsRecorded :
        (w : ℕ) (ps : List Parsed) (s : Server)
        → IsRecorded s
        → IsRecorded (marked knobs c m w ps s)
    marked-IsRecorded w ps s = book-IsRecorded s (marked knobs c m w ps s) (
        commit_if-book (recordtype_of c) (segment knobs c m w ps s)
          (count_hits (selected knobs c m ps s).hits s))

    entered-IsRecorded :
        (w : ℕ) (ps : List Parsed) (s : Server)
        → IsRecorded s
        → IsRecorded (entered knobs c m w ps s)
    entered-IsRecorded w ps s recorded k = elim (Bool-cases (ledger_key c == k)) [
      | inl own ↦ rw (own) λ h. (result knobs c m w ps s, refl)
      | inr other ↦ rw (other) (marked-IsRecorded w ps s recorded k)
    ]

    locked-IsRecorded : (s : Server) → IsRecorded s → IsRecorded (ingest_locked knobs c m s).1
    unfolding ingest_locked
    locked-IsRecorded s recorded = elim (Bool-cases (s.closed_loads c.pid c.load_id)) [
      | inl closed ↦ rw (closed) recorded
      | inr opened ↦
          let t = arrive c s in
          let here = book-IsRecorded s t (stored-book s t (arrive-stored knobs c m s)) recorded in
          rw (opened) (
            store-keeps knobs c m IsRecorded (next_writer (s.pids c.pid)) (parse_lines c.lines) t
              here
              λ ps e. (
                marked-IsRecorded (next_writer (s.pids c.pid)) ps t here,
                marked-IsRecorded (next_writer (s.pids c.pid)) ps t here,
                entered-IsRecorded (next_writer (s.pids c.pid)) ps t here,
              ))
    ]

    replayed-IsRecorded :
        (o : Option IngestResult) (s : Server)
        → IsRecorded s
        → IsRecorded (replayed knobs c m o s).1
    replayed-IsRecorded none s recorded = recorded
    replayed-IsRecorded (some r) s recorded = recorded

    ingest-IsRecorded : (s : Server) → IsRecorded s → IsRecorded (ingest knobs c m s).1
    ingest-IsRecorded s recorded = elim (Bool-cases (s.ledger (ledger_key c))) [
      | inl old ↦
          rw (ingest-old knobs c m s old)
            (replayed-IsRecorded (s.ledger_results (ledger_key c)) s recorded)
      | inr new ↦
          rw (ingest-new knobs c m s new)
            (with_lock-IsRecorded c.pid (ingest_locked knobs c m) s locked-IsRecorded recorded)
    ]

  pub IsRecorded-kept : IsKept knobs IsRecorded
  unfolding register complete_load
  IsRecorded-kept = record {
    register = λ key dataset kind pid s.
        let k = registry_key key dataset in
        book-IsRecorded s (register key dataset kind pid s).1
          (created-book k kind pid (s.registry k) s);
    submit_secrets = λ pid secrets s.
        book-IsRecorded s (submit_secrets pid secrets s).1 (submit-book pid secrets s);
    create_upload_url = λ pid filename host token s.
        book-IsRecorded s (create_upload_url pid filename host token s).1
          (upload-book pid filename host token s);
    receive_upload = λ token content s.
        book-IsRecorded s (receive_upload token content s).1 (receive-book token content s);
    trigger_build = λ pid s. book-IsRecorded s (trigger_build pid s).1 (build-book pid s);
    get_build_status = λ pid s. book-IsRecorded s (get_build_status pid s).1 (status-book pid s);
    put_dlt_state = put-IsRecorded;
    complete_load = λ pid load_id s recorded. recorded;
    ingest = ingest-IsRecorded;
  }
