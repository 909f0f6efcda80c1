-- ===== src/Server/Ingest/Unmarked.antt =====
-- An ingest that crashed between the commit of its segment and the mark of its ids.
use mathlib.Core.Path.{subst}
use dlt_matterbeam.Prelude.{ℕ, ◌≡◌, refl, ap, sym, ◌∙◌, false, some, List, Bool-cases, inl, inr}
use dlt_matterbeam.Server.{Server, Knobs, Outcome, done, fault}
use dlt_matterbeam.Server.Lock.{claim, release}
use dlt_matterbeam.Server.Lock.Apart.{claim-stored, release-stored, with_lock-cases}
use dlt_matterbeam.Server.Ingest.{
  Call, Moment, selected, segment, arrive, store, ingest, ingest_locked, recordtype_of, next_writer,
  ledger_key, count_hits,
}
use dlt_matterbeam.Server.Ingest.Closed.{arrive-stored, ingest_locked-closed, ingest_locked-opened}
use dlt_matterbeam.Server.Ingest.Crashes.{commit_if-ledger, commit_if-seen}
use dlt_matterbeam.Server.Ingest.Replay.{ingest-new}
use dlt_matterbeam.Server.Ingest.Stages.{Parsed, parse_lines}

-- the ledger and the ids seen are those of another state
abbrev pub SameMarks : Server → Server → Type 0
SameMarks s a = (a.ledger ≡ s.ledger) × (a.dlt_ids_seen ≡ s.dlt_ids_seen)

SameMarks-trans : (a b c : Server) → SameMarks a b → SameMarks b c → SameMarks a c
SameMarks-trans a b c ab bc = (bc.0 ∙ ab.0, bc.1 ∙ ab.1)

module _ (knobs : Knobs) (c : Call) (m : Moment)
    (crash : m.crash_at ≡ some "after_commit_before_mark") where
  store-SameMarks :
      (w : ℕ) (parsed : Outcome (List Parsed)) (s : Server)
      → SameMarks s (store knobs c m w parsed s).1
  unfolding store
  store-SameMarks w (fault f) s = (refl, refl)
  store-SameMarks w (done ps) s =
      let seg = segment knobs c m w ps s in
      let counted = count_hits (selected knobs c m ps s).hits s in
      rw (crash) (
        commit_if-ledger (recordtype_of c) seg counted,
        commit_if-seen (recordtype_of c) seg counted,
      )

  locked-SameMarks : (s : Server) → SameMarks s (ingest_locked knobs c m s).1
  locked-SameMarks s = elim (Bool-cases (s.closed_loads c.pid c.load_id)) [
    | inl closed ↦
        subst (λ x. SameMarks s x.1) (sym (ingest_locked-closed knobs c m s closed)) (refl, refl)
    | inr opened ↦
        let same = arrive-stored knobs c m s in
        subst (λ x. SameMarks s x.1) (sym (ingest_locked-opened knobs c m s opened))
          (SameMarks-trans s (arrive c s)
            (store knobs c m (next_writer (s.pids c.pid)) (parse_lines c.lines) (arrive c s)).1
            (ap (λ x. x.0) same, ap (λ x. x.2) same)
            (store-SameMarks (next_writer (s.pids c.pid)) (parse_lines c.lines) (arrive c s)))
  ]

  -- An ingest that is to crash between the commit and the mark leaves the ledger and the ids seen as
  -- they were.
  pub ingest_unmarked :
      (s : Server) → s.ledger (ledger_key c) ≡ false → SameMarks s (ingest knobs c m s).1
  ingest_unmarked s new =
      let s₁ = (claim knobs c.pid s).1 in
      let same = claim-stored knobs c.pid s in
      let claimed : SameMarks s s₁ = (ap (λ x. x.0) same, ap (λ x. x.2) same) in
      subst (λ x. SameMarks s x.1) (sym (ingest-new knobs c m s new))
        (elim (with_lock-cases knobs c.pid (ingest_locked knobs c m) s) [
          | inl (f, safe, at) ↦ subst (λ x. SameMarks s x.1) (sym at) claimed
          | inr (v, at) ↦
              let out = (ingest_locked knobs c m s₁).1 in
              let left = release-stored knobs c.pid v out in
              subst (λ x. SameMarks s x.1) (sym at)
                (SameMarks-trans s s₁ (release knobs c.pid v out) claimed (
                  SameMarks-trans s₁ out (release knobs c.pid v out) (locked-SameMarks s₁)
                    (ap (λ x. x.0) left, ap (λ x. x.2) left)))
        ])
