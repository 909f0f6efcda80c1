-- ===== src/Server/Ingest/Replay.antt =====
-- A chunk that comes again: after its ledger entry, and after its load was closed.
use mathlib.Core.Path.{subst}
use dlt_matterbeam.Prelude.{
  ℕ, String, ◌≡◌, refl, ap, sym, ◌∙◌, true, false, Option, some, List, arith, eq_refl,
  if◌then◌else◌, Bool-cases, inl, inr,
}
use dlt_matterbeam.Server.{Server, Knobs, Outcome, done, fault, IngestResult, terminal}
use dlt_matterbeam.Server.Lock.{with_lock, claim}
use dlt_matterbeam.Server.Lock.Apart.{release-stored, with_lock-cases}
use dlt_matterbeam.Server.Ingest.{
  Call, Moment, committed, marked, entered, result, arrive, store, ingest, ingest_locked, crash_or,
  is_at, replayed, next_writer, ledger_key, count_duplicate,
}
use dlt_matterbeam.Server.Ingest.Stages.{Parsed, parse_lines}

-- the result of a chunk is in the ledger
abbrev pub IsEntered : Call → IngestResult → Server → Type 0
IsEntered c r s = (s.ledger (ledger_key c) ≡ true) × (s.ledger_results (ledger_key c) ≡ some r)

crash_or-IsEntered :
    (c : Call) (requested : Option String) (point : String) (s : Server)
    (next : Outcome IngestResult × Server) (r : IngestResult)
    → (next.0 ≡ done r → IsEntered c r next.1)
    → (crash_or requested point s next).0 ≡ done r
    → IsEntered c r (crash_or requested point s next).1
crash_or-IsEntered c requested point s next r after eq = elim (Bool-cases (is_at requested point)) [
  | inl at ↦ ground arith
  | inr past ↦ ground (arith, after)
]

pub done-injective : {A : Type 0} {a b : A} → done a ≡ done b → a ≡ b
done-injective eq = cc

module _ (knobs : Knobs) (c : Call) (m : Moment) where
  entered-IsEntered :
      (w : ℕ) (ps : List Parsed) (s : Server)
      → IsEntered c (result knobs c m w ps s) (entered knobs c m w ps s)
  entered-IsEntered w ps s = rw (eq_refl (ledger_key c)) (refl, refl)

  store-IsEntered :
      (w : ℕ) (parsed : Outcome (List Parsed)) (s : Server) (r : IngestResult)
      → (store knobs c m w parsed s).0 ≡ done r
      → IsEntered c r (store knobs c m w parsed s).1
  unfolding store
  store-IsEntered w (fault f) s r eq = ground arith
  store-IsEntered w (done ps) s r eq =
      crash_or-IsEntered c m.crash_at "after_commit_before_mark" (committed knobs c m w ps s) _ r
        (crash_or-IsEntered c m.crash_at "after_mark_before_ledger" (marked knobs c m w ps s) _ r (
          crash_or-IsEntered c m.crash_at "after_ledger" (entered knobs c m w ps s)
            (done (result knobs c m w ps s), entered knobs c m w ps s) r
            λ same.
              subst (λ x. IsEntered c x (entered knobs c m w ps s)) (done-injective same)
                (entered-IsEntered w ps s)))
        eq

  ingest_locked-IsEntered :
      (s : Server) (r : IngestResult)
      → (ingest_locked knobs c m s).0 ≡ done r
      → IsEntered c r (ingest_locked knobs c m s).1
  unfolding ingest_locked
  ingest_locked-IsEntered s r eq = elim (Bool-cases (s.closed_loads c.pid c.load_id)) [
    | inl closed ↦ ground arith
    | inr opened ↦ rw (opened) (
        store-IsEntered (next_writer (s.pids c.pid)) (parse_lines c.lines) (arrive c s) r (
          subst
            (λ b.
              (if b
                then (fault (terminal "load_closed"), s)
                else store knobs c m (next_writer (s.pids c.pid)) (parse_lines c.lines)
                    (arrive c s)).0
              ≡ done r)
            opened eq))
  ]

  pub locked-IsEntered :
      (s : Server) (r : IngestResult)
      → (with_lock knobs c.pid (ingest_locked knobs c m) s).0 ≡ done r
      → IsEntered c r (with_lock knobs c.pid (ingest_locked knobs c m) s).1
  locked-IsEntered s r eq = elim (with_lock-cases knobs c.pid (ingest_locked knobs c m) s) [
    | inl (f, safe, at) ↦ ground arith
    | inr (v, at) ↦
        let entered_at = ingest_locked-IsEntered (claim knobs c.pid s).1 r (ground arith) in
        let apart =
          release-stored knobs c.pid v (ingest_locked knobs c m (claim knobs c.pid s).1).1 in
        rw (at) (ground arith)
  ]

pub ingest-new :
    (knobs : Knobs) (c : Call) (m : Moment) (s : Server)
    → s.ledger (ledger_key c) ≡ false
    → ingest knobs c m s ≡ with_lock knobs c.pid (ingest_locked knobs c m) s
unfolding ingest
ingest-new knobs c m s new = rw (new) refl

pub ingest-old :
    (knobs : Knobs) (c : Call) (m : Moment) (s : Server)
    → s.ledger (ledger_key c) ≡ true
    → ingest knobs c m s ≡ replayed knobs c m (s.ledger_results (ledger_key c)) s
unfolding ingest
ingest-old knobs c m s old = rw (old) refl

-- A chunk that was ingested is acknowledged when it comes again, under whatever lines and at whatever
-- moment: with the result it had, marked as a duplicate, and with nothing changed but the counter of
-- the duplicates. The ledger must not have held its key before the first time, and both must have
-- the same key.
pub ingest_again :
    (knobs : Knobs) (c c' : Call) (m m' : Moment) (s : Server) (r : IngestResult)
    → ledger_key c' ≡ ledger_key c
    → s.ledger (ledger_key c) ≡ false
    → (ingest knobs c m s).0 ≡ done r
    → ingest knobs c' m' (ingest knobs c m s).1
      ≡ (done (record r { duplicate = true }), count_duplicate (ingest knobs c m s).1)
ingest_again knobs c c' m m' s r same new first =
    let at = ingest-new knobs c m s new in
    let (held, kept) =
      subst (λ x. x.0 ≡ done r → IsEntered c r x.1) (sym at) (locked-IsEntered knobs c m s r)
        first in
    let s₁ = (ingest knobs c m s).1 in
    ingest-old knobs c' m' s₁ (ap s₁.ledger same ∙ held)
    ∙ ap (λ o. replayed knobs c' m' o s₁) (ap s₁.ledger_results same ∙ kept)
