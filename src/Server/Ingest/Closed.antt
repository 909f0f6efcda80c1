-- ===== src/Server/Ingest/Closed.antt =====
-- An ingest into a load that was closed.
use mathlib.Core.Path.{subst}
use dlt_matterbeam.Prelude.{
  ◌≡◌, ◌≢◌, refl, ap, sym, ◌∙◌, Bool, true, false, Option, none, some, arith, inl, inr,
}
use dlt_matterbeam.Server.{Server, Item, Knobs, Outcome, done, fault, IngestResult, Fault, terminal}
use dlt_matterbeam.Server.Lock.{claim, release}
use dlt_matterbeam.Server.Lock.Apart.{stored, claim-stored, release-stored, with_lock-cases}
use dlt_matterbeam.Server.Ingest.{
  Call, Moment, arrive, store, ingest, ingest_locked, next_writer, ledger_key, take_writer,
}
use dlt_matterbeam.Server.Ingest.Replay.{ingest-new}
use dlt_matterbeam.Server.Ingest.Stages.{parse_lines}

pub fault≢done : {A : Type 0} (f : Fault) (r : A) → fault f ≢ done r
fault≢done f r eq = ground arith

module _ (knobs : Knobs) (c : Call) (m : Moment) where
  take_writer-stored : (o : Option Item) (s : Server) → stored (take_writer c.pid o s) ≡ stored s
  take_writer-stored none s = refl
  take_writer-stored (some item) s = refl

  pub arrive-stored : (s : Server) → stored (arrive c s) ≡ stored s
  unfolding arrive
  arrive-stored s = take_writer-stored (s.pids c.pid) s

  -- what runs under the lock, by whether the load is closed
  pub ingest_locked-closed :
      (s : Server)
      → s.closed_loads c.pid c.load_id ≡ true
      → ingest_locked knobs c m s ≡ (fault (terminal "load_closed"), s)
  unfolding ingest_locked
  ingest_locked-closed s closed = rw (closed) refl

  pub ingest_locked-opened :
      (s : Server)
      → s.closed_loads c.pid c.load_id ≡ false
      → ingest_locked knobs c m s
        ≡ store knobs c m (next_writer (s.pids c.pid)) (parse_lines c.lines) (arrive c s)
  unfolding ingest_locked
  ingest_locked-opened s opened = rw (opened) refl

  -- the closed loads are the same under the lock
  pub claim-closed :
      (s : Server) (b : Bool)
      → s.closed_loads c.pid c.load_id ≡ b
      → (claim knobs c.pid s).1.closed_loads c.pid c.load_id ≡ b
  claim-closed s b eq = ap (λ x. x.3 c.pid c.load_id) (claim-stored knobs c.pid s) ∙ eq

  -- A chunk of a closed load, not in the ledger, is refused whatever its lines: it has no result,
  -- and the ledger, the ids seen, the closed loads and the segments stay as they were.
  pub ingest_closed :
      (s : Server)
      → s.closed_loads c.pid c.load_id ≡ true
      → s.ledger (ledger_key c) ≡ false
      → (stored (ingest knobs c m s).1 ≡ stored s)
        × ((r : IngestResult) → (ingest knobs c m s).0 ≢ done r)
  ingest_closed s closed new =
      let P : Outcome IngestResult × Server → Type 0 =
        λ x. (stored x.1 ≡ stored s) × ((r : IngestResult) → x.0 ≢ done r) in
      let s₁ = (claim knobs c.pid s).1 in
      subst P (sym (ingest-new knobs c m s new))
        (elim (with_lock-cases knobs c.pid (ingest_locked knobs c m) s) [
          | inl (f, safe, at) ↦ subst P (sym at) (claim-stored knobs c.pid s, fault≢done f)
          | inr (v, at) ↦
              subst P
                (sym (
                  at
                  ∙ ap (λ y. (y.0, release knobs c.pid v y.1))
                      (ingest_locked-closed s₁ (claim-closed s true closed))))
                (
                  release-stored knobs c.pid v s₁ ∙ claim-stored knobs c.pid s,
                  fault≢done (terminal "load_closed"),
                )
        ])
