-- ===== src/Server/Routes/Calm.antt =====
-- Where `ingest` of tests/fake_matterbeam/server.py raises contention.
use dlt_matterbeam.Prelude.{
  ℕ, ◌≡◌, refl, ap, ◌∙◌, true, false, Option, some, List, [], ◌∷◌, arith, Bool-cases, inl, inr,
  String,
}
use dlt_matterbeam.Json.{Row}
use dlt_matterbeam.Server.{Server, Item, Knobs, Outcome, done, fault}
use dlt_matterbeam.Server.Lock.{is_paused, set_item, claimed}
use dlt_matterbeam.Server.Ingest.{
  Call, Moment, ingest, ingest_locked, store, crash_or, is_at, ledger_key, next_writer, arrive,
}
use dlt_matterbeam.Server.Ingest.Held.{with_lock-free}
use dlt_matterbeam.Server.Ingest.Replay.{ingest-new}
use dlt_matterbeam.Server.Ingest.Stages.{Parsed, parse_line, parse_lines}
use dlt_matterbeam.Server.Routes.Api.{is_contention}

parse_line_calm : (line : Row) → is_contention (parse_line line) ≡ false
unfolding parse_line
parse_line_calm line = ground arith

parse_lines_calm : (lines : List Row) → is_contention (parse_lines lines) ≡ false
unfolding parse_lines
parse_lines_calm [] = refl
parse_lines_calm (line ∷ lines) = ground (arith, parse_line_calm line, parse_lines_calm lines)

crash_or_calm :
    {A : Type 0} (requested : Option String) (point : String) (s : Server)
    (next : Outcome A × Server)
    → is_contention next.0 ≡ false
    → is_contention (crash_or requested point s next).0 ≡ false
crash_or_calm requested point s next calm = elim (Bool-cases (is_at requested point)) [
  | inl at ↦ rw (at) refl
  | inr past ↦ rw (past) calm
]

module _ (knobs : Knobs) (c : Call) (m : Moment) where
  store_calm :
      (w : ℕ) (parsed : Outcome (List Parsed)) (s : Server)
      → is_contention parsed ≡ false
      → is_contention (store knobs c m w parsed s).0 ≡ false
  unfolding store
  store_calm w (fault f) s calm = calm
  store_calm w (done ps) s calm = crash_or_calm m.crash_at "after_commit_before_mark" _ _ (
      crash_or_calm m.crash_at "after_mark_before_ledger" _ _
        (crash_or_calm m.crash_at "after_ledger" _ _ refl))

  ingest_locked_calm : (s : Server) → is_contention (ingest_locked knobs c m s).0 ≡ false
  unfolding ingest_locked
  ingest_locked_calm s = elim (Bool-cases (s.closed_loads c.pid c.load_id)) [
    | inl closed ↦ rw (closed) refl
    | inr going ↦ rw (going) (
        store_calm (next_writer (s.pids c.pid)) (parse_lines c.lines) (arrive c s)
          (parse_lines_calm c.lines))
  ]

  pub ingest_calm :
      (item : Item) (s : Server)
      → knobs.lock_on ≡ true
      → s.pids c.pid ≡ some item
      → is_paused item.fsm_state ≡ false
      → item.invoke_semaphore ≡ 1
      → s.ledger (ledger_key c) ≡ false
      → is_contention (ingest knobs c m s).0 ≡ false
  ingest_calm item s on there listens free new =
      ap (λ x. is_contention x.0)
        (ingest-new knobs c m s new
          ∙ with_lock-free knobs c.pid item s on there listens (ingest_locked knobs c m) free)
      ∙ ingest_locked_calm (set_item c.pid (claimed item) s)
