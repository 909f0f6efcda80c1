-- ===== src/Server/Lock.antt =====
-- The entry lock of a pid: `claim`, `release` and `pause` of tests/fake_matterbeam/server.py.
pub mod Frees
pub mod Apart
use dlt_matterbeam.Prelude.{
  ℕ, ◌+◌, String, Bool, true, false, Option, none, some, nat_beq, update, if◌then◌else◌,
}
use dlt_matterbeam.Server.{
  Server, Item, Knobs, Outcome, done, fault, contention, terminal, no_such_key, FsmState, listening,
  running, paused,
}

abbrev pub set_item : String → Item → Server → Server
set_item pid item s = record s { pids = update pid (some item) s.pids }

abbrev pub is_paused : FsmState → Bool
is_paused paused = true
is_paused _ = false

abbrev pub count_contention : Server → Server
count_contention s = record s {
  counters = record (s.counters) { lock_contention = s.counters.lock_contention + 1 };
}

abbrev pub claimed : Item → Item
claimed item = record item {
  update_version = item.update_version + 1;
  invoke_semaphore = 0;
  fsm_state = running;
}

abbrev pub released : Item → Item
released item = record item {
  update_version = item.update_version + 1;
  invoke_semaphore = 1;
  fsm_state = listening;
}

module _ (knobs : Knobs) where
  abbrev pub claim_item : String → Option Item → Server → Outcome ℕ × Server
  claim_item pid none s = (fault (no_such_key pid), s)
  claim_item pid (some item) s =
      if is_paused item.fsm_state
      then (fault (terminal "paused"), s)
      else if knobs.lock_on
      then (if nat_beq item.invoke_semaphore 1
          then (done (item.update_version + 1), set_item pid (claimed item) s)
          else (fault contention, count_contention s))
      else (done item.update_version, s)

  unfoldable pub claim : String → Server → Outcome ℕ × Server
  claim pid s = claim_item pid (s.pids pid) s

  abbrev pub release_item : String → ℕ → Option Item → Server → Server
  release_item pid version none s = s
  release_item pid version (some item) s =
      if nat_beq item.update_version version then set_item pid (released item) s else s

  -- a pid that was claimed is there
  unfoldable pub release : String → ℕ → Server → Server
  release pid version s = if knobs.lock_on then release_item pid version (s.pids pid) s else s

  abbrev pub claimed_run :
      {A : Type 0}
      → String
      → (Server → Outcome A × Server)
      → Outcome ℕ
      → Server
      → Outcome A × Server
  claimed_run pid body (fault f) s = (fault f, s)
  claimed_run pid body (done version) s = let r = body s in (r.0, release pid version r.1)

  -- `version = claim(pid)`, then `try: body` and `finally: release(pid, version)`
  unfoldable pub with_lock :
      {A : Type 0} → String → (Server → Outcome A × Server) → Server → Outcome A × Server
  with_lock pid body s = let c = claim pid s in claimed_run pid body c.0 c.1

-- `pause`
unfoldable pub pause : String → Server → Outcome (Unit {0}) × Server
pause pid s = elim (s.pids pid) [
  | none ↦ (fault (no_such_key pid), s)
  | some item ↦ (done tt, set_item pid (record item { fsm_state = paused }) s)
]
