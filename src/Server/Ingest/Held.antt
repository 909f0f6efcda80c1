-- ===== src/Server/Ingest/Held.antt =====
-- A call that meets a lock which another call holds, and one that finds it free.
use mathlib.Core.Path.{subst}
use dlt_matterbeam.Prelude.{
  ◌+◌, String, ◌≡◌, refl, ap, sym, ◌∙◌, true, false, Option, some, none, arith, nat_beq, eq_refl,
}
use dlt_matterbeam.Json.{Json}
use dlt_matterbeam.Server.{Server, Item, Knobs, Outcome, fault, contention, listening}
use dlt_matterbeam.Server.Lock.{
  with_lock, claim, release, claimed, released, is_paused, set_item, count_contention, release_item,
}
use dlt_matterbeam.Server.Lock.Frees.{SameLock}
use dlt_matterbeam.Server.State.{put_dlt_state, write_state}
use dlt_matterbeam.Server.Ingest.{Call, Moment, ingest, ingest_locked, ledger_key}
use dlt_matterbeam.Server.Ingest.Replay.{ingest-new}
use dlt_matterbeam.Server.Ingest.Locks.{ingest_locked-KeepsLocks}

-- what a call leaves of a process that nobody held: two versions on, free, and listening
abbrev pub IsHandedBack : String → Item → Server → Type 0
IsHandedBack pid item after =
    (item' : Item) × (after.pids pid ≡ some item')
    × (item'.update_version ≡ item.update_version + 2)
    × (item'.invoke_semaphore ≡ 1)
    × (item'.fsm_state ≡ listening)

module _ (knobs : Knobs) (pid : String) (item : Item) (s : Server) (on : knobs.lock_on ≡ true)
    (there : s.pids pid ≡ some item) (running_or_free : is_paused item.fsm_state ≡ false) where
  pub with_lock-held :
      {A : Type 0} (body : Server → Outcome A × Server)
      → item.invoke_semaphore ≡ 0
      → with_lock knobs pid body s ≡ (fault contention, count_contention s)
  unfolding with_lock claim
  with_lock-held body held = rw (there, running_or_free, on, held) refl

  pub with_lock-free :
      {A : Type 0} (body : Server → Outcome A × Server)
      → item.invoke_semaphore ≡ 1
      → with_lock knobs pid body s ≡ (
        (body (set_item pid (claimed item) s)).0,
        release knobs pid (item.update_version + 1) (body (set_item pid (claimed item) s)).1,
      )
  unfolding with_lock claim
  with_lock-free body free = rw (there, running_or_free, on, free) refl

  -- Where the lock is on, and while the lock of a process that is there and not paused is held, a
  -- chunk for it that is not in the ledger and a push of a state are both refused with contention:
  -- all that changes is the counter of the contentions.
  pub held_refuses :
      (c : Call) (m : Moment) (doc : Json)
      → c.pid ≡ pid
      → s.ledger (ledger_key c) ≡ false
      → item.invoke_semaphore ≡ 0
      → (ingest knobs c m s ≡ (fault contention, count_contention s))
        × (put_dlt_state knobs pid doc s ≡ (fault contention, count_contention s))
  unfolding put_dlt_state
  held_refuses c m doc same new held = (
    ingest-new knobs c m s new
        ∙ (ap (λ p. with_lock knobs p (ingest_locked knobs c m) s) same
            ∙ with_lock-held (ingest_locked knobs c m) held),
    with_lock-held (write_state pid doc) held,
  )

  release_item-IsHandedBack :
      (o : Option Item) (after : Server)
      → SameLock (some (claimed item)) o
      → IsHandedBack pid item (release_item knobs pid (item.update_version + 1) o after)
  release_item-IsHandedBack none after same = elim same [ ]
  release_item-IsHandedBack (some i) after same =
      let current : nat_beq i.update_version (item.update_version + 1) ≡ true =
        ground (arith, same.0) in
      (released i, rw (current, eq_refl pid) refl, omega (arith, same.0), refl, refl)

  release-IsHandedBack :
      (after : Server)
      → SameLock (some (claimed item)) (after.pids pid)
      → IsHandedBack pid item (release knobs pid (item.update_version + 1) after)
  unfolding release
  release-IsHandedBack after same = rw (on) (release_item-IsHandedBack (after.pids pid) after same)

  -- Where the lock is on, a chunk that is not in the ledger, for a process that is there, not paused
  -- and free, hands the process back whatever comes of the chunk: two versions on, with the lock
  -- free, and listening.
  pub free_hands_back :
      (c : Call) (m : Moment)
      → c.pid ≡ pid
      → s.ledger (ledger_key c) ≡ false
      → item.invoke_semaphore ≡ 1
      → IsHandedBack pid item (ingest knobs c m s).1
  free_hands_back c m same new free =
      let s₁ = set_item pid (claimed item) s in
      let body = ingest_locked knobs c m in
      let start =
        ingest-new knobs c m s new
        ∙ (ap (λ p. with_lock knobs p body s) same ∙ with_lock-free body free) in
      let there₁ : s₁.pids pid ≡ some (claimed item) = rw (eq_refl pid) refl in
      subst (λ x. IsHandedBack pid item x.1) (sym start)
        (release-IsHandedBack (body s₁).1 (
          subst (λ o. SameLock o ((body s₁).1.pids pid)) there₁
            (ingest_locked-KeepsLocks knobs c m s₁ pid)))
