-- ===== src/Server/Lock/Frees.antt =====
-- The lock of a process, over a call that holds it.
use mathlib.Core.Path.{subst}
use dlt_matterbeam.Prelude.{
  ℕ, ◌+◌, String, ◌≡◌, refl, sym, true, false, Option, none, some, arith, ◌==◌, eq_refl, update,
  Bool-cases, inl, inr, ◌∙◌,
}
use dlt_matterbeam.Server.{Server, Item, Knobs, Outcome}
use dlt_matterbeam.Server.Lock.{
  with_lock, claim, release, claimed, claim_item, release_item, claimed_run, set_item,
}

-- the fields that the lock is made of are the same
abbrev pub SameLock : Option Item → Option Item → Type 0
SameLock none none = Unit
SameLock (some a) (some b) =
    (a.update_version ≡ b.update_version) × (a.invoke_semaphore ≡ b.invoke_semaphore)
SameLock _ _ = ⊥

pub SameLock-refl : (o : Option Item) → SameLock o o
SameLock-refl none = tt
SameLock-refl (some a) = (refl, refl)

-- a body that changes nothing of any lock
abbrev pub KeepsLocks : {A : Type 0} → (Server → Outcome A × Server) → Type 0
KeepsLocks body = (s : Server) → (q : String) → SameLock (s.pids q) ((body s).1.pids q)

-- a lock that nobody holds
abbrev pub IsFree : Option Item → Type 0
IsFree none = Unit
IsFree (some item) = item.invoke_semaphore ≡ 1

abbrev pub AllFree : Server → Type 0
AllFree s = (q : String) → IsFree (s.pids q)

pub SameLock-IsFree : (a b : Option Item) → SameLock a b → IsFree a → IsFree b
SameLock-IsFree none none p f = tt
SameLock-IsFree none (some b) p f = elim p [ ]
SameLock-IsFree (some a) none p f = elim p [ ]
SameLock-IsFree (some a) (some b) p f = sym p.1 ∙ f

update_same : {V : Type 0} (k : String) (v : V) (m : String → V) → update k v m k ≡ v
update_same k v m = rw (eq_refl k) refl

module _ (knobs : Knobs) where
  -- the release of what was claimed
  release_item-IsFree :
      (pid : String) (item : Item) (o : Option Item) (s : Server) (q : String)
      → SameLock (some (claimed item)) o
      → (pid == q ≡ false → IsFree (s.pids q))
      → IsFree ((release_item knobs pid (item.update_version + 1) o s).pids q)
  release_item-IsFree pid item none s q same others = elim same [ ]
  release_item-IsFree pid item (some i) s q same others = ground arith

  release-IsFree :
      (pid : String) (item : Item) (s : Server) (q : String)
      → knobs.lock_on ≡ true
      → SameLock (some (claimed item)) (s.pids pid)
      → (pid == q ≡ false → IsFree (s.pids q))
      → IsFree ((release knobs pid (item.update_version + 1) s).pids q)
  unfolding release
  release-IsFree pid item s q on same others =
      rw (on) (release_item-IsFree pid item (s.pids pid) s q same others)

  module _ {A : Type 0} (pid : String) (body : Server → Outcome A × Server)
      (keeps : KeepsLocks body) where
    held-IsFree :
        (item : Item) (s : Server) (q : String)
        → knobs.lock_on ≡ true
        → AllFree s
        → IsFree (
            (release knobs pid
                (item.update_version + 1)
                (body (set_item pid (claimed item) s)).1).pids
              q)
    held-IsFree item s q on free =
        let s₁ = set_item pid (claimed item) s in
        release-IsFree pid item (body s₁).1 q on
          (subst (λ o. SameLock o ((body s₁).1.pids pid))
            (update_same pid (some (claimed item)) s.pids) (keeps s₁ pid))
          λ ne. SameLock-IsFree (s₁.pids q) _ (keeps s₁ q) (rw (ne) (free q))

    -- with the lock off nothing is claimed or released
    off_IsFree :
        (s : Server) (q : String)
        → knobs.lock_on ≡ false
        → AllFree s
        → (v : ℕ) → IsFree ((release knobs pid v (body s).1).pids q)
    unfolding release
    off_IsFree s q off free v = rw (off) (SameLock-IsFree (s.pids q) _ (keeps s q) (free q))

    run-IsFree :
        (o : Option Item) (s : Server) (q : String)
        → AllFree s
        → IsFree (
            (claimed_run knobs pid body
                (claim_item knobs pid o s).0
                (claim_item knobs pid o s).1).1.pids
              q)
    run-IsFree none s q free = free q
    run-IsFree (some item) s q free = elim (Bool-cases knobs.lock_on) [
      | inl on ↦ ground (arith, free q, held-IsFree item s q on free)
      | inr off ↦ ground (arith, free q, off_IsFree s q off free item.update_version)
    ]

    pub with_lock-AllFree : (s : Server) → AllFree s → AllFree (with_lock knobs pid body s).1
    unfolding with_lock claim
    with_lock-AllFree s free q = run-IsFree (s.pids pid) s q free
