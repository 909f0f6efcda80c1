-- ===== src/Server/Lock/Apart.antt =====
-- What a process keeps beside its lock, and the two ways a locked call goes.
use dlt_matterbeam.Prelude.{
  ℕ, String, ◌≡◌, refl, Bool, true, false, Option, none, some, List, arith, ◌⊎◌, Bool-cases, inl,
  inr,
}
use dlt_matterbeam.Server.{
  Server, Item, Knobs, Outcome, done, fault, Segment, IngestResult, Fault, chaos_crash,
}
use dlt_matterbeam.Server.Lock.{with_lock, claim, release, claimed_run, claim_item, release_item}

abbrev pub is_crash : Fault → Bool
is_crash (chaos_crash _) = true
is_crash _ = false

-- what a process keeps of its chunks: the lock touches none of it
abbrev pub stored :
    Server
    → (String → Bool)
      × (String → Option IngestResult)
      × (String → String → List String)
      × (String → String → Bool)
      × (String → List Segment)
stored s = (s.ledger, s.ledger_results, s.dlt_ids_seen, s.closed_loads, s.segments)

module _ (knobs : Knobs) (pid : String) where
  claim_item-stored :
      (o : Option Item) (s : Server) → stored (claim_item knobs pid o s).1 ≡ stored s
  claim_item-stored none s = refl
  claim_item-stored (some item) s = ground arith

  pub claim-stored : (s : Server) → stored (claim knobs pid s).1 ≡ stored s
  unfolding claim
  claim-stored s = claim_item-stored (s.pids pid) s

  release_item-stored :
      (v : ℕ) (o : Option Item) (s : Server) → stored (release_item knobs pid v o s) ≡ stored s
  release_item-stored v none s = refl
  release_item-stored v (some item) s = ground arith

  pub release-stored : (v : ℕ) (s : Server) → stored (release knobs pid v s) ≡ stored s
  unfolding release
  release-stored v s = elim (Bool-cases knobs.lock_on) [
    | inl on ↦ rw (on) (release_item-stored v (s.pids pid) s)
    | inr off ↦ rw (off) refl
  ]

  claim_item-process :
      (o : Option Item) (s : Server) → (claim_item knobs pid o s).1.process_state ≡ s.process_state
  claim_item-process none s = refl
  claim_item-process (some item) s = ground arith

  pub claim-process : (s : Server) → (claim knobs pid s).1.process_state ≡ s.process_state
  unfolding claim
  claim-process s = claim_item-process (s.pids pid) s

  release_item-process :
      (v : ℕ) (o : Option Item) (s : Server)
      → (release_item knobs pid v o s).process_state ≡ s.process_state
  release_item-process v none s = refl
  release_item-process v (some item) s = ground arith

  pub release-process :
      (v : ℕ) (s : Server) → (release knobs pid v s).process_state ≡ s.process_state
  unfolding release
  release-process v s = elim (Bool-cases knobs.lock_on) [
    | inl on ↦ rw (on) (release_item-process v (s.pids pid) s)
    | inr off ↦ rw (off) refl
  ]

  -- a claim is refused for other reasons than a crash
  abbrev IsSafe : Outcome ℕ → Type 0
  IsSafe (done v) = Unit
  IsSafe (fault f) = is_crash f ≡ false

  claim_item-IsSafe : (o : Option Item) (s : Server) → IsSafe (claim_item knobs pid o s).0
  claim_item-IsSafe none s = refl
  claim_item-IsSafe (some item) s = ground arith

  claim-IsSafe : (s : Server) → IsSafe (claim knobs pid s).0
  unfolding claim
  claim-IsSafe s = claim_item-IsSafe (s.pids pid) s

  module _ {A : Type 0} (body : Server → Outcome A × Server) where
    claimed_run-cases :
        (o : Outcome ℕ) (s : Server)
        → IsSafe o
        → ((f : Fault) × (is_crash f ≡ false) × (claimed_run knobs pid body o s ≡ (fault f, s)))
          ⊎ ((v : ℕ) × (claimed_run knobs pid body o s
                ≡ ((body s).0, release knobs pid v (body s).1)))
    claimed_run-cases (done v) s safe = inr (v, refl)
    claimed_run-cases (fault f) s safe = inl (f, safe, refl)

    -- what runs under the lock, or the fault of the claim
    pub with_lock-cases :
        (s : Server)
        → ((f : Fault) × (is_crash f ≡ false)
            × (with_lock knobs pid body s ≡ (fault f, (claim knobs pid s).1)))
          ⊎ ((v : ℕ) × (with_lock knobs pid body s ≡ (
            (body (claim knobs pid s).1).0,
            release knobs pid v (body (claim knobs pid s).1).1,
          )))
    unfolding with_lock
    with_lock-cases s =
        claimed_run-cases (claim knobs pid s).0 (claim knobs pid s).1 (claim-IsSafe s)
