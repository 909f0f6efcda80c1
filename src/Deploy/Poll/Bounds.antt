-- ===== src/Deploy/Poll/Bounds.antt =====
-- How often a poll asks and sleeps, and what it returns.
use dlt_matterbeam.Prelude.{
  ℕ, zero, suc, ◌+◌, ◌<◌, ◌≡◌, ◌⊎◌, inl, inr, refl, ap, ◌∙◌, [], Bool, true, false, arith, lookup,
  Bool-cases, nat_beq,
}
use dlt_matterbeam.Json.{Row}
use dlt_matterbeam.Exec.{Result, ok}
use dlt_matterbeam.Action.{Action}
use dlt_matterbeam.Deploy.Poll.{is_terminal, poll_from, poll_build_status}

-- how often the status was asked for, handed on, and waited for
pub record Counts : Type 0 where
  pub polls : ℕ
  pub updates : ℕ
  pub sleeps : ℕ

-- the server's replies, one after the other
module _ (replies : ℕ → Row) where
  abbrev pub ask : Action Counts Row
  ask s = (ok (replies s.polls), record s { polls = s.polls + 1 })

  abbrev pub update_seen : Row → Action Counts (Unit {0})
  update_seen status s = (ok tt, record s { updates = s.updates + 1 })

  abbrev pub wait : Action Counts (Unit {0})
  wait s = (ok tt, record s { sleeps = s.sleeps + 1 })

  abbrev pub is_done : ℕ → Bool
  is_done n = is_terminal (lookup "build_status" (replies n))

  -- after one more than `k` polls: none of the first `k` replies was terminal, and the last one is,
  -- or the attempts are used up
  abbrev pub Stopped : ℕ → Counts → ℕ → Type 0
  Stopped max_attempts s k =
      (k < max_attempts)
      × ((j : ℕ) → j < k → is_done (s.polls + j) ≡ false)
      × ((is_done (s.polls + k) ≡ true) ⊎ (suc k ≡ max_attempts))

  abbrev pub after : Counts → ℕ → Counts
  after s k = record { polls = s.polls + suc k; updates = s.updates + suc k; sleeps = s.sleeps + k }

  abbrev poll : ℕ → Row → Action Counts Row
  poll = poll_from ask update_seen wait

  abbrev Stops : ℕ → Row → Counts → Type 0
  Stops left status s =
      (k : ℕ) × Stopped (suc left) s k
      × (poll (suc left) status s ≡ (ok (replies (s.polls + k)), after s k))

  abbrev waited : Counts → Counts
  waited s = record { polls = s.polls + 1; updates = s.updates + 1; sleeps = s.sleeps + 1 }

  ends :
      (n n' : ℕ) (a b : Counts)
      → n ≡ n'
      → a.polls ≡ b.polls
      → a.updates ≡ b.updates
      → a.sleeps ≡ b.sleeps
      → ◌≡◌ {A = Result Row × Counts} (ok (replies n), a) (ok (replies n'), b)
  ends n n' a b at p u w =
      λ i. (ok (replies (at i)), record { polls = p i; updates = u i; sleeps = w i })

  -- the poll where this reply is the last
  poll_from-last :
      (left : ℕ) (status : Row) (s : Counts)
      → (is_done s.polls ≡ true) ⊎ (left ≡ 0)
      → poll (suc left) status s ≡ (ok (replies (s.polls + 0)), after s 0)
  unfolding poll_from
  poll_from-last left status s (inl at) =
      rw (at) (ends _ _ _ _ (omega arith) (omega arith) (omega arith) (omega arith))
  poll_from-last left status s (inr none_left) = elim (Bool-cases (is_done s.polls)) [
    | inl at ↦ rw (at) (ends _ _ _ _ (omega arith) (omega arith) (omega arith) (omega arith))
    | inr more ↦
        rw (more, none_left) (ends _ _ _ _ (omega arith) (omega arith) (omega arith) (omega arith))
  ]

  poll_from-more :
      (left : ℕ) (status : Row) (s : Counts)
      → is_done s.polls ≡ false
      → poll (suc (suc left)) status s ≡ poll (suc left) (replies s.polls) (waited s)
  unfolding poll_from
  poll_from-more left status s more =
      let again : nat_beq (suc left) 0 ≡ false = ground arith in rw (more, again) refl

  -- the first replies, of which the first was looked at
  earlier :
      (s : Counts) (k : ℕ)
      → is_done s.polls ≡ false
      → ((j : ℕ) → j < k → is_done ((waited s).polls + j) ≡ false)
      → (j : ℕ) → j < suc k
      → is_done (s.polls + j) ≡ false
  earlier s k more none zero below = ap is_done (omega arith) ∙ more
  earlier s k more none (suc j) below = ap is_done (omega arith) ∙ none j (omega arith)

  poll_from-Stops : (left : ℕ) (status : Row) (s : Counts) → Stops left status s
  poll_from-Stops zero status s = (
    zero,
    (omega arith, λ j below. ground arith, inr refl),
    poll_from-last zero status s (inr refl),
  )
  poll_from-Stops (suc left) status s = elim (Bool-cases (is_done s.polls)) [
    | inl at ↦ (
      zero,
      (omega arith, λ j below. ground arith, inl (ap is_done (omega arith) ∙ at)),
      poll_from-last (suc left) status s (inl at),
    )
    | inr more ↦
        let (k, (below, none, last), eq) = poll_from-Stops left (replies s.polls) (waited s) in
        (
          suc k,
          (
            omega arith,
            earlier s k more none,
            elim last [
              | inl at ↦ inl (ap is_done (omega arith) ∙ at)
              | inr used ↦ inr (omega arith)
            ],
          ),
          poll_from-more left status s more
              ∙ (eq ∙ ends _ _ _ _ (omega arith) (omega arith) (omega arith) (omega arith)),
        )
  ]

  -- A poll of at least one attempt asks once more than it sleeps, hands on every reply, and returns
  -- the last reply it got; it asks at most as often as it may, and stops at the first terminal
  -- status, or when the attempts are used up.
  pub poll_build_status_stops :
      (left : ℕ) (s : Counts)
      → (k : ℕ) × Stopped (suc left) s k
        × (poll_build_status ask update_seen wait (suc left) s
            ≡ (ok (replies (s.polls + k)), after s k))
  unfolding poll_build_status
  poll_build_status_stops left s = poll_from-Stops left [] s
