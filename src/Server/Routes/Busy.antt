-- ===== src/Server/Routes/Busy.antt =====
-- A chunk that comes while another run of its pipeline holds the lock: `HttpTransport` of
-- src/dlt_matterbeam/transport.py over the routes of tests/fake_matterbeam/server.py.
use mathlib.Core.Path.{subst}
use dlt_matterbeam.Prelude.{
  ℕ, zero, suc, String, ◌≡◌, refl, sym, ap, ◌∙◌, true, false, some, nat_beq, eq_refl, arith,
}
use dlt_matterbeam.Server.{Server, Item, Knobs, Fault}
use dlt_matterbeam.Server.Lock.{release, is_paused, count_contention, released}
use dlt_matterbeam.Server.Lock.Apart.{release-stored}
use dlt_matterbeam.Transport.Http.{Request, Response, verdict, retry}
use dlt_matterbeam.Transport.Http.Retry.{Contended, peer_after}
use dlt_matterbeam.Server.Routes.{Draws}
use dlt_matterbeam.Server.Routes.Api.{World, serve, after}

-- a process that another run holds
pub record IsHeld (pid : String) (item : Item) (s : Server) : Type 0 where
  pub there : s.pids pid ≡ some item
  pub listens : is_paused item.fsm_state ≡ false
  pub held : item.invoke_semaphore ≡ 0

module _ (knobs : Knobs) (repr : Fault → String) (host : String) (draws : ℕ → Draws)
    (dropped : Response) (pid : String) (version : ℕ) where
  -- the run that holds the lock hands it back
  abbrev pub handed_back : World → World
  handed_back w = record w { server = release knobs pid version w.server }

  abbrev pub hand_back_at : ℕ → World → World
  hand_back_at zero w = handed_back w
  hand_back_at (suc left) w = w

  -- the server, and how many more requests come before the other run is through
  unfoldable pub busy : Request → World × ℕ → Response × (World × ℕ)
  busy r (w, zero) = let x = serve knobs repr host draws dropped r w in (x.0, (x.1, zero))
  busy r (w, suc left) =
      let x = serve knobs repr host draws dropped r w in (x.0, (hand_back_at left x.1, left))

  -- the server as the other run leaves it, after `suc left` refusals
  abbrev pub left_by : ℕ → World → World
  left_by zero w = handed_back (after w (count_contention w.server))
  left_by (suc left) w = left_by left (after w (count_contention w.server))

  pub left_by-pids :
      (left : ℕ) (w : World) (item : Item)
      → knobs.lock_on ≡ true
      → w.server.pids pid ≡ some item
      → item.update_version ≡ version
      → (left_by left w).server.pids pid ≡ some (released item)
  unfolding release
  left_by-pids zero w item on there own =
      let mine : nat_beq item.update_version version ≡ true = ground arith in
      rw (on, there, mine, eq_refl pid) refl
  left_by-pids (suc left) w item on there own =
      left_by-pids left (after w (count_contention w.server)) item on there own

  pub left_by-ledger : (left : ℕ) (w : World) → (left_by left w).server.ledger ≡ w.server.ledger
  left_by-ledger zero w =
      ap (λ x. x.0) (release-stored knobs pid version (count_contention w.server))
  left_by-ledger (suc left) w = left_by-ledger left (after w (count_contention w.server))

  module _ (r : Request) where
    -- the server refuses the request as long as the lock is held
    abbrev pub Refuses : Server → Type 0
    Refuses s =
        (w : World)
        → w.server.pids pid ≡ s.pids pid
        → w.server.ledger ≡ s.ledger
        → (verdict (serve knobs repr host draws dropped r w).0 ≡ retry)
          × ((serve knobs repr host draws dropped r w).1 ≡ after w (count_contention w.server))

    pub waits :
        (left : ℕ) (w : World)
        → Refuses w.server
        → Contended busy r (suc left) (w, suc left)
          × (peer_after busy r (suc left) (w, suc left) ≡ (left_by left w, zero))
    unfolding busy
    waits zero w refuses =
        let (v, s) = refuses w refl refl in ((v, tt), λ i. (handed_back (s i), zero))
    waits (suc left) w refuses =
        let (v, s) = refuses w refl refl in
        let w₁ = after w (count_contention w.server) in
        let (c, p) = waits left w₁ refuses in
        (
          (v, subst (λ x. Contended busy r (suc left) (x, suc left)) (sym s) c),
          ap (λ x. peer_after busy r (suc left) (x, suc left)) s ∙ p,
        )
