-- ===== src/Server/Routes/Deployment/Polls.antt =====
-- The poll of a deployment at the server, of src/dlt_matterbeam/deploy.py.
use dlt_matterbeam.Prelude.{
  ℕ, zero, suc, String, ◌≡◌, refl, ◌∙◌, Bool, true, false, some, lookup, nat_beq, if◌then◌else◌,
}
use dlt_matterbeam.Json.{Row}
use dlt_matterbeam.Exec.{ok}
use dlt_matterbeam.Action.{Action, pure, ◌>>◌}
use dlt_matterbeam.Transport.Http.{Response, Net, sleep}
use dlt_matterbeam.Deploy.{get_build_status}
use dlt_matterbeam.Deploy.Poll.{poll_from, is_terminal}
use dlt_matterbeam.Server.{Item, Knobs, Fault}
use dlt_matterbeam.Server.Routes.{Draws, token}
use dlt_matterbeam.Server.Routes.Api.{World, after}
use dlt_matterbeam.Server.Routes.Once.{asked}
use dlt_matterbeam.Server.Routes.Deployment.Operations.{
  status_row, polled_row, polled_row_same, slept,
}
use dlt_matterbeam.Server.Routes.Deployment.Steps.{peer, asks_status}

module _ (knobs : Knobs) (repr : Fault → String) (host : String) (draws : ℕ → Draws)
    (dropped : Response) where
  polls_next :
      (last none_left : Bool) (status : Row) (more : Action (Net World) Row) (n : Net World)
      → ((w : Net World) × (more (slept 40 n) ≡ (ok status, w)) × (w.peer.server ≡ n.peer.server))
      → (w : Net World) × ((if last
              then pure status
              else if none_left
              then pure status
              else (sleep (peer knobs repr host draws dropped) 40 >> more))
            n
          ≡ (ok status, w))
        × (w.peer.server ≡ n.peer.server)
  polls_next true none_left status more n again = (n, refl, refl)
  polls_next false true status more n again = (n, refl, refl)
  polls_next false false status more n again = again

  -- the server as it was, whatever the number of polls
  pub polls :
      (pid : String) (item : Item) (left : ℕ) (status : Row) (n : Net World)
      → n.peer.server.pids pid ≡ some item
      → (w : Net World) × (poll_from
            (get_build_status (peer knobs repr host draws dropped) (some token) (some pid))
            (λ _. pure tt)
            (sleep (peer knobs repr host draws dropped) 40)
            left
            status
            n
          ≡ (ok (polled_row item left status), w))
        × (w.peer.server ≡ n.peer.server)
  unfolding poll_from
  polls pid item zero status n there = (n, refl, refl)
  polls pid item (suc left) status n there =
      let (w, went, kept) =
        polls pid item left (status_row item) (slept 40 (asked (after n.peer n.peer.server) n))
          there in
      rw (asks_status knobs repr host draws dropped pid item n there) (
        polls_next (is_terminal (lookup "build_status" (status_row item))) (nat_beq left 0)
          (status_row item)
          (poll_from (get_build_status (peer knobs repr host draws dropped) (some token) (some pid))
            (λ _. pure tt) (sleep (peer knobs repr host draws dropped) 40) left (status_row item))
          (asked (after n.peer n.peer.server) n)
          (w, went ∙ λ i. (ok (polled_row_same item left i), w), kept))
