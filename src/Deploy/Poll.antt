-- ===== src/Deploy/Poll.antt =====
-- `poll_build_status` of src/dlt_matterbeam/deploy.py. The client's call, the callback and the sleep
-- are parameters.
pub mod Bounds
use dlt_matterbeam.Prelude.{
  ℕ, zero, suc, String, Bool, true, false, ◌||◌, Option, none, some, List, [], ◌==◌, lookup,
  nat_beq, if◌then◌else◌,
}
use dlt_matterbeam.Json.{Json, Row, str}
use dlt_matterbeam.Action.{Action, pure, ◌>>=◌, ◌>>◌}

-- `_TERMINAL_BUILD_STATUSES`
unfoldable pub is_terminal : Option Json → Bool
is_terminal (some (str s)) = s == "ready" || s == "failed"
is_terminal _ = false

module _ {S : Type 0} (get_build_status : Action S Row) (on_update : Row → Action S (Unit {0}))
    (sleep : Action S (Unit {0})) where
  -- the loop, with the attempts that are left and the status so far
  unfoldable pub poll_from : ℕ → Row → Action S Row
  poll_from zero status = pure status
  poll_from (suc left) status = get_build_status >>= λ seen.
      let more = poll_from left seen in
      on_update seen
      >> (if is_terminal (lookup "build_status" seen)
          then pure seen
          else if nat_beq left 0
          then pure seen
          else (sleep >> more))

  unfoldable pub poll_build_status : ℕ → Action S Row
  poll_build_status max_attempts = poll_from max_attempts []
