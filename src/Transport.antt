-- ===== src/Transport.antt =====
-- src/dlt_matterbeam/transport.py: the `MatterbeamTransport` seam, and what is built in behind it.
pub mod Http
pub mod File
pub mod Resolve
use dlt_matterbeam.Prelude.{String, Option}
use dlt_matterbeam.Json.{Json, Row}
use dlt_matterbeam.Action.{Action}
use dlt_matterbeam.LoadJob.{Chunk}

-- The protocol, over the state of what the transport talks to. A pid is a text, or none.
pub record Transport (N : Type 0) : Type 0 where
  pub register : String → String → Action N (Option String)
  pub get_dlt_state : String → Action N (Option Json)
  pub put_dlt_state : String → Row → Action N (Unit {0})
  pub send_chunk : Chunk → Option String → Action N (Option String)
  pub complete_load : String → Option String → Action N (Unit {0})
