-- ===== src/Tests.antt =====
-- The theorems at concrete inputs.
mod Records
mod Jobs
mod Wire
mod Stacks
mod Reaches
mod Reruns
mod Gates
mod Packages
mod Clients
mod Deploys
mod Landings
mod Ingests
mod Folds
mod Scans
