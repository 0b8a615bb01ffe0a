-- ===== src/Worker.antt =====
-- The worker's command handling: packages/worker/src/command-handler.ts.
pub mod Msdb
pub mod Apply
pub mod Handler
pub mod Gates
pub mod Conflicts
pub mod Redelivery
mod Examples
