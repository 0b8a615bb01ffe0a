-- ===== src/Monitor.antt =====
-- The monitor of one SQL Server instance: packages/worker/src/instance-monitor.ts, with `emit` of
-- packages/worker/src/index.ts.
pub mod Emit
pub mod Definitions
pub mod Told
pub mod Polled
pub mod Again
pub mod Activity
pub mod Reading
pub mod Polls
pub mod Suffix
pub mod Drained
pub mod CaughtUp
mod Examples
