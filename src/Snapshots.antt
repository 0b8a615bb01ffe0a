-- ===== src/Snapshots.antt =====
-- Full snapshots of an instance: how a worker cuts one into chunks (`sendSnapshot` of
-- packages/worker/src/instance-monitor.ts), and how the server puts them together and applies them
-- (`handleSnapshotChunk` of packages/server/src/hub/hub.ts).
pub mod Chunks
pub mod Pending
pub mod Reassembled
pub mod Mirrored
pub mod EndToEnd
mod Examples
