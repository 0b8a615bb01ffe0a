-- ===== src/Ingest.antt =====
-- packages/server/src/domain/ingest.ts: what the server keeps of the rows that a worker sends, on the tables
-- `job_history`, `sync_state`, `job_activity` and `agent_log_entries` and the columns of `jobs` on the last and the
-- next run. The unique indices are the conflict targets of the inserts. The random ids of rows are left out, and so is
-- `sync_state.last_snapshot_at`, which this part does not write.
pub mod Tables
pub mod History
pub mod Kept
pub mod Summary
pub mod Replayed
pub mod Bounds
pub mod Latest
pub mod Activity
pub mod Reported
mod Examples
