-- ===== src/JobEdit.antt =====
-- packages/protocol/src/job-edit.ts: structural edits of a job's steps.
pub mod Nodes
pub mod Steps
pub mod Toggle
pub mod Numbering
pub mod Positions
pub mod Renumbering
pub mod Rearranged
pub mod Spliced
pub mod Moved
pub mod Routes
pub mod Disabled
mod Examples
