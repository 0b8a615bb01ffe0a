-- ===== src/Commands.antt =====
-- The control plane's command pipeline: packages/server/src/domain/commands.ts.
pub mod Rows
pub mod Payloads
pub mod Service
pub mod Lifecycle
pub mod Approval
pub mod Issue
pub mod FourEyes
pub mod Results
pub mod Delivery
mod Examples
