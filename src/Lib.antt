-- ===== src/Lib.antt =====
-- Remote SQL Agent: a verification library of the rules that keep a fleet of SQL Server Agent workers safe.
--
-- A control plane (packages/server) holds the commands that operators issue, has them approved, signs them and hands
-- them to the live sessions of workers. A worker (packages/worker) runs beside SQL Server: it checks each command
-- against its own gates, applies it to msdb, records the outcome, and queues what it observes in a durable outbox that
-- is drained into the session. Both use the shared contract (packages/protocol).
--
-- Files and the code they model:
--   Prelude        shared names, lists, sets, texts; models no code.
--   Capabilities   packages/protocol/src/capabilities.ts: tiers, grants and ceilings, what a kind of command needs.
--   Roles          packages/protocol/src/roles.ts: roles and permissions.
--   Job            packages/protocol/src/job-definition.ts: the records of a job.
--   JobFlow        packages/protocol/src/job-flow.ts: nextStepAfter, inferRunningStep, reachableSteps and the rest.
--   Signing        packages/protocol/src/signing.ts, timestamp.ts: the signed bytes, their check, the replay window.
--   Outbox         packages/worker/src/outbox.ts: class Outbox, each method a function from the state.
--   Drain          packages/worker/src/drain-outbox.ts: drainOutbox.
--   Worker         packages/worker/src/command-handler.ts: Msdb has the interface to the SQL modules, Apply the cases of
--                  apply and the conflict check, Handler the gates and the idempotency record.
--   Commands       packages/server/src/domain/commands.ts and its tables in packages/server/src/db/schema.ts: Rows has
--                  the state, Payloads buildProtoCommand, Service create and dispatch, Lifecycle the other operations.
--   JobEdit        packages/protocol/src/job-edit.ts: Nodes has toNodes and rebuild, Steps and Toggle the exported edits.
--   Environments   packages/server/src/auth/environments.ts: what environment grants add to a base role.
--   Versioning     packages/server/src/domain/versioning.ts: when an observed definition becomes a version, and snapshots.
--   Registry       packages/server/src/hub/registry.ts: the live sessions of workers.
--   Ingest         packages/server/src/domain/ingest.ts and its tables: Tables has the rows, History ingestHistory and
--                  refreshLastRunSummary, Activity upsertActivity.
--   Delivered      packages/server/src/hub/hub.ts, the case commandResult: a command's way from dispatch of Commands through
--                  handleCommand of Worker and back into recordResult.
--   VersionGate    packages/server/src/hub/version-gate.ts: compareVersions and checkWorkerVersion.
--   PendingAttribution  packages/worker/src/pending-attribution.ts: the class, each method a function from the map.
--   Guards         packages/server/src/auth/rbac.ts: requirePermission and requireInstancePermission as decisions.
--   Monitor        packages/worker/src/instance-monitor.ts: Emit has emit of packages/worker/src/index.ts, Reading the reads of
--                  packages/worker/src/sql/agent-repo.ts, Definitions pollDefinitions and sendSnapshot, Polls pollHistory and
--                  pollAgentLog, Activity pollActivity and the cadence of the live poll.
--   Snapshots      the chunks of sendSnapshot, and handleSnapshotChunk of packages/server/src/hub/hub.ts, which applies them.
--   Schedule       packages/protocol/src/schedule.ts: Times has the texts of times and dates, Humane toHumaneSchedule and
--                  fromHumaneSchedule, Describe describeSchedule.
--   Diff           packages/server/src/domain/diff.ts: diffJobDefinitions with diffSteps and diffSchedules.
--   AuditExport    packages/server/src/domain/audit-export.ts: drain of AuditExporter, with writeAudit of audit.ts.
--   Deltas         packages/server/src/hub/hub.ts, the case definition: what a worker's delta becomes.
--
-- State is explicit: an operation takes the state and returns it with its answer, and times, UUIDs and clock readings are
-- arguments, one reading to a call. Tables are lists of rows. Numbers are natural numbers; a difference that may be
-- negative is written as a comparison of sums. What the platform supplies (SHA-256, RSA, UTF-8, JSON, the state of the
-- network) is a parameter. Exceptions are values.
--
-- Fuel: the search of reachableSteps takes twice the number of steps and one, since each step is pushed at most twice;
-- the drain takes one more than the number of queued rows, since each round but the last removes one at least; the
-- poll of the history takes one more round than there are rows above the bookmark; the chunks of a snapshot take as many
-- rounds as there are jobs; the comparison of two versions takes as many rounds as the longer one has parts, as the
-- loop of the code does.
--
-- Not modelled: SQL text, HTTP routes, configuration files, TLS and enrolment, tracing spans, log lines, the texts of
-- error details, the monitor set, notifications, sessions, and the dashboard. A poll sees msdb at one moment, and
-- concurrent calls on one table are taken one after the other.
pub mod Prelude
pub mod AuditExport
pub mod Capabilities
pub mod Commands
pub mod Delivered
pub mod Deltas
pub mod Diff
pub mod Drain
pub mod Environments
pub mod Guards
pub mod Ingest
pub mod Job
pub mod JobEdit
pub mod JobFlow
pub mod Monitor
pub mod Outbox
pub mod PendingAttribution
pub mod Registry
pub mod Roles
pub mod Schedule
pub mod Signing
pub mod Snapshots
pub mod VersionGate
pub mod Versioning
pub mod Worker
