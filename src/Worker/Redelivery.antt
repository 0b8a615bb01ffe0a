-- ===== src/Worker/Redelivery.antt =====
-- packages/worker/src/command-handler.ts: the idempotency record.
use remote_sql_agent.Outbox.{Outbox}
use remote_sql_agent.Worker.Msdb.{Msdb}
