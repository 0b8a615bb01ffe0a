-- ===== src/Ingest/Tables.antt =====
-- packages/server/src/domain/ingest.ts and the tables of packages/server/src/db/schema.ts that it writes: the rows
-- of history.
use remote_sql_agent.Prelude.{ℕ, String, Option, List}
use remote_sql_agent.Signing.{Timestamp}

-- A `HistoryRow` of the wire contract; `instance_id` there is msdb's own row identity.
pub record HistoryRow : Type 0 where
  pub instance_id : ℕ
  pub job_uuid : String
  pub step_id : ℕ
  pub step_name : String
  pub run_status : ℕ
  pub run_datetime : Option Timestamp
  pub run_duration_seconds : ℕ
  pub message : String
  pub retries_attempted : ℕ
  pub server : String
  pub sql_severity : ℕ
  pub sql_message_id : ℕ

pub record JobHistory : Type 0 where
  pub instance_id : String
  pub job_uuid : String
  pub sql_instance_id : ℕ
  pub step_id : ℕ
  pub step_name : Option String
  pub run_status : ℕ
  pub run_datetime : ℕ
  pub run_duration_seconds : ℕ
  pub message : Option String
  pub retries_attempted : ℕ
  pub server : Option String
  pub sql_severity : ℕ
  pub sql_message_id : ℕ

pub record SyncState : Type 0 where
  pub instance_id : String
  pub history_high_water_mark : ℕ
  pub agent_log_high_water_mark : Option ℕ

-- The columns of `jobs` that are written here, with those that find the row.
pub record JobRuns : Type 0 where
  pub instance_id : String
  pub job_uuid : String
  pub last_run_status : Option ℕ
  pub last_run_at : Option ℕ
  pub last_run_duration_seconds : Option ℕ
  pub next_run_at : Option ℕ

pub record HistoryStore : Type 0 where
  pub job_history : List JobHistory
  pub sync_state : List SyncState
  pub jobs : List JobRuns

pub record IngestedRun : Type 0 where
  pub job_uuid : String
  pub sql_instance_id : ℕ
  pub run_status : ℕ
  pub run_datetime : ℕ
  pub run_duration_seconds : ℕ
  pub message : Option String

pub record HistoryIngestResult : Type 0 where
  pub inserted : ℕ
  pub high_water_mark : ℕ
  pub new_runs : List IngestedRun
