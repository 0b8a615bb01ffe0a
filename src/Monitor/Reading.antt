-- ===== src/Monitor/Reading.antt =====
-- packages/worker/src/sql/agent-repo.ts: `readHistorySince`, `readMaxHistoryId` and the answer of `readAgentErrorLog`.
-- The table sysjobhistory is a list, in the order of its identity; msdb's `agent_datetime`, null for a pair that is no
-- time, and `toLowerCase` are parameters. Times are in milliseconds.
use remote_sql_agent.Prelude.{
  ℕ, ◌+◌, ◌*◌, ◌/◌, ◌%◌, ltb, max, Bool, String, Option, none, some, or_else, List, [], ◌∷◌, filter,
  take,
}
use remote_sql_agent.Signing.{Timestamp}

pub record SysJobHistory : Type 0 where
  pub instance_id : ℕ
  pub job_id : String
  pub step_id : ℕ
  pub step_name : Option String
  pub run_status : ℕ
  pub run_date : ℕ
  pub run_time : ℕ
  pub run_duration : ℕ
  pub message : Option String
  pub retries_attempted : ℕ
  pub server : Option String
  pub sql_severity : ℕ
  pub sql_message_id : ℕ

pub record HistoryRecord : Type 0 where
  pub sql_instance_id : ℕ
  pub job_uuid : String
  pub step_id : ℕ
  pub step_name : String
  pub run_status : ℕ
  pub run_datetime : ℕ
  pub run_duration_seconds : ℕ
  pub message : String
  pub retries_attempted : ℕ
  pub server : String
  pub sql_severity : ℕ
  pub sql_message_id : ℕ

-- A duration is the number HHMMSS.
unfoldable pub run_duration_seconds : ℕ → ℕ
run_duration_seconds d = d / 10000 * 3600 + d / 100 % 100 * 60 + d % 100

abbrev pub is_above : ℕ → SysJobHistory → Bool
is_above mark h = ltb mark h.instance_id

module _ (agent_datetime : ℕ → ℕ → Option ℕ) (to_lower_case : String → String) where
  abbrev pub record_at : SysJobHistory → ℕ → HistoryRecord
  record_at h t = record {
    sql_instance_id = h.instance_id;
    job_uuid = to_lower_case h.job_id;
    step_id = h.step_id;
    step_name = or_else h.step_name "";
    run_status = h.run_status;
    run_datetime = t;
    run_duration_seconds = run_duration_seconds h.run_duration;
    message = or_else h.message "";
    retries_attempted = h.retries_attempted;
    server = or_else h.server "";
    sql_severity = h.sql_severity;
    sql_message_id = h.sql_message_id;
  }

  -- `filter((r) => r.run_datetime !== null).map(...)`.
  unfoldable pub records : List SysJobHistory → List HistoryRecord
  records [] = []
  records (h ∷ hs) = elim (agent_datetime h.run_date h.run_time) [
    | none ↦ records hs
    | some t ↦ record_at h t ∷ records hs
  ]

  -- `SELECT TOP (@batchSize) ... WHERE h.instance_id > @highWaterMark ORDER BY h.instance_id ASC`.
  unfoldable pub read_history_since : List SysJobHistory → ℕ → ℕ → List HistoryRecord
  unfolding records
  read_history_since table mark batch_size =
      records (take batch_size (filter (is_above mark) table))

-- `SELECT MAX(h.instance_id)`, and 0 of an empty table.
unfoldable pub read_max_history_id : List SysJobHistory → ℕ
read_max_history_id [] = 0
read_max_history_id (h ∷ hs) = max h.instance_id (read_max_history_id hs)

pub record AgentLogRecord : Type 0 where
  pub logged_at : ℕ
  pub severity : String
  pub message : String
  pub process_info : String

-- How a read of the Agent's error log ends: `AgentLogUnavailable`, or any other exception.
pub data LogRead : Type 0 where
  rows : List AgentLogRecord → LogRead
  unavailable : LogRead
  failed : LogRead

-- packages/protocol/src/timestamp.ts: `toTimestamp`.
unfoldable pub to_timestamp : ℕ → Timestamp
to_timestamp ms =
    let seconds = ms / 1000 in record { seconds = seconds; nanos = ms % 1000 * 1000000 }
