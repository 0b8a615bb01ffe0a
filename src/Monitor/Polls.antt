-- ===== src/Monitor/Polls.antt =====
-- packages/worker/src/instance-monitor.ts: `connect`, `pollHistory`, `pollAgentLog` and the cadence of the live poll, of
-- one instance that is connected. What msdb holds during a call is an argument.
use remote_sql_agent.Prelude.{
  ℕ, zero, suc, ◌-◌, ◌==◌, ltb, max, if◌then◌else◌, Bool, true, false, String, Option, none, some,
  List, [], ◌∷◌, map, filter, length,
}
use remote_sql_agent.Ingest.Tables.{HistoryRow}
use remote_sql_agent.Outbox.{
  Outbox, get_history_high_water_mark, set_history_high_water_mark, get_agent_log_high_water_mark,
  set_agent_log_high_water_mark,
}
use remote_sql_agent.Monitor.Emit.{
  WorkerMessage, history, agent_log, AgentLogRow, Call, Shared, emit,
}
use remote_sql_agent.Monitor.Reading.{
  SysJobHistory, HistoryRecord, read_history_since, read_max_history_id, AgentLogRecord, LogRead,
  rows, unavailable, failed, to_timestamp,
}

abbrev pub row_of : HistoryRecord → HistoryRow
row_of r = record {
  instance_id = r.sql_instance_id;
  job_uuid = r.job_uuid;
  step_id = r.step_id;
  step_name = r.step_name;
  run_status = r.run_status;
  run_datetime = some (to_timestamp r.run_datetime);
  run_duration_seconds = r.run_duration_seconds;
  message = r.message;
  retries_attempted = r.retries_attempted;
  server = r.server;
  sql_severity = r.sql_severity;
  sql_message_id = r.sql_message_id;
}

-- `Math.max(...)` of the identities of a batch.
unfoldable pub max_id : List HistoryRecord → ℕ
max_id [] = 0
max_id (r ∷ rs) = max r.sql_instance_id (max_id rs)

-- The bookmark that the first contact seeds: a hundred rows below the greatest identity.
unfoldable pub seed_mark : String → List SysJobHistory → Outbox → Outbox
seed_mark name table o =
    if get_history_high_water_mark o name == 0
    then set_history_high_water_mark o name (read_max_history_id table - 100)
    else o

module _ (takes : List Call → WorkerMessage → Bool) (stringify : WorkerMessage → String) where
  module _ (agent_datetime : ℕ → ℕ → Option ℕ) (to_lower_case : String → String) where
    -- The loop, on fuel for its rounds; `none` says that the fuel ran out.
    unfoldable pub poll_history : ℕ → ℕ → String → List SysJobHistory → ℕ → Shared → Option Shared
    poll_history zero now name table batch_size w = none
    poll_history (suc fuel) now name table batch_size w =
        let mark = get_history_high_water_mark w.outbox name in
        elim (read_history_since agent_datetime to_lower_case table mark batch_size) [
          | [] ↦ some w
          | r ∷ rs ↦
              let w' = (emit takes stringify now (history name (map row_of (r ∷ rs))) w).1 in
              let w'' : Shared = record w' {
                outbox = set_history_high_water_mark w'.outbox name (max_id (r ∷ rs));
              } in
              elim (ltb (length (r ∷ rs)) batch_size) [
                | true ↦ some w''
                | false ↦ poll_history fuel now name table batch_size w''
              ]
        ]

  abbrev pub log_row_of : AgentLogRecord → AgentLogRow
  log_row_of r = record {
    logged_at = to_timestamp r.logged_at;
    severity = r.severity;
    message = r.message;
    process_info = r.process_info;
  }

  abbrev pub is_fresh : Option ℕ → AgentLogRecord → Bool
  is_fresh none r = true
  is_fresh (some since) r = ltb since r.logged_at

  -- `reduce` to the latest time.
  unfoldable pub newest : List AgentLogRecord → ℕ
  newest [] = 0
  newest (r ∷ rs) = max r.logged_at (newest rs)

  -- Whether the log is still polled afterwards, whether the call ended without an exception, and what it leaves.
  unfoldable pub poll_agent_log : ℕ → String → Bool → LogRead → Shared → Bool × Bool × Shared
  unfolding newest
  poll_agent_log now name false read w = (false, true, w)
  poll_agent_log now name true unavailable w = (false, true, w)
  poll_agent_log now name true failed w = (true, false, w)
  poll_agent_log now name true (rows records) w =
      let since = get_agent_log_high_water_mark w.outbox name in
      elim (filter (is_fresh since) records) [
        | [] ↦ (true, true, w)
        | r ∷ rs ↦
            let w' = (emit takes stringify now (agent_log name (map log_row_of (r ∷ rs))) w).1 in
            (
              true,
              true,
              record w' { outbox = set_agent_log_high_water_mark w'.outbox name (newest (r ∷ rs)) },
            )
      ]
