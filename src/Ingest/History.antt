-- ===== src/Ingest/History.antt =====
-- packages/server/src/domain/ingest.ts: `ingestHistory` and `refreshLastRunSummary`.
use remote_sql_agent.Prelude.{
  ℕ, max, ltb, ◌==◌, if◌then◌else◌, Bool, true, false, ◌&&◌, ◌||◌, String, str_eq, Option, none,
  some, text_or_null, List, [], ◌∷◌, ◌++◌, map, filter, find, length, any, update_where,
}
use remote_sql_agent.Signing.{Timestamp, to_ms}
use remote_sql_agent.Ingest.Tables.{
  HistoryRow, JobHistory, SyncState, JobRuns, HistoryStore, IngestedRun, HistoryIngestResult,
}

unfoldable pub from_timestamp : Option Timestamp → Option ℕ
from_timestamp none = none
from_timestamp (some t) = some (to_ms t)

-- The row to insert; a history row without a time is left out.
unfoldable pub history_value : String → HistoryRow → Option JobHistory
history_value instance_id r = elim (from_timestamp r.run_datetime) [
  | none ↦ none
  | some run_datetime ↦ some (record {
    instance_id = instance_id;
    job_uuid = r.job_uuid;
    sql_instance_id = r.instance_id;
    step_id = r.step_id;
    step_name = text_or_null r.step_name;
    run_status = r.run_status;
    run_datetime = run_datetime;
    run_duration_seconds = r.run_duration_seconds;
    message = text_or_null r.message;
    retries_attempted = r.retries_attempted;
    server = text_or_null r.server;
    sql_severity = r.sql_severity;
    sql_message_id = r.sql_message_id;
  })
]

unfoldable pub history_values : String → List HistoryRow → List JobHistory
history_values instance_id [] = []
history_values instance_id (r ∷ rows) = elim (history_value instance_id r) [
  | none ↦ history_values instance_id rows
  | some v ↦ v ∷ history_values instance_id rows
]

-- The unique index `job_history_instance_sqlid_key`.
abbrev pub is_run : String → ℕ → JobHistory → Bool
is_run instance_id id h = str_eq h.instance_id instance_id && h.sql_instance_id == id

abbrev pub is_held : List JobHistory → JobHistory → Bool
is_held table v = any (is_run v.instance_id v.sql_instance_id) table

-- `INSERT ... ON CONFLICT DO NOTHING RETURNING`: the new table, and the rows that were inserted.
unfoldable pub insert_history :
    List JobHistory → List JobHistory → List JobHistory × List JobHistory
insert_history table [] = (table, [])
insert_history table (v ∷ values) =
    let held = is_held table v in
    let (table', inserted) = insert_history (if held then table else table ++ v ∷ []) values in
    (table', if held then inserted else v ∷ inserted)

abbrev pub is_sync : String → SyncState → Bool
is_sync instance_id s = str_eq s.instance_id instance_id

abbrev pub mark_of : Option SyncState → ℕ
mark_of none = 0
mark_of (some s) = s.history_high_water_mark

unfoldable pub get_history_high_water_mark : List SyncState → String → ℕ
get_history_high_water_mark table instance_id = mark_of (find (is_sync instance_id) table)

-- `Math.max(...ids)`, of a list that is not empty.
unfoldable pub batch_max : List JobHistory → ℕ
batch_max [] = 0
batch_max (v ∷ values) = max v.sql_instance_id (batch_max values)

abbrev pub raise_mark : ℕ → SyncState → SyncState
raise_mark mark s = record s { history_high_water_mark = max s.history_high_water_mark mark }

unfoldable pub upsert_mark : String → ℕ → List SyncState → List SyncState
upsert_mark instance_id mark table =
    if any (is_sync instance_id) table
    then update_where (is_sync instance_id) (raise_mark mark) table
    else table
      ++ record {
        instance_id = instance_id;
        history_high_water_mark = mark;
        agent_log_high_water_mark = none;
      }
        ∷ []

-- `[...new Set(uuids)]`.
abbrev pub unique : List String → List String → List String
unique seen [] = seen
unique seen (u ∷ us) = unique (if any (λ v. str_eq v u) seen then seen else seen ++ u ∷ []) us

abbrev pub is_outcome : String → String → JobHistory → Bool
is_outcome instance_id job_uuid h =
    str_eq h.instance_id instance_id && str_eq h.job_uuid job_uuid && h.step_id == 0

-- `ORDER BY run_datetime DESC, sql_instance_id DESC`.
abbrev pub is_before : JobHistory → JobHistory → Bool
is_before a b =
    ltb a.run_datetime b.run_datetime
    || a.run_datetime == b.run_datetime && ltb a.sql_instance_id b.sql_instance_id

-- `LIMIT 1` of that order.
unfoldable pub first_run : List JobHistory → Option JobHistory
first_run [] = none
first_run (h ∷ hs) = elim (first_run hs) [
  | none ↦ some h
  | some k ↦ some (if is_before h k then k else h)
]

unfoldable pub latest_outcome : List JobHistory → String → String → Option JobHistory
latest_outcome table instance_id job_uuid =
    first_run (filter (is_outcome instance_id job_uuid) table)

abbrev pub is_runs_of : String → String → JobRuns → Bool
is_runs_of instance_id job_uuid j = str_eq j.instance_id instance_id && str_eq j.job_uuid job_uuid

abbrev pub set_last_run : JobHistory → JobRuns → JobRuns
set_last_run h j = record j {
  last_run_status = some h.run_status;
  last_run_at = some h.run_datetime;
  last_run_duration_seconds = some h.run_duration_seconds;
}

-- The body of the loop of `refreshLastRunSummary`, on one job's row.
unfoldable pub refresh_row : List JobHistory → String → String → JobRuns → JobRuns
refresh_row table instance_id job_uuid j = elim (latest_outcome table instance_id job_uuid) [
  | none ↦ j
  | some h ↦ if is_runs_of instance_id job_uuid j then set_last_run h j else j
]

unfoldable pub refresh_last_run_summary :
    List JobHistory → String → List String → List JobRuns → List JobRuns
refresh_last_run_summary table instance_id [] jobs = jobs
refresh_last_run_summary table instance_id (u ∷ us) jobs =
    refresh_last_run_summary table instance_id us (map (refresh_row table instance_id u) jobs)

abbrev pub to_run : JobHistory → IngestedRun
to_run h = record {
  job_uuid = h.job_uuid;
  sql_instance_id = h.sql_instance_id;
  run_status = h.run_status;
  run_datetime = h.run_datetime;
  run_duration_seconds = h.run_duration_seconds;
  message = h.message;
}

abbrev pub is_empty : List JobHistory → Bool
is_empty [] = true
is_empty (v ∷ values) = false

-- The statements, for the rows to insert; without any row nothing is written.
unfoldable pub ingest_values :
    String → List JobHistory → HistoryStore → HistoryIngestResult × HistoryStore
ingest_values instance_id values st =
    if is_empty values
    then (
      record {
        inserted = 0;
        high_water_mark = get_history_high_water_mark st.sync_state instance_id;
        new_runs = [];
      },
      st,
    )
    else (let (table, inserted) = insert_history st.job_history values in
        (
          record {
            inserted = length inserted;
            high_water_mark = batch_max values;
            new_runs = map to_run (filter (λ h. h.step_id == 0) inserted);
          },
          record {
            job_history = table;
            sync_state = upsert_mark instance_id (batch_max values) st.sync_state;
            jobs =
                refresh_last_run_summary table instance_id
                  (unique [] (map (λ v. v.job_uuid) values)) st.jobs;
          },
        ))

unfoldable pub ingest_history :
    String → List HistoryRow → HistoryStore → HistoryIngestResult × HistoryStore
ingest_history instance_id rows st = ingest_values instance_id (history_values instance_id rows) st
