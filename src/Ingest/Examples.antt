-- ===== src/Ingest/Examples.antt =====
-- Tests and instances for history: two runs of a job of one instance, sent twice.
use remote_sql_agent.Prelude.{
  String, find, ℕ, ◌≡◌, refl, inl, inr, none, some, List, [], ◌∷◌, Elem, filter,
}
use remote_sql_agent.Ingest.Tables.{HistoryRow, JobHistory, JobRuns, HistoryStore}
use remote_sql_agent.Ingest.History.{
  from_timestamp, history_value, history_values, insert_history, batch_max, upsert_mark, first_run,
  latest_outcome, is_outcome, refresh_row, refresh_last_run_summary, get_history_high_water_mark,
  ingest_values, ingest_history,
}
use remote_sql_agent.Ingest.Activity.{
  ActivityRow, ActivityStore, is_activity_of, activity_value, upsert_one, upsert_activity,
}
use remote_sql_agent.Ingest.Reported.{find-upsert_activity}
use remote_sql_agent.Ingest.Replayed.{ingest_batches, ingest_history_replayed}
use remote_sql_agent.Ingest.Bounds.{Inv, ingest_history-Inv}
use remote_sql_agent.Ingest.Latest.{ShowsLatest, ingest_history-ShowsLatest}

abbrev run : ℕ → ℕ → ℕ → HistoryRow
run id status seconds = record {
  instance_id = id;
  job_uuid = "j1";
  step_id = 0;
  step_name = "(Job outcome)";
  run_status = status;
  run_datetime = some (record { seconds = seconds; nanos = 0 });
  run_duration_seconds = 5;
  message = "";
  retries_attempted = 0;
  server = "SQL01";
  sql_severity = 0;
  sql_message_id = 0;
}

abbrev batch : List HistoryRow
batch = run 11 1 100 ∷ run 12 0 200 ∷ run 11 1 100 ∷ []

abbrev job : JobRuns
job = record {
  instance_id = "i1";
  job_uuid = "j1";
  last_run_status = none;
  last_run_at = none;
  last_run_duration_seconds = none;
  next_run_at = none;
}

abbrev empty : HistoryStore
empty = record { job_history = []; sync_state = []; jobs = job ∷ [] }

abbrev stored : ℕ → ℕ → ℕ → JobHistory
stored id status at = record {
  instance_id = "i1";
  job_uuid = "j1";
  sql_instance_id = id;
  step_id = 0;
  step_name = some "(Job outcome)";
  run_status = status;
  run_datetime = at;
  run_duration_seconds = 5;
  message = none;
  retries_attempted = 0;
  server = some "SQL01";
  sql_severity = 0;
  sql_message_id = 0;
}

abbrev job_after : JobRuns
job_after = record job {
  last_run_status = some 0;
  last_run_at = some 200000;
  last_run_duration_seconds = some 5;
}

-- The row that comes twice in the batch is inserted once.
ingested : (ingest_history "i1" batch empty).0.inserted ≡ 2
unfolding ingest_history ingest_values history_values history_value from_timestamp insert_history
ingested = refl

-- A batch behind the mark: the mark that is returned is the batch's, not the one that is kept.
returned_mark :
    ((ingest_history "i1" (run 3 1 50 ∷ []) (ingest_history "i1" batch empty).1).0.high_water_mark
      ≡ 3)
    × (get_history_high_water_mark
          (ingest_history "i1" (run 3 1 50 ∷ []) (ingest_history "i1" batch empty).1).1.sync_state
          "i1"
        ≡ 12)
unfolding ingest_history ingest_values history_values history_value from_timestamp insert_history
    batch_max upsert_mark get_history_high_water_mark
returned_mark = (refl, refl)

after-job : (ingest_history "i1" batch empty).1.jobs ≡ job_after ∷ []
unfolding ingest_history ingest_values history_values history_value from_timestamp insert_history
    refresh_last_run_summary refresh_row latest_outcome first_run
after-job = refl

ingest_history_replayed_example :
    ((ingest_history "i1" batch (ingest_history "i1" batch empty).1).0.inserted ≡ 0)
    × ((ingest_history "i1" batch (ingest_history "i1" batch empty).1).0.new_runs ≡ [])
    × ((ingest_history "i1" batch (ingest_history "i1" batch empty).1).1.job_history
        ≡ (ingest_history "i1" batch empty).1.job_history)
    × ((ingest_history "i1" batch (ingest_history "i1" batch empty).1).1.sync_state
        ≡ (ingest_history "i1" batch empty).1.sync_state)
unfolding ingest_batches
ingest_history_replayed_example = ingest_history_replayed "i1" batch [] empty

ingest_history-Inv_example : Inv (ingest_history "i1" batch empty).1
ingest_history-Inv_example = ingest_history-Inv "i1" batch empty (tt, tt)

member : Elem (stored 12 0 200000) (history_values "i1" batch)
unfolding history_values history_value from_timestamp
member = inr (inl refl)

outcome :
    Elem
      (stored 12 0 200000)
      (filter (is_outcome "i1" "j1") (ingest_history "i1" batch empty).1.job_history)
unfolding ingest_history ingest_values history_values history_value from_timestamp insert_history
outcome = inr (inl refl)

job-there : Elem job_after (ingest_history "i1" batch empty).1.jobs
unfolding ingest_history ingest_values history_values history_value from_timestamp insert_history
    refresh_last_run_summary refresh_row latest_outcome first_run
job-there = inl refl

ingest_history-ShowsLatest_example :
    ShowsLatest (ingest_history "i1" batch empty).1.job_history job_after
ingest_history-ShowsLatest_example =
    ingest_history-ShowsLatest "i1" batch empty job_after (stored 12 0 200000) (stored 12 0 200000)
      job-there refl member refl outcome

abbrev reported : String → String → ActivityRow
reported u state = record {
  job_uuid = u;
  state = state;
  current_step_id = 0;
  current_step_name = "";
  start_execution_date = none;
  last_executed_step_date = none;
  next_scheduled_run_date = some (record { seconds = 900; nanos = 0 });
  last_run_outcome = 1;
}

abbrev update : List ActivityRow
update = reported "j1" "executing" ∷ reported "j2" "idle" ∷ reported "j1" "idle" ∷ []

abbrev quiet : ActivityStore
quiet = record { job_activity = []; jobs = job ∷ [] }

next_run :
    (upsert_activity "i1" 500 update quiet).jobs ≡ record job { next_run_at = some 900000 } ∷ []
unfolding upsert_activity upsert_one from_timestamp
next_run = refl

find-upsert_activity_example :
    find (is_activity_of "i1" "j1") (upsert_activity "i1" 500 update quiet).job_activity
    ≡ some (activity_value "i1" 500 (reported "j1" "idle"))
find-upsert_activity_example = find-upsert_activity "i1" 500 update quiet "i1" "j1"
