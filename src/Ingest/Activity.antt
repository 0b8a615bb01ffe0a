-- ===== src/Ingest/Activity.antt =====
-- packages/server/src/domain/ingest.ts: `upsertActivity`, and the tables `job_activity` and `jobs` of
-- packages/server/src/db/schema.ts. The primary key of `job_activity` is the instance with the job.
use remote_sql_agent.Prelude.{
  ℕ, if◌then◌else◌, Bool, ◌&&◌, String, str_eq, Option, none, some, or_null, text_or_null, List, [],
  ◌∷◌, ◌++◌, map, any, update_where,
}
use remote_sql_agent.Signing.{Timestamp}
use remote_sql_agent.Ingest.Tables.{JobRuns}
use remote_sql_agent.Ingest.History.{from_timestamp, is_runs_of}

pub record ActivityRow : Type 0 where
  pub job_uuid : String
  pub state : String
  pub current_step_id : ℕ
  pub current_step_name : String
  pub start_execution_date : Option Timestamp
  pub last_executed_step_date : Option Timestamp
  pub next_scheduled_run_date : Option Timestamp
  pub last_run_outcome : ℕ

pub record JobActivity : Type 0 where
  pub instance_id : String
  pub job_uuid : String
  pub state : String
  pub current_step_id : Option ℕ
  pub current_step_name : Option String
  pub started_at : Option ℕ
  pub last_executed_step_at : Option ℕ
  pub next_scheduled_run_at : Option ℕ
  pub last_run_outcome : ℕ
  pub updated_at : ℕ

pub record ActivityStore : Type 0 where
  pub job_activity : List JobActivity
  pub jobs : List JobRuns

abbrev pub is_activity_of : String → String → JobActivity → Bool
is_activity_of instance_id job_uuid a =
    str_eq a.instance_id instance_id && str_eq a.job_uuid job_uuid

unfoldable pub activity_value : String → ℕ → ActivityRow → JobActivity
activity_value instance_id now r = record {
  instance_id = instance_id;
  job_uuid = r.job_uuid;
  state = r.state;
  current_step_id = or_null r.current_step_id;
  current_step_name = text_or_null r.current_step_name;
  started_at = from_timestamp r.start_execution_date;
  last_executed_step_at = from_timestamp r.last_executed_step_date;
  next_scheduled_run_at = from_timestamp r.next_scheduled_run_date;
  last_run_outcome = r.last_run_outcome;
  updated_at = now;
}

-- `INSERT ... ON CONFLICT DO UPDATE`, where the update sets every column but the key.
unfoldable pub upsert_row : JobActivity → List JobActivity → List JobActivity
upsert_row a table =
    let this = is_activity_of a.instance_id a.job_uuid in
    if any this table
    then update_where this (λ b. record a { instance_id = b.instance_id; job_uuid = b.job_uuid })
        table
    else table ++ a ∷ []

abbrev pub set_next_run : String → String → ℕ → JobRuns → JobRuns
set_next_run instance_id job_uuid at j =
    if is_runs_of instance_id job_uuid j then record j { next_run_at = some at } else j

-- The body of the loop.
unfoldable pub upsert_one : String → ℕ → ActivityRow → ActivityStore → ActivityStore
upsert_one instance_id now r st = record {
  job_activity = upsert_row (activity_value instance_id now r) st.job_activity;
  jobs = elim (from_timestamp r.next_scheduled_run_date) [
    | none ↦ st.jobs
    | some at ↦ map (set_next_run instance_id r.job_uuid at) st.jobs
  ];
}

unfoldable pub upsert_activity : String → ℕ → List ActivityRow → ActivityStore → ActivityStore
upsert_activity instance_id now [] st = st
upsert_activity instance_id now (r ∷ rows) st =
    upsert_activity instance_id now rows (upsert_one instance_id now r st)
