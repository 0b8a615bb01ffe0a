-- ===== src/Monitor/Activity.antt =====
-- packages/worker/src/instance-monitor.ts: `pollActivity`, the cadence of the live poll and `nudgeActivity`, with the rows of
-- `readActivity` of packages/worker/src/sql/agent-repo.ts. The outcome of a last run is shifted by one, so that -1, for none,
-- is 0.
use remote_sql_agent.Prelude.{
  ℕ, suc, ◌+◌, ◌*◌, ltb, ◌≡◌, refl, inl, inr, if◌then◌else◌, Bool, Bool-cases, not, ◌&&◌, ◌||◌,
  String, str_eq, Option, none, some, or_else, is_some, List, [], ◌∷◌, map, any,
}
use remote_sql_agent.Signing.{Timestamp}
use remote_sql_agent.Ingest.Activity.{ActivityRow}
use remote_sql_agent.Monitor.Emit.{WorkerMessage, activity, Call, Shared, emit}
use remote_sql_agent.Monitor.Reading.{to_timestamp}

-- A row of the query on sysjobactivity.
pub record SysJobActivity : Type 0 where
  pub job_id : String
  pub start_execution_date : Option ℕ
  pub stop_execution_date : Option ℕ
  pub last_executed_step_id : Option ℕ
  pub last_executed_step_date : Option ℕ
  pub next_scheduled_run_date : Option ℕ
  pub current_step_name : Option String
  pub last_run_outcome : Option ℕ

pub record ActivityRecord : Type 0 where
  pub job_uuid : String
  pub state : String
  pub current_step_id : ℕ
  pub current_step_name : String
  pub start_execution_date : Option ℕ
  pub last_executed_step_date : Option ℕ
  pub next_scheduled_run_date : Option ℕ
  pub last_run_outcome : ℕ

-- A row with a start but no stop is a job that executes.
abbrev pub is_running : SysJobActivity → Bool
is_running r = is_some r.start_execution_date && not (is_some r.stop_execution_date)

abbrev pub outcome_of : Option ℕ → ℕ
outcome_of none = 0
outcome_of (some o) = suc o

unfoldable pub activity_record : (String → String) → SysJobActivity → ActivityRecord
activity_record to_lower_case r = record {
  job_uuid = to_lower_case r.job_id;
  state = if is_running r then "executing" else "idle";
  current_step_id = or_else r.last_executed_step_id 0;
  current_step_name = or_else r.current_step_name "";
  start_execution_date = r.start_execution_date;
  last_executed_step_date = r.last_executed_step_date;
  next_scheduled_run_date = r.next_scheduled_run_date;
  last_run_outcome = outcome_of r.last_run_outcome;
}

unfoldable pub read_activity : (String → String) → List SysJobActivity → List ActivityRecord
unfolding activity_record
read_activity to_lower_case table = map (activity_record to_lower_case) table

-- `toTimestampOrUndefined`.
abbrev pub to_timestamp_or_undefined : Option ℕ → Option Timestamp
to_timestamp_or_undefined none = none
to_timestamp_or_undefined (some t) = some (to_timestamp t)

unfoldable pub activity_row : ActivityRecord → ActivityRow
activity_row r = record {
  job_uuid = r.job_uuid;
  state = r.state;
  current_step_id = r.current_step_id;
  current_step_name = r.current_step_name;
  start_execution_date = to_timestamp_or_undefined r.start_execution_date;
  last_executed_step_date = to_timestamp_or_undefined r.last_executed_step_date;
  next_scheduled_run_date = to_timestamp_or_undefined r.next_scheduled_run_date;
  last_run_outcome = r.last_run_outcome;
}

-- What drives the cadence: `#anyExecuting` and `#fastUntil`.
pub record Cadence : Type 0 where
  pub any_executing : Bool
  pub fast_until : ℕ

abbrev pub active_poll_ms : ℕ
active_poll_ms = 750

abbrev pub start_burst_ms : ℕ
start_burst_ms = 15000

-- `#nextLiveDelayMs`, with the configured interval in seconds where there is one.
unfoldable pub next_live_delay_ms : ℕ → Option ℕ → Cadence → ℕ
next_live_delay_ms now activity_seconds c =
    if c.any_executing || ltb now c.fast_until
    then active_poll_ms
    else or_else activity_seconds 10 * 1000

unfoldable pub nudge_activity : ℕ → Cadence → Cadence
nudge_activity now c = record c { fast_until = now + start_burst_ms }

module _ (takes : List Call → WorkerMessage → Bool) (stringify : WorkerMessage → String) where
  unfoldable pub poll_activity :
      ℕ → String → List ActivityRecord → Cadence → Shared → Cadence × Shared
  unfolding activity_row
  poll_activity now name records c w =
      let c' : Cadence = record c {
        any_executing = any (λ r. str_eq r.state "executing") records;
      } in
      elim records [
        | [] ↦ (c', w)
        | r ∷ rs ↦ (c', (emit takes stringify now (activity name (map activity_row (r ∷ rs))) w).1)
      ]

  state-executing :
      (to_lower_case : String → String) (r : SysJobActivity)
      → str_eq (activity_record to_lower_case r).state "executing" ≡ is_running r
  unfolding activity_record
  state-executing to_lower_case r = elim (Bool-cases (is_running r)) [
    | inl e ↦ rw (e) refl
    | inr e ↦ rw (e) refl
  ]

  any-running :
      (to_lower_case : String → String) (table : List SysJobActivity)
      → any (λ r. str_eq r.state "executing") (read_activity to_lower_case table)
        ≡ any is_running table
  unfolding read_activity
  any-running to_lower_case [] = refl
  any-running to_lower_case (r ∷ table) =
      rw (state-executing to_lower_case r, any-running to_lower_case table)

  poll_activity-any_executing :
      (now : ℕ) (name : String) (records : List ActivityRecord) (c : Cadence) (w : Shared)
      → ((poll_activity now name records c w).0.any_executing
          ≡ any (λ r. str_eq r.state "executing") records)
        × ((poll_activity now name records c w).0.fast_until ≡ c.fast_until)
  unfolding poll_activity
  poll_activity-any_executing now name [] c w = (refl, refl)
  poll_activity-any_executing now name (r ∷ rs) c w = (refl, refl)

  -- After a poll of the activity the next live poll comes at the fast cadence exactly if a job of the table has started and
  -- not stopped, or the burst after a command is not over, and otherwise after the configured interval.
  pub next_live_delay_ms-poll_activity :
      (to_lower_case : String → String) (now later : ℕ) (name : String)
      (table : List SysJobActivity) (seconds : Option ℕ) (c : Cadence) (w : Shared)
      → next_live_delay_ms later seconds
          (poll_activity now name (read_activity to_lower_case table) c w).0
        ≡ (if any is_running table || ltb later c.fast_until
            then 750
            else or_else seconds 10 * 1000)
  unfolding next_live_delay_ms
  next_live_delay_ms-poll_activity to_lower_case now later name table seconds c w =
      let (e, f) = poll_activity-any_executing now name (read_activity to_lower_case table) c w in
      rw (e, f, any-running to_lower_case table) refl
