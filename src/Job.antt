-- ===== src/Job.antt =====
-- packages/protocol/src/job-definition.ts and the schedule record of packages/protocol/src/schedule.ts:
-- the definition of a SQL Server Agent job. Step ids, action codes and the other whole numbers are
-- natural numbers, as msdb stores them; the bounds on the lengths of names are not part of the records.
use remote_sql_agent.Prelude.{ℕ, Bool, String, List, Option}

-- `StepSubsystem`.
pub data StepSubsystem : Type 0 where
  tsql cmd_exec power_shell analysis_command analysis_query ssis : StepSubsystem
  distribution log_reader merge snapshot queue_reader : StepSubsystem

-- `StepAction`.
abbrev pub quit_with_success : ℕ
quit_with_success = 1

abbrev pub quit_with_failure : ℕ
quit_with_failure = 2

abbrev pub go_to_next_step : ℕ
go_to_next_step = 3

abbrev pub go_to_step : ℕ
go_to_step = 4

pub record JobStep : Type 0 where
  pub step_id : ℕ
  pub name : String
  pub subsystem : StepSubsystem
  pub command : String
  pub database_name : Option String
  pub database_user_name : Option String
  pub on_success_action : ℕ
  pub on_success_step_id : ℕ
  pub on_fail_action : ℕ
  pub on_fail_step_id : ℕ
  pub retry_attempts : ℕ
  pub retry_interval_minutes : ℕ
  pub output_file_name : Option String
  pub flags : ℕ
  pub proxy_name : Option String

pub record JobNotifications : Type 0 where
  pub email_operator_name : Option String
  pub email_level : ℕ
  pub netsend_operator_name : Option String
  pub netsend_level : ℕ
  pub page_operator_name : Option String
  pub page_level : ℕ
  pub eventlog_level : ℕ
  pub delete_level : ℕ

pub record ScheduleDefinition : Type 0 where
  pub name : String
  pub enabled : Bool
  pub freq_type : ℕ
  pub freq_interval : ℕ
  pub freq_subday_type : ℕ
  pub freq_subday_interval : ℕ
  pub freq_relative_interval : ℕ
  pub freq_recurrence_factor : ℕ
  pub active_start_date : ℕ
  pub active_end_date : ℕ
  pub active_start_time : ℕ
  pub active_end_time : ℕ

pub record JobDefinition : Type 0 where
  pub name : String
  pub description : Option String
  pub enabled : Bool
  pub category_name : Option String
  pub owner_login_name : Option String
  pub start_step_id : ℕ
  pub notifications : JobNotifications
  pub steps : List JobStep
  pub schedules : List ScheduleDefinition
  pub target_servers : List String
