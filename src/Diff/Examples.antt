-- ===== src/Diff/Examples.antt =====
-- Instances for the difference of versions: a job with one step, its body changed, and its target servers changed.
use remote_sql_agent.Prelude.{
  ℕ, ◌≡◌, refl, ◌↔◌, inl, inr, true, String, none, some, List, [], ◌∷◌, find_last, sym, ◌∙◌,
}
use remote_sql_agent.Job.{JobDefinition, JobStep, StepSubsystem}
use remote_sql_agent.Diff.{
  step_change, modified, changed_fields, step_changes, present, gone, is_step, is_schedule,
  diff_steps, diff_schedules, diff_job_definitions,
}
use remote_sql_agent.Diff.Lookup.{IsKeyed}
use remote_sql_agent.Diff.Agreed.{SameScalars, diff_job_definitions_iff}

abbrev step : String → JobStep
step command = record {
  step_id = 1;
  name = "load";
  subsystem = StepSubsystem.tsql;
  command = command;
  database_name = some "dw";
  database_user_name = none;
  on_success_action = 1;
  on_success_step_id = 0;
  on_fail_action = 2;
  on_fail_step_id = 0;
  retry_attempts = 0;
  retry_interval_minutes = 0;
  output_file_name = none;
  flags = 0;
  proxy_name = none;
}

abbrev job : String → List String → JobDefinition
job command servers = record {
  name = "nightly";
  description = none;
  enabled = true;
  category_name = none;
  owner_login_name = none;
  start_step_id = 1;
  notifications = record {
    email_operator_name = none;
    email_level = 0;
    netsend_operator_name = none;
    netsend_level = 0;
    page_operator_name = none;
    page_level = 0;
    eventlog_level = 0;
    delete_level = 0;
  };
  steps = step command ∷ [];
  schedules = [];
  target_servers = servers;
}

one_step : IsKeyed (λ s. s.step_id) (job "EXEC b" []).steps
one_step a b (inl e) (inl f) k = e ∙ sym f
one_step a b (inl e) (inr m) k = absurd m
one_step a b (inr m) n k = absurd m

diff_job_definitions_iff_example :
    (diff_job_definitions (job "EXEC a" []) (job "EXEC b" []) ≡ []) ↔ (
      SameScalars (job "EXEC a" []) (job "EXEC b" [])
      × ((job "EXEC a" []).notifications ≡ (job "EXEC b" []).notifications)
      × ((id : ℕ)
          → find_last (is_step id) (step "EXEC a" ∷ [])
            ≡ find_last (is_step id) (step "EXEC b" ∷ []))
      × ((name : String) → find_last (is_schedule name) [] ≡ find_last (is_schedule name) []))
diff_job_definitions_iff_example =
    diff_job_definitions_iff (job "EXEC a" []) (job "EXEC b" []) one_step (λ a b m n k. absurd m)

body_changed :
    diff_job_definitions (job "EXEC a" []) (job "EXEC b" [])
    ≡ step_change (record {
      change = modified;
      step_id = 1;
      step_name = "load";
      fields = some [];
      command_before = some "EXEC a";
      command_after = some "EXEC b";
    })
      ∷ []
unfolding diff_job_definitions diff_steps diff_schedules step_changes changed_fields present gone
body_changed = refl

-- The target servers are no part of the difference.
servers_changed : diff_job_definitions (job "EXEC a" []) (job "EXEC a" ("sql02" ∷ [])) ≡ []
unfolding diff_job_definitions diff_steps diff_schedules step_changes changed_fields present gone
servers_changed = refl
