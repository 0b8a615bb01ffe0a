-- ===== src/JobFlow/Examples.antt =====
-- Tests and instances for the flow of a job: three steps, of which the first jumps over the second on success and
-- quits on failure.
use remote_sql_agent.Prelude.{
  inl, ℕ, ◌==◌, ◌≡◌, refl, ◌≢◌, ◌↔◌, true, false, none, some, List, [], ◌∷◌, includes, is_some,
  arith,
}
use remote_sql_agent.Job.{JobDefinition, JobStep, StepSubsystem}
use remote_sql_agent.JobFlow.{
  CompletedStep, next_step_after, infer_running_step, step_by_id, visit, search_loop, search_fuel,
  reachable_steps,
}
use remote_sql_agent.JobFlow.Reach.{Reaches}
use remote_sql_agent.JobFlow.Correct.{search_loop_returns, reachable_steps_iff}
use remote_sql_agent.JobFlow.Running.{Runs, begins, succeeds, IsDistinct, Runs-infer_running_step}

abbrev step : ℕ → ℕ → ℕ → ℕ → JobStep
step id success target fail = record {
  step_id = id;
  name = "step";
  subsystem = StepSubsystem.tsql;
  command = "SELECT 1";
  database_name = none;
  database_user_name = none;
  on_success_action = success;
  on_success_step_id = target;
  on_fail_action = fail;
  on_fail_step_id = 0;
  retry_attempts = 0;
  retry_interval_minutes = 0;
  output_file_name = none;
  flags = 0;
  proxy_name = none;
}

abbrev job : JobDefinition
job = record {
  name = "nightly";
  description = none;
  enabled = true;
  category_name = none;
  owner_login_name = none;
  start_step_id = 1;
  notifications = record {
    email_operator_name = none;
    email_level = 0;
    netsend_operator_name = none;
    netsend_level = 0;
    page_operator_name = none;
    page_level = 0;
    eventlog_level = 0;
    delete_level = 0;
  };
  steps = step 1 4 3 2 ∷ step 2 3 0 2 ∷ step 3 3 0 2 ∷ [];
  schedules = [];
  target_servers = [];
}

reachable_test : reachable_steps job ≡ 1 ∷ 3 ∷ []
unfolding reachable_steps visit next_step_after
reachable_test = refl

search_loop_returns_example :
    (l : List ℕ) × (search_loop job
        (search_fuel job)
        (record { seen = []; queue = job.start_step_id ∷ [] })
      ≡ some l)
search_loop_returns_example = search_loop_returns job

reachable_steps_iff_example :
    (includes (reachable_steps job) 2 ≡ true)
    ↔ (Reaches job 2 × (is_some (step_by_id job.steps 2) ≡ true))
reachable_steps_iff_example = reachable_steps_iff job 2

abbrev first_done : CompletedStep
first_done = record { step_id = 1; run_status = 1 }

apart : (m n : ℕ) → (m == n) ≡ false → m ≢ n
apart m n h e = absurd (ground (arith, h, e))

job-IsDistinct : IsDistinct job.steps
job-IsDistinct = ((apart 1 2 refl, (apart 1 3 refl, tt)), ((apart 2 3 refl, tt), (tt, tt)))

job-Runs : Runs job (first_done ∷ []) (some 3)
job-Runs =
    succeeds first_done (step 1 4 3 2) begins (inl refl) refl refl refl
      (inl (refl, inl (apart 3 0 refl, refl)))

Runs-infer_running_step_example : infer_running_step job (first_done ∷ []) ≡ some 3
Runs-infer_running_step_example = Runs-infer_running_step job job-IsDistinct job-Runs
