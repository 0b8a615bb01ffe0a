-- ===== src/JobEdit/Examples.antt =====
-- Tests and instances for structural edits: a job of three steps, the first of which jumps to the third.
use remote_sql_agent.Prelude.{
  ℕ, ◌≡◌, refl, ◌⊎◌, inl, true, false, none, List, [], ◌∷◌, map, includes, arith,
}
use remote_sql_agent.Job.{JobDefinition, JobStep, StepSubsystem}
use remote_sql_agent.JobFlow.{next_step_after, reachable_steps, visit}
use remote_sql_agent.JobEdit.Steps.{down, move_step, reorder_step}
use remote_sql_agent.JobEdit.Toggle.{disable_step}
use remote_sql_agent.JobEdit.Disabled.{disable_step-unreachable}
use remote_sql_agent.JobEdit.Renumbering.{IsIdentified}
use remote_sql_agent.JobEdit.Moved.{Lacks, AtEnd, MovedBy, StandsAt, MovedTo, moved-Rearranged}

abbrev step : ℕ → ℕ → ℕ → JobStep
step id success target = record {
  step_id = id;
  name = "step";
  subsystem = StepSubsystem.tsql;
  command = "SELECT 1";
  database_name = none;
  database_user_name = none;
  on_success_action = success;
  on_success_step_id = target;
  on_fail_action = 2;
  on_fail_step_id = 0;
  retry_attempts = 0;
  retry_interval_minutes = 0;
  output_file_name = none;
  flags = 0;
  proxy_name = none;
}

abbrev job : List JobStep → JobDefinition
job steps = record {
  name = "nightly";
  description = none;
  enabled = true;
  category_name = none;
  owner_login_name = none;
  start_step_id = 1;
  notifications = record {
    email_operator_name = none;
    email_level = 0;
    netsend_operator_name = none;
    netsend_level = 0;
    page_operator_name = none;
    page_level = 0;
    eventlog_level = 0;
    delete_level = 0;
  };
  steps = steps;
  schedules = [];
  target_servers = [];
}

abbrev jumping : JobDefinition
jumping = job (step 1 4 3 ∷ step 2 3 0 ∷ step 3 1 0 ∷ [])

abbrev named : JobDefinition
named = job (
    record (step 1 3 0) { name = "a" }
    ∷ record (step 2 3 0) { name = "b" }
    ∷ record (step 3 1 0) { name = "c" }
    ∷ [])

moved_targets :
    map (λ s. s.on_success_step_id) (move_step jumping 1 down).definition.steps ≡ 0 ∷ 3 ∷ 0 ∷ []
unfolding move_step
moved_targets = refl

jumping-IsIdentified : IsIdentified jumping
jumping-IsIdentified s t m n e = ground arith

-- The first step goes behind the second.
moved_names : map (λ s. s.name) (move_step named 1 down).definition.steps ≡ "b" ∷ "a" ∷ "c" ∷ []
unfolding move_step
moved_names = refl

moved-Rearranged_example :
    ((((move_step jumping 1 down).definition ≡ jumping) × (Lacks jumping 1 ⊎ AtEnd jumping 1 down))
      ⊎ MovedBy jumping 1 down (move_step jumping 1 down).definition)
    × ((((reorder_step jumping 1 2).definition ≡ jumping)
          × (Lacks jumping 1 ⊎ StandsAt jumping 1 2))
        ⊎ MovedTo jumping 1 2 (reorder_step jumping 1 2).definition)
moved-Rearranged_example = moved-Rearranged jumping 1 2 down jumping-IsIdentified

next_of_third : next_step_after jumping (step 3 1 0) true ≡ none
unfolding next_step_after
next_of_third = refl

disable_step-unreachable_example :
    includes (reachable_steps (disable_step jumping 3).definition) 3 ≡ false
disable_step-unreachable_example =
    disable_step-unreachable jumping 3 (step 3 1 0) refl refl
      (λ e. absurd (ground (arith, next_of_third, e))) (inl (λ e. absurd (omega (arith, e))))

-- A step that goes to itself on success is still reached after it was disabled.
self_loop_reached :
    includes (reachable_steps (disable_step (job (step 1 4 1 ∷ step 2 1 0 ∷ [])) 1).definition) 1
    ≡ true
unfolding disable_step reachable_steps visit next_step_after
self_loop_reached = refl
