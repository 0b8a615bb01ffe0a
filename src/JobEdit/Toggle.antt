-- ===== src/JobEdit/Toggle.antt =====
-- packages/protocol/src/job-edit.ts: `disableStep` and `enableStep`, which route the flow around a step and back.
use remote_sql_agent.Prelude.{
  ℕ, ◌==◌, if◌then◌else◌, Bool, true, false, not, ◌&&◌, ◌||◌, String, Option, none, some, is_some,
  List, [], ◌∷◌, ◌++◌, map, find, includes, sort_by,
}
use remote_sql_agent.Job.{
  JobDefinition, JobStep, quit_with_success, quit_with_failure, go_to_next_step, go_to_step,
}
use remote_sql_agent.JobFlow.{next_step_after, reachable_steps}
use remote_sql_agent.JobEdit.Nodes.{
  Warning, only_step_runs, branch_repointed, starts_at, nothing_to_run, StepEditResult, and_then,
}
use remote_sql_agent.JobEdit.Steps.{unchanged}

-- `nextStepAfter(...) === id`.
abbrev pub is_next : Option ℕ → ℕ → Bool
is_next none id = false
is_next (some n) id = n == id

-- `arrivesHere`, for a branch with its action, its target and its next step.
abbrev pub arrives : ℕ → ℕ → Option ℕ → ℕ → Bool
arrives action target next id =
    action == go_to_step && target == id || action == go_to_next_step && is_next next id

abbrev repointed : ℕ → String → String → Bool → List Warning
repointed action name target success =
    if action == go_to_step then branch_repointed name target success ∷ [] else []

-- The success branch of a step, sent past the disabled one.
unfoldable pub bypass_success :
    JobDefinition → JobStep → Option ℕ → JobStep → JobStep × List Warning
unfolding next_step_after
bypass_success d target bypass s =
    if arrives s.on_success_action s.on_success_step_id (next_step_after d s true) target.step_id
    then elim bypass [
      | none ↦ (
        record s { on_success_action = quit_with_success; on_success_step_id = 0 },
        repointed s.on_success_action s.name target.name true,
      )
      | some b ↦ (
        record s { on_success_action = go_to_step; on_success_step_id = b },
        repointed s.on_success_action s.name target.name true,
      )
    ]
    else (s, [])

unfoldable pub bypass_fail :
    JobDefinition → JobStep → Option ℕ → JobStep → JobStep → JobStep × List Warning
unfolding next_step_after
bypass_fail d target bypass original s =
    if arrives s.on_fail_action s.on_fail_step_id (next_step_after d original false) target.step_id
    then elim bypass [
      | none ↦ (
        record s { on_fail_action = quit_with_failure; on_fail_step_id = 0 },
        repointed s.on_fail_action s.name target.name false,
      )
      | some b ↦ (
        record s { on_fail_action = go_to_step; on_fail_step_id = b },
        repointed s.on_fail_action s.name target.name false,
      )
    ]
    else (s, [])

unfoldable pub bypass_step : JobDefinition → JobStep → Option ℕ → JobStep → JobStep × List Warning
unfolding bypass_success bypass_fail
bypass_step d target bypass s =
    if s.step_id == target.step_id
    then (s, [])
    else and_then (bypass_success d target bypass s) (bypass_fail d target bypass s)

-- The steps with the warnings of each, in order.
unfoldable pub bypass_steps :
    JobDefinition → JobStep → Option ℕ → List JobStep → List JobStep × List Warning
unfolding bypass_step
bypass_steps d target bypass [] = ([], [])
bypass_steps d target bypass (s ∷ rest) =
    let (s', ws) = bypass_step d target bypass s in
    let (ss, ws') = bypass_steps d target bypass rest in (s' ∷ ss, ws ++ ws')

abbrev pub is_single : List JobStep → Bool
is_single [] = false
is_single (s ∷ []) = true
is_single (s ∷ t ∷ rest) = false

-- The end of `disableStep`: the start step moves on too, if it is the disabled one.
abbrev pub with_start :
    JobDefinition → JobStep → Option ℕ → List JobStep → List Warning → StepEditResult
with_start d target bypass steps warnings =
    if d.start_step_id == target.step_id
    then elim bypass [
      | none ↦ record { definition = d; warnings = nothing_to_run target.name ∷ [] }
      | some b ↦ record {
        definition = record d { steps = steps; start_step_id = b };
        warnings = warnings ++ starts_at target.name b ∷ [];
      }
    ]
    else record { definition = record d { steps = steps }; warnings = warnings }

unfoldable pub disable_step : JobDefinition → ℕ → StepEditResult
unfolding next_step_after bypass_steps
disable_step d step_id = elim (find (λ s. s.step_id == step_id) d.steps) [
  | none ↦ unchanged d
  | some target ↦
      if is_single d.steps
      then record { definition = d; warnings = only_step_runs ∷ [] }
      else (let bypass = next_step_after d target true in
          let (steps, warnings) = bypass_steps d target bypass d.steps in
          with_start d target bypass steps warnings)
]

-- `ordered[index - 1]`, and the id of `ordered[index + 1]`, for the index of the step.
abbrev previous_from : Option JobStep → List JobStep → ℕ → Option JobStep
previous_from before [] id = none
previous_from before (s ∷ rest) id =
    if s.step_id == id then before else previous_from (some s) rest id

abbrev head_id : List JobStep → Option ℕ
head_id [] = none
head_id (s ∷ rest) = some s.step_id

abbrev following : List JobStep → ℕ → Option ℕ
following [] id = none
following (s ∷ rest) id = if s.step_id == id then head_id rest else following rest id

-- The success branch of the step above, put back if it has the shape that `disableStep` leaves.
unfoldable pub restore_success : JobDefinition → ℕ → Option ℕ → JobStep → JobStep
unfolding next_step_after
restore_success d step_id bypass s =
    let jumped_over = s.on_success_action == go_to_step && is_next bypass s.on_success_step_id in
    let ended_instead = not (is_some bypass) && s.on_success_action == quit_with_success in
    if is_next (next_step_after d s true) step_id
    then s
    else (if jumped_over || ended_instead
        then record s { on_success_action = go_to_next_step; on_success_step_id = 0 }
        else s)

unfoldable pub restore_fail : JobDefinition → ℕ → Option ℕ → JobStep → JobStep → JobStep
unfolding next_step_after
restore_fail d step_id bypass original s =
    let jumped_over = s.on_fail_action == go_to_step && is_next bypass s.on_fail_step_id in
    if is_next (next_step_after d original false) step_id
    then s
    else (if jumped_over
        then record s { on_fail_action = go_to_next_step; on_fail_step_id = 0 }
        else s)

-- The step itself, which has to lead somewhere.
abbrev pub reopened : Bool → JobStep → JobStep
reopened is_last s =
    if s.on_success_action == go_to_next_step && is_last
    then record s { on_success_action = quit_with_success; on_success_step_id = 0 }
    else s

unfoldable pub restore_step : JobDefinition → ℕ → Option JobStep → Option ℕ → JobStep → JobStep
unfolding restore_success restore_fail
restore_step d step_id previous bypass s =
    if s.step_id == step_id then reopened (not (is_some bypass)) s else elim previous [
      | none ↦ s
      | some p ↦
          if s.step_id == p.step_id
          then restore_fail d step_id bypass s (restore_success d step_id bypass s)
          else s
    ]

unfoldable pub enable_step : JobDefinition → ℕ → StepEditResult
unfolding restore_step reachable_steps
enable_step d step_id = elim (find (λ s. s.step_id == step_id) d.steps) [
  | none ↦ unchanged d
  | some target ↦
      if includes (reachable_steps d) step_id
      then unchanged d
      else (let ordered = sort_by (λ s. s.step_id) d.steps in
          let previous = previous_from none ordered step_id in
          record {
            definition = record d {
              steps = map (restore_step d step_id previous (following ordered step_id)) d.steps;
              start_step_id = if is_some previous then d.start_step_id else step_id;
            };
            warnings = [];
          })
]
