-- ===== src/JobEdit/Steps.antt =====
-- packages/protocol/src/job-edit.ts: adding, removing, moving and updating a step. The text `Step ${n}` is a parameter,
-- and so is what the given fields of a new step or a patch do to a step.
use remote_sql_agent.Prelude.{
  ℕ, zero, suc, ◌+◌, ◌-◌, ◌==◌, ltb, min, if◌then◌else◌, false, String, str_eq, Option, none, some,
  List, [], ◌∷◌, ◌++◌, map, length, any, take, drop,
}
use remote_sql_agent.Job.{JobDefinition, JobStep, StepSubsystem, quit_with_failure, go_to_next_step}
use remote_sql_agent.JobEdit.Nodes.{
  Warning, unknown_step, only_step_kept, StepEditResult, Node, to_nodes, rebuild,
}

unfoldable pub new_step_template : String → JobStep
new_step_template name = record {
  step_id = 1;
  name = name;
  subsystem = StepSubsystem.tsql;
  command = "";
  database_name = some "master";
  database_user_name = none;
  on_success_action = go_to_next_step;
  on_success_step_id = 0;
  on_fail_action = quit_with_failure;
  on_fail_step_id = 0;
  retry_attempts = 0;
  retry_interval_minutes = 0;
  output_file_name = none;
  flags = 0;
  proxy_name = none;
}

-- `findIndex`, with `none` for -1.
abbrev pub index_from : ℕ → List Node → ℕ → Option ℕ
index_from i [] step_id = none
index_from i (n ∷ rest) step_id =
    if n.step.step_id == step_id then some i else index_from (suc i) rest step_id

abbrev pub index_of : List Node → ℕ → Option ℕ
index_of nodes step_id = index_from 0 nodes step_id

-- `splice(i, 0, n)` and `splice(i, 1)`.
abbrev pub splice_in : ℕ → Node → List Node → List Node
splice_in i n nodes = take i nodes ++ n ∷ drop i nodes

abbrev pub splice_out : ℕ → List Node → List Node
splice_out i nodes = take i nodes ++ drop (suc i) nodes

abbrev pub unchanged : JobDefinition → StepEditResult
unchanged d = record { definition = d; warnings = [] }

-- The loop of `nextStepName`; the fuel is one more than the names that may be taken.
unfoldable pub free_name : (ℕ → String) → List String → ℕ → ℕ → String
free_name step_name taken zero n = step_name n
free_name step_name taken (suc fuel) n =
    let later = free_name step_name taken fuel (suc n) in
    if any (λ t. str_eq t (step_name n)) taken then later else step_name n

unfoldable pub next_step_name : (ℕ → String) → JobDefinition → String
unfolding free_name
next_step_name step_name d =
    let count = length d.steps in free_name step_name (map (λ s. s.name) d.steps) count (count + 1)

-- The index after which the step goes, or the length of the list for its end; and the warning.
abbrev pub insertion : List Node → Option ℕ → ℕ × List Warning
insertion nodes none = (length nodes, [])
insertion nodes (some requested) = elim (index_of nodes requested) [
  | none ↦ (length nodes, unknown_step requested ∷ [])
  | some i ↦ (suc i, [])
]

unfoldable pub add_step :
    (ℕ → String) → (JobStep → JobStep) → JobDefinition → Option ℕ → StepEditResult
unfolding to_nodes rebuild next_step_name new_step_template
add_step step_name given d after_step_id =
    let nodes = to_nodes d in
    let created : Node = record {
      id = length nodes;
      step = given (new_step_template (next_step_name step_name d));
      on_success_target = none;
      on_fail_target = none;
      was_last = false;
    } in
    let (at, warnings) = insertion nodes after_step_id in
    let result = rebuild d (splice_in at created nodes) [] in
    record { definition = result.definition; warnings = warnings ++ result.warnings }

unfoldable pub remove_step : JobDefinition → ℕ → StepEditResult
unfolding to_nodes rebuild
remove_step d step_id =
    let nodes = to_nodes d in
    elim (index_of nodes step_id) [
      | none ↦ unchanged d
      | some i ↦
          if length nodes == 1
          then record { definition = d; warnings = only_step_kept ∷ [] }
          else rebuild d (splice_out i nodes) (take 1 (drop i nodes))
    ]

pub data Direction : Type 0 where
  up down : Direction

-- The neighbours at an index and the next change places.
abbrev pub swap_at : ℕ → List Node → List Node
swap_at i [] = []
swap_at i (a ∷ []) = a ∷ []
swap_at zero (a ∷ b ∷ rest) = b ∷ a ∷ rest
swap_at (suc i) (a ∷ b ∷ rest) = a ∷ swap_at i (b ∷ rest)

-- The lower of the two indices that change places, if both are in the list.
abbrev pub lower_index : List Node → Direction → ℕ → Option ℕ
lower_index nodes up zero = none
lower_index nodes up (suc i) = some i
lower_index nodes down i = if ltb (suc i) (length nodes) then some i else none

unfoldable pub move_step : JobDefinition → ℕ → Direction → StepEditResult
unfolding to_nodes rebuild
move_step d step_id direction =
    let nodes = to_nodes d in
    elim (index_of nodes step_id) [
      | none ↦ unchanged d
      | some index ↦ elim (lower_index nodes direction index) [
        | none ↦ unchanged d
        | some i ↦ rebuild d (swap_at i nodes) []
      ]
    ]

-- A position that is not negative; `Math.trunc` leaves a whole number as it is.
unfoldable pub reorder_step : JobDefinition → ℕ → ℕ → StepEditResult
unfolding to_nodes rebuild
reorder_step d step_id to_index =
    let nodes = to_nodes d in
    elim (index_of nodes step_id) [
      | none ↦ unchanged d
      | some from ↦
          let to = min (length nodes - 1) to_index in
          if to == from
          then unchanged d
          else rebuild d
              (take to (splice_out from nodes)
                ++ (take 1 (drop from nodes) ++ drop to (splice_out from nodes)))
              []
    ]

unfoldable pub update_step : JobDefinition → ℕ → (JobStep → JobStep) → JobDefinition
update_step d step_id patch = record d {
  steps =
      map (λ s. if s.step_id == step_id then record (patch s) { step_id = step_id } else s) d.steps;
}
