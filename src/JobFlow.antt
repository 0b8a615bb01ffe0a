-- ===== src/JobFlow.antt =====
-- packages/protocol/src/job-flow.ts: which step runs next, and which steps can be reached at all.
pub mod Reach
pub mod Correct
pub mod Running
mod Examples
use remote_sql_agent.Prelude.{
  or_null, ℕ, zero, suc, ◌+◌, ◌*◌, ◌==◌, ltb, if◌then◌else◌, Bool, true, false, not, ◌&&◌, Option,
  none, some, List, [], ◌∷◌, ◌++◌, length, filter, find, find_last, includes, sort_by,
}
use remote_sql_agent.Job.{JobDefinition, JobStep, go_to_step, go_to_next_step}

-- `RunStatus`, as msdb's run_status.
abbrev pub succeeded_status : ℕ
succeeded_status = 1

abbrev pub retry_status : ℕ
retry_status = 2

abbrev pub cancelled_status : ℕ
cancelled_status = 3

pub record CompletedStep : Type 0 where
  pub step_id : ℕ
  pub run_status : ℕ

-- The first step of the list, by id: `[0]` of the sorted array.
abbrev pub first_id : List JobStep → Option ℕ
first_id [] = none
first_id (s ∷ rest) = some s.step_id

unfoldable pub next_step_after : JobDefinition → JobStep → Bool → Option ℕ
next_step_after definition step succeeded =
    let action = if succeeded then step.on_success_action else step.on_fail_action in
    let target = if succeeded then step.on_success_step_id else step.on_fail_step_id in
    if action == go_to_step
    then or_null target
    else (if action == go_to_next_step
        then first_id
            (sort_by (λ s. s.step_id) (filter (λ s. ltb step.step_id s.step_id) definition.steps))
        else none)

abbrev pub last_of : List CompletedStep → Option CompletedStep
last_of [] = none
last_of (c ∷ rest) = elim (last_of rest) [ none ↦ some c | some d ↦ some d ]

-- What follows the last completed step, once its definition has been found.
abbrev pub after_completed : JobDefinition → CompletedStep → JobStep → Option ℕ
after_completed definition last step =
    if last.run_status == retry_status
    then some step.step_id
    else (if last.run_status == cancelled_status
        then none
        else next_step_after definition step (last.run_status == succeeded_status))

unfoldable pub infer_running_step : JobDefinition → List CompletedStep → Option ℕ
infer_running_step definition completed = elim (last_of completed) [
  | none ↦ some definition.start_step_id
  | some last ↦ elim (find (λ s. s.step_id == last.step_id) definition.steps) [
    | none ↦ none
    | some step ↦ after_completed definition last step
  ]
]

-- `byStepId`: a `Map`, so the last of several steps with one id is the one found.
unfoldable pub step_by_id : List JobStep → ℕ → Option JobStep
step_by_id steps id = find_last (λ s. s.step_id == id) steps

-- `if (next !== null && !seen.has(next)) queue.push(next)`; the head of the list is the end of `queue`.
unfoldable pub push_unseen : List ℕ → Option ℕ → List ℕ → List ℕ
push_unseen seen none queue = queue
push_unseen seen (some next) queue = if includes seen next then queue else next ∷ queue

pub record Search : Type 0 where
  pub seen : List ℕ
  pub queue : List ℕ

-- One round of the `while` loop, after `stepId` was popped.
unfoldable pub visit : JobDefinition → Search → ℕ → Search
unfolding step_by_id push_unseen
visit definition s step_id =
    if includes s.seen step_id then s else elim (step_by_id definition.steps step_id) [
      | none ↦ s
      | some step ↦
          let seen = s.seen ++ step_id ∷ [] in
          record {
            seen = seen;
            queue =
                push_unseen seen (next_step_after definition step false)
                  (push_unseen seen (next_step_after definition step true) s.queue);
          }
    ]

-- The loop on fuel; `none` says that the fuel ran out with the queue not empty.
unfoldable pub search_loop : JobDefinition → ℕ → Search → Option (List ℕ)
search_loop definition zero s = elim s.queue [ [] ↦ some s.seen | _ ∷ _ ↦ none ]
search_loop definition (suc fuel) s = elim s.queue [
  | [] ↦ some s.seen
  | step_id ∷ rest ↦
      search_loop definition fuel (visit definition (record s { queue = rest }) step_id)
]

abbrev pub search_fuel : JobDefinition → ℕ
search_fuel definition = suc (2 * length definition.steps)

abbrev pub or_empty : Option (List ℕ) → List ℕ
or_empty none = []
or_empty (some l) = l

-- `reachableSteps`, the set as the list of its entries in the order of insertion.
unfoldable pub reachable_steps : JobDefinition → List ℕ
unfolding search_loop
reachable_steps definition = or_empty (
    search_loop definition (search_fuel definition)
      (record { seen = []; queue = definition.start_step_id ∷ [] }))

unfoldable pub unreachable_steps : JobDefinition → List JobStep
unfolding reachable_steps
unreachable_steps definition =
    sort_by (λ s. s.step_id)
      (filter (λ s. not (includes (reachable_steps definition) s.step_id)) definition.steps)

unfoldable pub is_step_disabled : JobDefinition → ℕ → Bool
unfolding reachable_steps
is_step_disabled definition step_id = not (includes (reachable_steps definition) step_id)
