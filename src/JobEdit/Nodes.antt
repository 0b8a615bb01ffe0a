-- ===== src/JobEdit/Nodes.antt =====
-- packages/protocol/src/job-edit.ts: the graph of a job's steps, `toNodes` and `rebuild`. A node object is known by a
-- number of its own, so that maps and sets of nodes go by that number. A warning keeps what its text names.
use remote_sql_agent.Prelude.{
  ℕ, suc, ◌==◌, if◌then◌else◌, Bool, true, false, not, ◌&&◌, String, Option, none, some, List, [],
  ◌∷◌, ◌++◌, map, any, find, find_last, sort_by,
}
use remote_sql_agent.Job.{
  JobDefinition, JobStep, quit_with_success, quit_with_failure, go_to_next_step, go_to_step,
}

pub data Warning : Type 0 where
  unknown_step : ℕ → Warning
  only_step_kept only_step_runs start_removed : Warning
  -- The step, its name, and whether it goes on to a next step.
  success_repaired : ℕ → String → Bool → Warning
  failure_repaired last_quits_success last_quits_failure no_longer_last : ℕ → String → Warning
  -- The step, the one that it went to, and whether on success.
  branch_repointed : String → String → Bool → Warning
  starts_at : String → ℕ → Warning
  nothing_to_run : String → Warning

pub record StepEditResult : Type 0 where
  pub definition : JobDefinition
  pub warnings : List Warning

pub record Node : Type 0 where
  pub id : ℕ
  pub step : JobStep
  pub on_success_target : Option ℕ
  pub on_fail_target : Option ℕ
  pub was_last : Bool

abbrev pub is_empty : List JobStep → Bool
is_empty [] = true
is_empty (s ∷ rest) = false

-- The nodes of the ordered steps, numbered on from a number, without targets.
abbrev pub bare_nodes : ℕ → List JobStep → List Node
bare_nodes i [] = []
bare_nodes i (s ∷ rest) =
    record {
      id = i;
      step = s;
      on_success_target = none;
      on_fail_target = none;
      was_last = is_empty rest;
    }
    ∷ bare_nodes (suc i) rest

-- `byStepId.get(id) ?? null`: the last of several nodes with one step id.
abbrev pub node_of_step : List Node → ℕ → Option ℕ
node_of_step nodes step_id = elim (find_last (λ n. n.step.step_id == step_id) nodes) [
  | none ↦ none
  | some n ↦ some n.id
]

abbrev pub resolve : List Node → Node → Node
resolve nodes n = record n {
  on_success_target =
      if n.step.on_success_action == go_to_step
      then node_of_step nodes n.step.on_success_step_id
      else none;
  on_fail_target =
      if n.step.on_fail_action == go_to_step
      then node_of_step nodes n.step.on_fail_step_id
      else none;
}

unfoldable pub to_nodes : JobDefinition → List Node
to_nodes d =
    let nodes = bare_nodes 0 (sort_by (λ s. s.step_id) d.steps) in map (resolve nodes) nodes

-- `positionOf`: one more than the index of the node.
abbrev pub position_from : ℕ → List Node → ℕ → Option ℕ
position_from i [] id = none
position_from i (n ∷ rest) id = if n.id == id then some i else position_from (suc i) rest id

abbrev pub position_of : List Node → Option ℕ → Option ℕ
position_of nodes none = none
position_of nodes (some id) = position_from 1 nodes id

-- The success branch of a step: kept on its target, repaired, or cleared.
unfoldable pub mend_success : List Node → Node → Bool → JobStep → JobStep × List Warning
mend_success nodes n is_last s =
    if s.on_success_action == go_to_step
    then elim (position_of nodes n.on_success_target) [
      | some p ↦ (record s { on_success_step_id = p }, [])
      | none ↦ (
        record s {
          on_success_action = if is_last then quit_with_success else go_to_next_step;
          on_success_step_id = 0;
        },
        success_repaired s.step_id s.name (not is_last) ∷ [],
      )
    ]
    else (record s { on_success_step_id = 0 }, [])

unfoldable pub mend_fail : List Node → Node → JobStep → JobStep × List Warning
mend_fail nodes n s =
    if s.on_fail_action == go_to_step
    then elim (position_of nodes n.on_fail_target) [
      | some p ↦ (record s { on_fail_step_id = p }, [])
      | none ↦ (
        record s { on_fail_action = quit_with_failure; on_fail_step_id = 0 },
        failure_repaired s.step_id s.name ∷ [],
      )
    ]
    else (record s { on_fail_step_id = 0 }, [])

-- The first part of `applyEndOfListDefaults`, for each branch.
abbrev pub end_success : JobStep → JobStep × List Warning
end_success s =
    if s.on_success_action == go_to_next_step
    then (
      record s { on_success_action = quit_with_success; on_success_step_id = 0 },
      last_quits_success s.step_id s.name ∷ [],
    )
    else (s, [])

abbrev pub end_fail : JobStep → JobStep × List Warning
end_fail s =
    if s.on_fail_action == go_to_next_step
    then (
      record s { on_fail_action = quit_with_failure; on_fail_step_id = 0 },
      last_quits_failure s.step_id s.name ∷ [],
    )
    else (s, [])

-- The second part: a step that ended the job because it was last goes on.
abbrev pub no_longer_end : JobStep → JobStep × List Warning
no_longer_end s =
    if s.on_success_action == quit_with_success && s.on_fail_action == quit_with_failure
    then (
      record s { on_success_action = go_to_next_step; on_success_step_id = 0 },
      no_longer_last s.step_id s.name ∷ [],
    )
    else (s, [])

-- One change after another, with the warnings of both.
abbrev pub and_then :
    JobStep × List Warning → (JobStep → JobStep × List Warning) → JobStep × List Warning
and_then (s, ws) f = let (s', ws') = f s in (s', ws ++ ws')

unfoldable pub apply_end_of_list_defaults : Bool → Bool → JobStep → JobStep × List Warning
apply_end_of_list_defaults is_last was_last s =
    if is_last && not was_last
    then and_then (end_success s) end_fail
    else (if was_last && not is_last then no_longer_end s else (s, []))

abbrev pub is_end : List Node → Bool
is_end [] = true
is_end (n ∷ rest) = false

-- The step at a position of the new list.
unfoldable pub rebuild_step : List Node → ℕ → Bool → Node → JobStep × List Warning
unfolding mend_success mend_fail apply_end_of_list_defaults
rebuild_step nodes position is_last n =
    and_then
      (and_then (mend_success nodes n is_last (record n.step { step_id = position }))
        (mend_fail nodes n))
      (apply_end_of_list_defaults is_last n.was_last)

unfoldable pub rebuild_steps : List Node → ℕ → List Node → List JobStep × List Warning
unfolding rebuild_step
rebuild_steps nodes i [] = ([], [])
rebuild_steps nodes i (n ∷ rest) =
    let (s, ws) = rebuild_step nodes i (is_end rest) n in
    let (ss, ws') = rebuild_steps nodes (suc i) rest in (s ∷ ss, ws ++ ws')

abbrev pub starts : JobDefinition → Node → Bool
starts d n = n.step.step_id == d.start_step_id

abbrev pub or_one : Option ℕ → ℕ
or_one none = 1
or_one (some p) = p

abbrev pub id_of : Option Node → Option ℕ
id_of none = none
id_of (some n) = some n.id

unfoldable pub rebuild : JobDefinition → List Node → List Node → StepEditResult
unfolding rebuild_steps
rebuild d nodes removed =
    let (steps, warnings) = rebuild_steps nodes 1 nodes in
    let removed_start = any (starts d) removed in
    record {
      definition = record d {
        steps = steps;
        start_step_id =
            if removed_start then 1 else or_one (position_of nodes (id_of (find (starts d) nodes)));
      };
      warnings = warnings ++ (if removed_start then start_removed ∷ [] else []);
    }
