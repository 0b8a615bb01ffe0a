-- ===== src/JobEdit/Moved.antt =====
-- packages/protocol/src/job-edit.ts: `moveStep` and `reorderStep`, and where they leave each step.
use remote_sql_agent.Prelude.{
  ℕ, zero, suc, ◌-◌, ◌==◌, ==_iff, ltb, min, ◌≤◌, ◌≡◌, ◌≢◌, refl, sym, ap, ◌∙◌, subst, ◌⊎◌, inl,
  inr, none, some, List, [], ◌∷◌, ◌++◌, length, take, drop, take-append-drop, Elem, Elem-map_source,
  arith, Bool-cases, Option-cases,
}
use remote_sql_agent.Job.{JobDefinition, JobStep}
use remote_sql_agent.JobEdit.Nodes.{Node, to_nodes, rebuild}
use remote_sql_agent.JobEdit.Steps.{
  index_of, swap_at, splice_out, Direction, up, down, move_step, reorder_step,
}
use remote_sql_agent.JobEdit.Renumbering.{Elem-sort_by, swap_at-SameNodes, IsIdentified}
use remote_sql_agent.JobEdit.Positions.{
  sorted_steps, steps_of, steps_of-append, steps_of-to_nodes, nth, index_from-nth, index_from-none,
  nth-split, nth-before, nth-within, nth-last, swap_at_lem,
}
use remote_sql_agent.JobEdit.Spliced.{take-drop-SameNodes}
use remote_sql_agent.JobEdit.Rearranged.{
  Rearranged, length-to_nodes, length-swap_at, rebuild-Rearranged,
}

-- No step has the id.
abbrev pub Lacks : JobDefinition → ℕ → Type 0
Lacks d id = (s : JobStep) → Elem s d.steps → s.step_id ≢ id

-- A step of the id is the first, or the last, so that it cannot go up, or down.
abbrev pub AtEnd : JobDefinition → ℕ → Direction → Type 0
AtEnd d id up = (b : List JobStep) × (x : JobStep) × (sorted_steps d ≡ x ∷ b) × (x.step_id ≡ id)
AtEnd d id down =
    (a : List JobStep) × (x : JobStep) × (sorted_steps d ≡ a ++ x ∷ []) × (x.step_id ≡ id)

-- Of two neighbours, the one that moves.
abbrev pub mover : Direction → JobStep → JobStep → JobStep
mover up w x = x
mover down w x = w

-- The step of the id changed places with its neighbour in the direction.
abbrev pub MovedBy : JobDefinition → ℕ → Direction → JobDefinition → Type 0
MovedBy d id direction d' =
    (a : List JobStep) × (b : List JobStep) × (w : JobStep) × (x : JobStep) × (sorted_steps d
      ≡ a ++ (w ∷ (x ∷ b)))
    × ((mover direction w x).step_id ≡ id)
    × Rearranged d (a ++ (x ∷ (w ∷ b))) d'

-- The step of the id stands at a position already.
abbrev pub StandsAt : JobDefinition → ℕ → ℕ → Type 0
StandsAt d id to =
    (a : List JobStep) × (b : List JobStep) × (x : JobStep) × (sorted_steps d ≡ a ++ (x ∷ b))
    × (x.step_id ≡ id)
    × (length a ≡ to)

-- The step of the id was taken out of the list and put back at a position.
abbrev pub MovedTo : JobDefinition → ℕ → ℕ → JobDefinition → Type 0
MovedTo d id to d' =
    (a : List JobStep) × (b : List JobStep) × (x : JobStep) × (c : List JobStep) × (e : List
      JobStep)
    × (sorted_steps d ≡ a ++ (x ∷ b))
    × (x.step_id ≡ id)
    × (a ++ b ≡ c ++ e)
    × (length c ≡ to)
    × Rearranged d (c ++ (x ∷ e)) d'

index_of-Lacks : (d : JobDefinition) (id : ℕ) → index_of (to_nodes d) id ≡ none → Lacks d id
index_of-Lacks d id h s m =
    let there : Elem s (steps_of (to_nodes d)) =
      subst (λ l. Elem s l) (sym (steps_of-to_nodes d)) (Elem-sort_by s d.steps m) in
    let (n, k, e) = Elem-map_source (λ (x : Node). x.step) s (to_nodes d) there in
    λ own. index_from-none 0 id (to_nodes d) h n k (ap (λ t. t.step_id) (sym e) ∙ own)

-- Lists of nodes and of their steps, with a step between.
parts :
    (d : JobDefinition) (a b : List Node)
    → to_nodes d ≡ a ++ b
    → sorted_steps d ≡ steps_of a ++ steps_of b
parts d a b e = sym (steps_of-to_nodes d) ∙ ap steps_of e ∙ steps_of-append a b

swapped-MovedBy :
    (d : JobDefinition) (id j : ℕ) (direction : Direction) (w x : Node)
    → IsIdentified d
    → nth j (to_nodes d) ≡ some w
    → nth (suc j) (to_nodes d) ≡ some x
    → (mover direction w.step x.step).step_id ≡ id
    → MovedBy d id direction (rebuild d (swap_at j (to_nodes d)) []).definition
swapped-MovedBy d id j direction w x one h k own =
    let (a, b, e, f) = swap_at_lem j (to_nodes d) w x h k in
    let whole =
      rebuild-Rearranged d (swap_at j (to_nodes d)) one (swap_at-SameNodes j (to_nodes d))
        (length-swap_at j (to_nodes d)) in
    let order = ap steps_of f ∙ steps_of-append a (x ∷ (w ∷ b)) in
    (
      steps_of a,
      steps_of b,
      w.step,
      x.step,
      parts d a (w ∷ (x ∷ b)) e,
      own,
      subst (λ l. Rearranged d l (rebuild d (swap_at j (to_nodes d)) []).definition) order whole,
    )

move_step-MovedBy :
    (d : JobDefinition) (id : ℕ) (direction : Direction)
    → IsIdentified d
    → (((move_step d id direction).definition ≡ d) × (Lacks d id ⊎ AtEnd d id direction))
      ⊎ MovedBy d id direction (move_step d id direction).definition
unfolding move_step
move_step-MovedBy d id up one = elim (Option-cases (index_of (to_nodes d) id)) [
  | inl e ↦ rw (e, move_step) (inl (refl, inl (index_of-Lacks d id e)))
  | inr (zero, e) ↦
      let (j, n, i, at, own) = index_from-nth 0 id 0 (to_nodes d) e in
      let first : nth 0 (to_nodes d) ≡ some n =
        subst (λ k. nth k (to_nodes d) ≡ some n) (omega (arith, i)) at in
      rw (e, move_step)
        (inl (
          refl,
          inr (
            steps_of (drop 1 (to_nodes d)),
            n.step,
            parts d [] (n ∷ drop 1 (to_nodes d)) (nth-split 0 (to_nodes d) n first).0,
            own,
          ),
        ))
  | inr (suc m, e) ↦
      let (j, n, i, at, own) = index_from-nth 0 id (suc m) (to_nodes d) e in
      let here : nth (suc m) (to_nodes d) ≡ some n =
        subst (λ k. nth k (to_nodes d) ≡ some n) (omega (arith, i)) at in
      let (w, before) = nth-before m (to_nodes d) n here in
      rw (e, move_step) (inr (swapped-MovedBy d id m up w n one before here own))
]
move_step-MovedBy d id down one = elim (Option-cases (index_of (to_nodes d) id)) [
  | inl e ↦ rw (e, move_step) (inl (refl, inl (index_of-Lacks d id e)))
  | inr (m, e) ↦
      let (j, n, i, at, own) = index_from-nth 0 id m (to_nodes d) e in
      let here : nth m (to_nodes d) ≡ some n =
        subst (λ k. nth k (to_nodes d) ≡ some n) (omega (arith, i)) at in
      elim (Bool-cases (ltb (suc m) (length (to_nodes d)))) [
        | inl inside ↦
            let (x, after) = nth-within (suc m) (to_nodes d) (ground (arith, inside)) in
            rw (e, inside, move_step) (inr (swapped-MovedBy d id m down n x one here after own))
        | inr outside ↦
            let (a, whole) = nth-last m (to_nodes d) n here (ground (arith, outside)) in
            rw (e, outside, move_step)
              (inl (refl, inr (steps_of a, n.step, parts d a (n ∷ []) whole, own)))
      ]
]

length-steps_of : (nodes : List Node) → length (steps_of nodes) ≡ length nodes
length-steps_of [] = refl
length-steps_of (n ∷ nodes) = ap suc (length-steps_of nodes)

length-take_le : (k : ℕ) (nodes : List Node) → k ≤ length nodes → length (take k nodes) ≡ k
length-take_le zero nodes h = refl
length-take_le (suc k) [] h = absurd (omega (arith, h))
length-take_le (suc k) (n ∷ nodes) h = ap suc (length-take_le k nodes (omega (arith, h)))

reorder_step-MovedTo :
    (d : JobDefinition) (id to_index : ℕ)
    → IsIdentified d
    → (((reorder_step d id to_index).definition ≡ d)
        × (Lacks d id ⊎ StandsAt d id (min (length d.steps - 1) to_index)))
      ⊎ MovedTo d id (min (length d.steps - 1) to_index) (reorder_step d id to_index).definition
unfolding reorder_step
reorder_step-MovedTo d id to_index one = elim (Option-cases (index_of (to_nodes d) id)) [
  | inl e ↦ rw (e, reorder_step) (inl (refl, inl (index_of-Lacks d id e)))
  | inr (i, e) ↦
      let nodes = to_nodes d in
      let to = min (length nodes - 1) to_index in
      let goal : to ≡ min (length d.steps - 1) to_index =
        ap (λ k. min (k - 1) to_index) (length-to_nodes d) in
      let (j, n, at, hit, own) = index_from-nth 0 id i nodes e in
      let here : nth i nodes ≡ some n = subst (λ k. nth k nodes ≡ some n) (omega (arith, at)) hit in
      let (whole, taken, short, size) = nth-split i nodes n here in
      let rest = splice_out i nodes in
      let sorted = parts d (take i nodes) (n ∷ drop (suc i) nodes) whole in
      elim (Bool-cases (to == i)) [
        | inl same ↦
            let there : length (steps_of (take i nodes)) ≡ min (length d.steps - 1) to_index =
              length-steps_of (take i nodes) ∙ short ∙ sym ((==_iff to i).0 same) ∙ goal in
            rw (e, same, reorder_step)
              (inl (
                refl,
                inr (
                  steps_of (take i nodes),
                  steps_of (drop (suc i) nodes),
                  n.step,
                  sorted,
                  own,
                  there,
                ),
              ))
        | inr apart ↦
            let (all, long) = take-drop-SameNodes i to nodes in
            let ys = take to rest ++ (take 1 (drop i nodes) ++ drop to rest) in
            let order : steps_of ys
                ≡ steps_of (take to rest) ++ (n.step ∷ steps_of (drop to rest)) =
              ap (λ l. steps_of (take to rest ++ (l ++ drop to rest))) taken
              ∙ steps_of-append (take to rest) (n ∷ drop to rest) in
            let split : steps_of (take i nodes) ++ steps_of (drop (suc i) nodes)
                ≡ steps_of (take to rest) ++ steps_of (drop to rest) =
              sym (steps_of-append (take i nodes) (drop (suc i) nodes))
              ∙ ap steps_of (sym (take-append-drop to rest))
              ∙ steps_of-append (take to rest) (drop to rest) in
            let there : length (steps_of (take to rest)) ≡ min (length d.steps - 1) to_index =
              length-steps_of (take to rest)
              ∙ length-take_le to rest (ground (arith, size))
              ∙ goal in
            let rearranged = rebuild-Rearranged d ys one all long in
            rw (e, apart, reorder_step)
              (inr (
                steps_of (take i nodes),
                steps_of (drop (suc i) nodes),
                n.step,
                steps_of (take to rest),
                steps_of (drop to rest),
                sorted,
                own,
                split,
                there,
                subst (λ l. Rearranged d l (rebuild d ys []).definition) order rearranged,
              ))
      ]
]

-- Moving a step in a job where a number determines its step. Up or down leaves the job as it was only where no step
-- has the number or the step of it is the first, or the last; otherwise the step and its neighbour in that direction
-- change places. To a position, at most the last, leaves the job as it was where no step has the number or its step
-- stands there; otherwise the step is taken out and put in there. A job so rearranged has its steps with their bodies
-- in the new order, numbered from 1; each branch that went to a step goes to that step's new number; it starts at
-- the step where it started; and all of it but the steps and the number of the first is as it was. A branch that ends
-- the job or goes to the next step is left open.
pub moved-Rearranged :
    (d : JobDefinition) (id to_index : ℕ) (direction : Direction)
    → IsIdentified d
    → ((((move_step d id direction).definition ≡ d) × (Lacks d id ⊎ AtEnd d id direction))
        ⊎ MovedBy d id direction (move_step d id direction).definition)
      × ((((reorder_step d id to_index).definition ≡ d)
            × (Lacks d id ⊎ StandsAt d id (min (length d.steps - 1) to_index)))
          ⊎ MovedTo d id
              (min (length d.steps - 1) to_index)
              (reorder_step d id to_index).definition)
moved-Rearranged d id to_index direction one =
    (move_step-MovedBy d id direction one, reorder_step-MovedTo d id to_index one)
