-- ===== src/JobEdit/Numbering.antt =====
-- packages/protocol/src/job-edit.ts: the numbers that `rebuild` gives, and the references that it writes back.
use remote_sql_agent.Prelude.{
  ℕ, zero, suc, ◌==◌, ==_iff, ◌≡◌, refl, ap, ◌∙◌, inl, inr, Bool, true, false, some, List, [], ◌∷◌,
  map, length, Elem, arith, Bool-cases, Option-cases,
}
use remote_sql_agent.Job.{JobDefinition, JobStep, go_to_step}
use remote_sql_agent.JobEdit.Nodes.{
  Node, position_from, position_of, mend_success, mend_fail, end_success, end_fail, no_longer_end,
  apply_end_of_list_defaults, is_end, rebuild_step, rebuild_steps, rebuild,
}

-- n numbers, from i on.
abbrev pub count_from : ℕ → ℕ → List ℕ
count_from i zero = []
count_from i (suc n) = i ∷ count_from (suc i) n

-- The body of a step: all of it but its number and its branches.
abbrev pub step_body : JobStep → JobStep
step_body s = record s {
  step_id = 0;
  on_success_action = 0;
  on_success_step_id = 0;
  on_fail_action = 0;
  on_fail_step_id = 0;
}

-- What a rebuilt step has of its node: its position, its body, and the branches that go to a node of the list.
pub record Rebuilt (nodes : List Node) (position : ℕ) (n : Node) (s : JobStep) : Type 0 where
  pub at : s.step_id ≡ position
  pub body : step_body s ≡ step_body n.step
  pub success :
      (p : ℕ)
      → n.step.on_success_action ≡ go_to_step
      → position_of nodes n.on_success_target ≡ some p
      → (s.on_success_action ≡ go_to_step) × (s.on_success_step_id ≡ p)
  pub fail :
      (p : ℕ)
      → n.step.on_fail_action ≡ go_to_step
      → position_of nodes n.on_fail_target ≡ some p
      → (s.on_fail_action ≡ go_to_step) × (s.on_fail_step_id ≡ p)

-- What a change of a step keeps: the branches that go to a step by number.
record Keeps (s t : JobStep) : Type 0 where
  at : t.step_id ≡ s.step_id
  body : step_body t ≡ step_body s
  success :
      s.on_success_action ≡ go_to_step
      → (t.on_success_action ≡ go_to_step) × (t.on_success_step_id ≡ s.on_success_step_id)
  fail :
      s.on_fail_action ≡ go_to_step
      → (t.on_fail_action ≡ go_to_step) × (t.on_fail_step_id ≡ s.on_fail_step_id)

Keeps-self : (s : JobStep) → Keeps s s
Keeps-self s = record { at = refl; body = refl; success = λ e. (e, refl); fail = λ e. (e, refl) }

Keeps-end_success : (s : JobStep) → Keeps s (end_success s).0
Keeps-end_success s = ground arith

Keeps-end_fail : (s : JobStep) → Keeps s (end_fail s).0
Keeps-end_fail s = ground arith

Keeps-no_longer_end : (s : JobStep) → Keeps s (no_longer_end s).0
Keeps-no_longer_end s = ground arith

Keeps-chain : (s t u : JobStep) → Keeps s t → Keeps t u → Keeps s u
Keeps-chain s t u a b = ground (arith, a, b)

Keeps-apply_end_of_list_defaults :
    (is_last was_last : Bool) (s : JobStep)
    → Keeps s (apply_end_of_list_defaults is_last was_last s).0
unfolding apply_end_of_list_defaults
Keeps-apply_end_of_list_defaults true false s =
    Keeps-chain s (end_success s).0 (end_fail (end_success s).0).0 (Keeps-end_success s)
      (Keeps-end_fail (end_success s).0)
Keeps-apply_end_of_list_defaults false true s = Keeps-no_longer_end s
Keeps-apply_end_of_list_defaults true true s = Keeps-self s
Keeps-apply_end_of_list_defaults false false s = Keeps-self s

-- The success branch is mended first, and the failure branch after it.
mend_success_lem :
    (nodes : List Node) (n : Node) (is_last : Bool) (s : JobStep)
    → let t = (mend_success nodes n is_last s).0 in
      (t.step_id ≡ s.step_id)
      × (step_body t ≡ step_body s)
      × (t.on_fail_action ≡ s.on_fail_action)
      × ((p : ℕ)
          → s.on_success_action ≡ go_to_step
          → position_of nodes n.on_success_target ≡ some p
          → (t.on_success_action ≡ go_to_step) × (t.on_success_step_id ≡ p))
unfolding mend_success
mend_success_lem nodes n is_last s = elim (Bool-cases (s.on_success_action == go_to_step)) [
  | inr other ↦ rw (other) (refl, refl, refl, λ p e f. absurd (ground (arith, other, e)))
  | inl jumps ↦ elim (Option-cases (position_of nodes n.on_success_target)) [
    | inl gone ↦ rw (jumps, gone, mend_success) (refl, refl, refl, λ p e f. absurd (cc))
    | inr (q, found) ↦ rw (jumps, found, mend_success) (refl, refl, refl, λ p e f. (e, cc))
  ]
]

mend_fail_lem :
    (nodes : List Node) (n : Node) (s : JobStep)
    → let t = (mend_fail nodes n s).0 in
      (t.step_id ≡ s.step_id)
      × (step_body t ≡ step_body s)
      × (t.on_success_action ≡ s.on_success_action)
      × (t.on_success_step_id ≡ s.on_success_step_id)
      × ((p : ℕ)
          → s.on_fail_action ≡ go_to_step
          → position_of nodes n.on_fail_target ≡ some p
          → (t.on_fail_action ≡ go_to_step) × (t.on_fail_step_id ≡ p))
unfolding mend_fail
mend_fail_lem nodes n s = elim (Bool-cases (s.on_fail_action == go_to_step)) [
  | inr other ↦ rw (other) (refl, refl, refl, refl, λ p e f. absurd (ground (arith, other, e)))
  | inl jumps ↦ elim (Option-cases (position_of nodes n.on_fail_target)) [
    | inl gone ↦ rw (jumps, gone, mend_fail) (refl, refl, refl, refl, λ p e f. absurd (cc))
    | inr (q, found) ↦ rw (jumps, found, mend_fail) (refl, refl, refl, refl, λ p e f. (e, cc))
  ]
]

pub rebuild_step-Rebuilt :
    (nodes : List Node) (position : ℕ) (is_last : Bool) (n : Node)
    → Rebuilt nodes position n (rebuild_step nodes position is_last n).0
unfolding rebuild_step
rebuild_step-Rebuilt nodes position is_last n =
    let s = record n.step { step_id = position } in
    let a = (mend_success nodes n is_last s).0 in
    let b = (mend_fail nodes n a).0 in
    let k = Keeps-apply_end_of_list_defaults is_last n.was_last b in
    let u = mend_success_lem nodes n is_last s in
    let v = mend_fail_lem nodes n a in
    record {
      at = k.at ∙ v.0 ∙ u.0;
      body = k.body ∙ v.1 ∙ u.1;
      success = λ p e f.
          let (x, y) = u.3 p e f in let (x', y') = k.success (v.2 ∙ x) in (x', y' ∙ v.3 ∙ y);
      fail = λ p e f. let (x, y) = v.4 p (u.2 ∙ e) f in let (x', y') = k.fail x in (x', y' ∙ y);
    }

-- The nodes' steps, numbered by position.
rebuild_steps_numbered :
    (nodes : List Node) (i : ℕ) (rest : List Node)
    → map (λ s. s.step_id) (rebuild_steps nodes i rest).0 ≡ count_from i (length rest)
unfolding rebuild_steps
rebuild_steps_numbered nodes i [] = refl
rebuild_steps_numbered nodes i (n ∷ rest) = λ k.
    (rebuild_step-Rebuilt nodes i (is_end rest) n).at k
    ∷ rebuild_steps_numbered nodes (suc i) rest k

-- The rebuilt steps have the nodes' bodies, in the order of the nodes.
rebuild_steps_bodies :
    (nodes : List Node) (i : ℕ) (rest : List Node)
    → map step_body (rebuild_steps nodes i rest).0 ≡ map step_body (map (λ n. n.step) rest)
unfolding rebuild_steps
rebuild_steps_bodies nodes i [] = refl
rebuild_steps_bodies nodes i (n ∷ rest) = λ k.
    (rebuild_step-Rebuilt nodes i (is_end rest) n).body k
    ∷ rebuild_steps_bodies nodes (suc i) rest k

pub rebuild_bodies :
    (d : JobDefinition) (nodes removed : List Node)
    → map step_body (rebuild d nodes removed).definition.steps
      ≡ map step_body (map (λ n. n.step) nodes)
unfolding rebuild
rebuild_bodies d nodes removed = rebuild_steps_bodies nodes 1 nodes

-- A node of the list is rebuilt at the position that the map of positions gives for it.
pub rebuild_steps-position :
    (nodes : List Node) (i : ℕ) (rest : List Node) (n : Node)
    → Elem n rest
    → (p : ℕ) × (m : Node) × (s : JobStep) × Elem m rest
      × (m.id ≡ n.id)
      × (position_from i rest n.id ≡ some p)
      × Elem s (rebuild_steps nodes i rest).0
      × Rebuilt nodes p m s
unfolding rebuild_steps
rebuild_steps-position nodes i [] n h = absurd h
rebuild_steps-position nodes i (x ∷ rest) n h = elim (Bool-cases (x.id == n.id)) [
  | inl hit ↦ (
    i,
    x,
    (rebuild_step nodes i (is_end rest) x).0,
    inl refl,
    (==_iff x.id n.id).0 hit,
    rw hit,
    inl refl,
    rebuild_step-Rebuilt nodes i (is_end rest) x,
  )
  | inr miss ↦ elim h [
    | inl e ↦ absurd (ground (arith, miss, ap (λ (y : Node). y.id) e))
    | inr h' ↦
        let (p, m, s, a, b, c, d, r) = rebuild_steps-position nodes (suc i) rest n h' in
        (p, m, s, inr a, b, rw miss c, inr d, r)
  ]
]

-- The rebuilt steps are numbered from 1, one for each node.
pub rebuild_numbered :
    (d : JobDefinition) (nodes removed : List Node)
    → map (λ s. s.step_id) (rebuild d nodes removed).definition.steps ≡ count_from 1 (length nodes)
unfolding rebuild
rebuild_numbered d nodes removed = rebuild_steps_numbered nodes 1 nodes
