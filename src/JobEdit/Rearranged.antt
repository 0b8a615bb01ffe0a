-- ===== src/JobEdit/Rearranged.antt =====
-- packages/protocol/src/job-edit.ts: jobs that hold the same steps in another order, and `moveStep`.
use remote_sql_agent.Prelude.{
  Elem-map, Elem-map_source, ℕ, zero, suc, ==_iff, ◌≡◌, refl, sym, ap, ◌∙◌, subst, inl, inr, Bool,
  true, Option, some, List, [], ◌∷◌, map, length, length-map, find, find-some, sort_by, insert_by,
  Elem, arith, Bool-cases,
}
use remote_sql_agent.Job.{JobDefinition, JobStep}
use remote_sql_agent.JobEdit.Nodes.{
  Node, bare_nodes, resolve, to_nodes, position_of, id_of, or_one, starts, rebuild,
}
use remote_sql_agent.JobEdit.Steps.{swap_at}
use remote_sql_agent.JobEdit.Numbering.{step_body, rebuild_bodies, Rebuilt, rebuild_steps-position}
use remote_sql_agent.JobEdit.Renumbering.{
  node_found, SameNodes, IsIdentified, Renumbered, new_id, bare_nodes-Elem, sort_by-Elem,
  to_nodes-IsNumbered, rebuild-Renumbered,
}
use remote_sql_agent.JobEdit.Numbering.{count_from, rebuild_numbered}

length-insert_by :
    (x : JobStep) (xs : List JobStep) → length (insert_by (λ s. s.step_id) x xs) ≡ suc (length xs)
length-insert_by x [] = refl
length-insert_by x (y ∷ xs) = ground (arith, length-insert_by x xs)

pub length-to_nodes : (d : JobDefinition) → length (to_nodes d) ≡ length d.steps
unfolding to_nodes
length-to_nodes d =
    length-map (resolve (bare_nodes 0 (sort_by (λ s. s.step_id) d.steps)))
      (bare_nodes 0 (sort_by (λ s. s.step_id) d.steps))
    ∙ length-bare 0 (sort_by (λ s. s.step_id) d.steps)
    ∙ length-sort d.steps
  where
    length-bare : (i : ℕ) (xs : List JobStep) → length (bare_nodes i xs) ≡ length xs
    length-bare i [] = refl
    length-bare i (x ∷ xs) = ap suc (length-bare (suc i) xs)

    length-sort : (xs : List JobStep) → length (sort_by (λ s. s.step_id) xs) ≡ length xs
    length-sort [] = refl
    length-sort (x ∷ xs) =
        length-insert_by x (sort_by (λ s. s.step_id) xs) ∙ ap suc (length-sort xs)

pub length-swap_at : (i : ℕ) (xs : List Node) → length (swap_at i xs) ≡ length xs
length-swap_at i [] = refl
length-swap_at i (a ∷ []) = refl
length-swap_at zero (a ∷ b ∷ rest) = refl
length-swap_at (suc i) (a ∷ b ∷ rest) = ap suc (length-swap_at i (b ∷ rest))

-- The job starts at the step where it started.
abbrev pub StartsThere : JobDefinition → JobDefinition → Type 0
StartsThere d d' =
    (s : JobStep)
    → Elem s d.steps
    → s.step_id ≡ d.start_step_id
    → (s' : JobStep) × Elem s' d'.steps
      × (s'.step_id ≡ d'.start_step_id)
      × (step_body s' ≡ step_body s)

-- The job has its steps in another order, with the bodies that they had: every step has its new number and its
-- references follow the steps that they went to, the numbers count from 1, the job starts where it did, and all else
-- of it is as it was.
pub record Rearranged (d : JobDefinition) (order : List JobStep) (d' : JobDefinition) : Type 0 where
  pub ordered : map step_body d'.steps ≡ map step_body order
  pub rest_kept : record d' { steps = d.steps; start_step_id = d.start_step_id } ≡ d
  pub number : ℕ → Option ℕ
  pub kept :
      (s : JobStep) → Elem s d.steps → (s' : JobStep) × Elem s' d'.steps × Renumbered number s s'
  pub numbered : map (λ s. s.step_id) d'.steps ≡ count_from 1 (length d.steps)
  pub starts_there : StartsThere d d'

find_of :
    (p : Node → Bool) (n : Node) (xs : List Node)
    → Elem n xs
    → p n ≡ true
    → (x : Node) × (find p xs ≡ some x)
find_of p n [] h e = absurd h
find_of p n (y ∷ xs) h e = elim (Bool-cases (p y)) [
  | inl hit ↦ (y, rw hit)
  | inr miss ↦ elim h [
    | inl same ↦ absurd (ground (arith, miss, subst (λ z. p z ≡ true) same e))
    | inr m ↦ let (x, f) = find_of p n xs m e in (x, rw miss f)
  ]
]

-- The step of a node of the graph is a step of the job.
to_nodes-Elem : (d : JobDefinition) (n : Node) → Elem n (to_nodes d) → Elem n.step d.steps
unfolding to_nodes
to_nodes-Elem d n h =
    let ordered = sort_by (λ s. s.step_id) d.steps in
    let bare = bare_nodes 0 ordered in
    let (x, m, e) = Elem-map_source (resolve bare) n bare h in
    sort_by-Elem n.step d.steps
      (subst (λ t. Elem t ordered) (ap (λ y. y.step) (sym e)) (bare_nodes-Elem 0 ordered x m))

rebuild-StartsThere :
    (d : JobDefinition) (nodes : List Node)
    → IsIdentified d
    → SameNodes (to_nodes d) nodes
    → StartsThere d (rebuild d nodes []).definition
unfolding rebuild to_nodes
rebuild-StartsThere d nodes one all s m first =
    let bare = bare_nodes 0 (sort_by (λ x. x.step_id) d.steps) in
    let (x, h, own, _) = node_found d s one m in
    let there : Elem (resolve bare x) nodes =
      (all (resolve bare x)).0 (Elem-map (resolve bare) x bare h) in
    let at : starts d (resolve bare x) ≡ true =
      (==_iff x.step.step_id d.start_step_id).1 (ap (λ t. t.step_id) own ∙ first) in
    let (n, f) = find_of (starts d) (resolve bare x) nodes there at in
    let (k, e) = find-some (starts d) n nodes f in
    let mine : n.step ≡ s =
      one n.step s (to_nodes-Elem d n ((all n).1 k)) m
        ((==_iff n.step.step_id d.start_step_id).0 e ∙ sym first) in
    let (p, m', s', a, b, c, g, r) = rebuild_steps-position nodes 1 nodes n k in
    let node : m' ≡ n = to_nodes-IsNumbered d m' n ((all m').1 a) ((all n).1 k) b in
    let r' : Rebuilt nodes p n s' = subst (λ y. Rebuilt nodes p y s') node r in
    (
      s',
      g,
      r'.at ∙ sym (ap (λ o. or_one (position_of nodes (id_of o))) f ∙ ap or_one c),
      r'.body ∙ ap step_body mine,
    )

rebuild_rest :
    (d : JobDefinition) (nodes : List Node)
    → record (rebuild d nodes []).definition { steps = d.steps; start_step_id = d.start_step_id }
      ≡ d
unfolding rebuild
rebuild_rest d nodes = refl

pub rebuild-Rearranged :
    (d : JobDefinition) (nodes : List Node)
    → IsIdentified d
    → SameNodes (to_nodes d) nodes
    → length nodes ≡ length (to_nodes d)
    → Rearranged d (map (λ n. n.step) nodes) (rebuild d nodes []).definition
rebuild-Rearranged d nodes one all size = record {
  ordered = rebuild_bodies d nodes [];
  rest_kept = rebuild_rest d nodes;
  number = new_id d nodes;
  kept = λ s m. rebuild-Renumbered d nodes [] s one all m;
  numbered = rebuild_numbered d nodes [] ∙ ap (count_from 1) (size ∙ length-to_nodes d);
  starts_there = rebuild-StartsThere d nodes one all;
}
