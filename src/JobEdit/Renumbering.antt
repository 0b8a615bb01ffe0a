-- ===== src/JobEdit/Renumbering.antt =====
-- packages/protocol/src/job-edit.ts: the references to and from each step, once its node is at another place.
use remote_sql_agent.Prelude.{
  Elem-map, Elem-map_source, ℕ, zero, suc, ◌≤◌, ◌==◌, ==_iff, ◌≡◌, refl, sym, ap, ◌∙◌, subst, ◌↔◌,
  ◌⊎◌, inl, inr, Bool, true, Option, none, some, List, [], ◌∷◌, find_last, find_last-some, sort_by,
  insert_by, Elem, arith, Option-cases,
}
use remote_sql_agent.Job.{JobDefinition, JobStep, go_to_step}
use remote_sql_agent.JobEdit.Nodes.{
  Node, is_empty, bare_nodes, node_of_step, resolve, to_nodes, position_of, rebuild,
}
use remote_sql_agent.JobEdit.Steps.{swap_at}
use remote_sql_agent.JobEdit.Numbering.{step_body, Rebuilt, rebuild_steps-position}

Elem-insert_by :
    (x a : JobStep) (xs : List JobStep)
    → (a ≡ x) ⊎ Elem a xs
    → Elem a (insert_by (λ s. s.step_id) x xs)
Elem-insert_by x a [] h = h
Elem-insert_by x a (y ∷ xs) h = ground (arith, Elem-insert_by x a xs)

pub Elem-sort_by :
    (a : JobStep) (xs : List JobStep) → Elem a xs → Elem a (sort_by (λ s. s.step_id) xs)
Elem-sort_by a [] h = h
Elem-sort_by a (x ∷ xs) (inl e) = Elem-insert_by x a (sort_by (λ s. s.step_id) xs) (inl e)
Elem-sort_by a (x ∷ xs) (inr m) =
    Elem-insert_by x a (sort_by (λ s. s.step_id) xs) (inr (Elem-sort_by a xs m))

Elem-bare_nodes :
    (i : ℕ) (a : JobStep) (xs : List JobStep)
    → Elem a xs
    → (n : Node) × Elem n (bare_nodes i xs) × (n.step ≡ a)
Elem-bare_nodes i a [] h = absurd h
Elem-bare_nodes i a (x ∷ xs) (inl e) = (
  record {
    id = i;
    step = x;
    on_success_target = none;
    on_fail_target = none;
    was_last = is_empty xs;
  },
  inl refl,
  sym e,
)
Elem-bare_nodes i a (x ∷ xs) (inr m) =
    let (n, k, e) = Elem-bare_nodes (suc i) a xs m in (n, inr k, e)

pub bare_nodes-Elem :
    (i : ℕ) (xs : List JobStep) (n : Node) → Elem n (bare_nodes i xs) → Elem n.step xs
bare_nodes-Elem i [] n h = absurd h
bare_nodes-Elem i (x ∷ xs) n (inl e) = inl (ap (λ (m : Node). m.step) e)
bare_nodes-Elem i (x ∷ xs) n (inr m) = inr (bare_nodes-Elem (suc i) xs n m)

insert_by-Elem :
    (x a : JobStep) (xs : List JobStep)
    → Elem a (insert_by (λ s. s.step_id) x xs)
    → (a ≡ x) ⊎ Elem a xs
insert_by-Elem x a [] h = h
insert_by-Elem x a (y ∷ xs) h = ground (arith, insert_by-Elem x a xs)

pub sort_by-Elem :
    (a : JobStep) (xs : List JobStep) → Elem a (sort_by (λ s. s.step_id) xs) → Elem a xs
sort_by-Elem a [] h = h
sort_by-Elem a (x ∷ xs) h = elim (insert_by-Elem x a (sort_by (λ s. s.step_id) xs) h) [
  | inl e ↦ inl e
  | inr m ↦ inr (sort_by-Elem a xs m)
]

find_last_of :
    (p : Node → Bool) (n : Node) (xs : List Node)
    → Elem n xs
    → p n ≡ true
    → (x : Node) × (find_last p xs ≡ some x) × Elem x xs × (p x ≡ true)
find_last_of p n [] h e = absurd h
find_last_of p n (y ∷ xs) h e = elim (Option-cases (find_last p xs)) [
  | inr (x, f) ↦ let (h', k) = find_last-some p x xs f in (x, rw f, inr h', k)
  | inl f ↦ elim h [
    | inl same ↦
        let hit : p y ≡ true = subst (λ z. p z ≡ true) same e in (y, rw (f, hit), inl refl, hit)
    | inr m ↦ let (x, g, _, _) = find_last_of p n xs m e in absurd (ground (arith, f, g))
  ]
]

-- A node's number determines it.
abbrev pub IsNumbered : List Node → Type 0
IsNumbered nodes = (a b : Node) → Elem a nodes → Elem b nodes → a.id ≡ b.id → a ≡ b

bare_nodes_from : (i : ℕ) (xs : List JobStep) (n : Node) → Elem n (bare_nodes i xs) → i ≤ n.id
bare_nodes_from i [] n h = absurd h
bare_nodes_from i (x ∷ xs) n (inl e) = omega (arith, ap (λ (m : Node). m.id) e)
bare_nodes_from i (x ∷ xs) n (inr m) = omega (arith, bare_nodes_from (suc i) xs n m)

bare_nodes-IsNumbered : (i : ℕ) (xs : List JobStep) → IsNumbered (bare_nodes i xs)
bare_nodes-IsNumbered i [] a b h k e = absurd h
bare_nodes-IsNumbered i (x ∷ xs) a b (inl h) (inl k) e = h ∙ sym k
bare_nodes-IsNumbered i (x ∷ xs) a b (inl h) (inr k) e =
    absurd (omega (arith, e, ap (λ (m : Node). m.id) h, bare_nodes_from (suc i) xs b k))
bare_nodes-IsNumbered i (x ∷ xs) a b (inr h) (inl k) e =
    absurd (omega (arith, e, ap (λ (m : Node). m.id) k, bare_nodes_from (suc i) xs a h))
bare_nodes-IsNumbered i (x ∷ xs) a b (inr h) (inr k) e = bare_nodes-IsNumbered (suc i) xs a b h k e

pub to_nodes-IsNumbered : (d : JobDefinition) → IsNumbered (to_nodes d)
unfolding to_nodes
to_nodes-IsNumbered d a b h k e =
    let bare = bare_nodes 0 (sort_by (λ s. s.step_id) d.steps) in
    let (a', m, p) = Elem-map_source (resolve bare) a bare h in
    let (b', n, q) = Elem-map_source (resolve bare) b bare k in
    let same : a' ≡ b' =
      bare_nodes-IsNumbered 0 (sort_by (λ s. s.step_id) d.steps) a' b' m n
        (ap (λ (x : Node). x.id) (sym p) ∙ e ∙ ap (λ (x : Node). x.id) q) in
    p ∙ ap (resolve bare) same ∙ sym q

-- The same nodes, in another order.
abbrev pub SameNodes : List Node → List Node → Type 0
SameNodes xs ys = (n : Node) → Elem n xs ↔ Elem n ys

pub swap_at-SameNodes : (i : ℕ) (xs : List Node) → SameNodes xs (swap_at i xs)
swap_at-SameNodes i [] n = ground arith
swap_at-SameNodes i (a ∷ []) n = ground arith
swap_at-SameNodes zero (a ∷ b ∷ rest) n = ground arith
swap_at-SameNodes (suc i) (a ∷ b ∷ rest) n = ground (arith, swap_at-SameNodes i (b ∷ rest) n)

-- A step's number determines it.
abbrev pub IsIdentified : JobDefinition → Type 0
IsIdentified d = (s t : JobStep) → Elem s d.steps → Elem t d.steps → s.step_id ≡ t.step_id → s ≡ t

-- The number that a step gets, by its number before.
abbrev pub new_id : JobDefinition → List Node → ℕ → Option ℕ
new_id d nodes k =
    position_of nodes (node_of_step (bare_nodes 0 (sort_by (λ s. s.step_id) d.steps)) k)

-- A step after an edit that renumbers: the body is as it was, and a branch to a step goes to that step's new number.
pub record Renumbered (number : ℕ → Option ℕ) (s s' : JobStep) : Type 0 where
  pub at : number s.step_id ≡ some s'.step_id
  pub body : step_body s' ≡ step_body s
  pub success :
      (p : ℕ)
      → s.on_success_action ≡ go_to_step
      → number s.on_success_step_id ≡ some p
      → (s'.on_success_action ≡ go_to_step) × (s'.on_success_step_id ≡ p)
  pub fail :
      (p : ℕ)
      → s.on_fail_action ≡ go_to_step
      → number s.on_fail_step_id ≡ some p
      → (s'.on_fail_action ≡ go_to_step) × (s'.on_fail_step_id ≡ p)

-- The node of a step among the bare nodes, as the map by step id finds it.
pub node_found :
    (d : JobDefinition) (s : JobStep)
    → IsIdentified d
    → Elem s d.steps
    → let bare = bare_nodes 0 (sort_by (λ x. x.step_id) d.steps) in
      (x : Node) × Elem x bare × (x.step ≡ s) × (node_of_step bare s.step_id ≡ some x.id)
node_found d s one m =
    let ordered = sort_by (λ x. x.step_id) d.steps in
    let bare = bare_nodes 0 ordered in
    let (n, k, e) = Elem-bare_nodes 0 s ordered (Elem-sort_by s d.steps m) in
    let same : (n.step.step_id == s.step_id) ≡ true =
      (==_iff n.step.step_id s.step_id).1 (ap (λ t. t.step_id) e) in
    let (x, f, h, hit) = find_last_of (λ y. y.step.step_id == s.step_id) n bare k same in
    let there : Elem x.step d.steps = sort_by-Elem x.step d.steps (bare_nodes-Elem 0 ordered x h) in
    let own : x.step ≡ s = one x.step s there m ((==_iff x.step.step_id s.step_id).0 hit) in
    (x, h, own, rw (f, node_of_step))

pub rebuild-Renumbered :
    (d : JobDefinition) (nodes removed : List Node) (s : JobStep)
    → IsIdentified d
    → SameNodes (to_nodes d) nodes
    → Elem s d.steps
    → (s' : JobStep) × Elem s' (rebuild d nodes removed).definition.steps
      × Renumbered (new_id d nodes) s s'
unfolding rebuild to_nodes
rebuild-Renumbered d nodes removed s one all m =
    let bare = bare_nodes 0 (sort_by (λ x. x.step_id) d.steps) in
    let (x, h, own, f) = node_found d s one m in
    let n = resolve bare x in
    let here : Elem n nodes = (all n).0 (Elem-map (resolve bare) x bare h) in
    let (p, m', s', a, b, c, e, r) = rebuild_steps-position nodes 1 nodes n here in
    let node : m' ≡ n = to_nodes-IsNumbered d m' n ((all m').1 a) ((all n).1 here) b in
    let r' : Rebuilt nodes p n s' = subst (λ y. Rebuilt nodes p y s') node r in
    (
      s',
      e,
      record {
        at = ap (position_of nodes) f ∙ c ∙ ap some (sym r'.at);
        body = r'.body ∙ ap step_body own;
        success = λ q g k. r'.success q (ap (λ t. t.on_success_action) own ∙ g) (
            let jumps : (x.step.on_success_action == go_to_step) ≡ true =
              (==_iff x.step.on_success_action go_to_step).1
                (ap (λ t. t.on_success_action) own ∙ g) in
            let target : n.on_success_target ≡ node_of_step bare s.on_success_step_id =
              rw (jumps) (ap (λ t. node_of_step bare t.on_success_step_id) own) in
            ap (position_of nodes) target ∙ k);
        fail = λ q g k. r'.fail q (ap (λ t. t.on_fail_action) own ∙ g) (
            let jumps : (x.step.on_fail_action == go_to_step) ≡ true =
              (==_iff x.step.on_fail_action go_to_step).1 (ap (λ t. t.on_fail_action) own ∙ g) in
            let target : n.on_fail_target ≡ node_of_step bare s.on_fail_step_id =
              rw (jumps) (ap (λ t. node_of_step bare t.on_fail_step_id) own) in
            ap (position_of nodes) target ∙ k);
      },
    )
