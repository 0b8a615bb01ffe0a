-- ===== src/JobEdit/Positions.antt =====
-- packages/protocol/src/job-edit.ts: the step at an index of the ordered list, and the lists before and after it.
use remote_sql_agent.Prelude.{
  ℕ, zero, suc, ◌+◌, ◌==◌, ==_iff, ◌≤◌, ◌<◌, ◌≡◌, ◌≢◌, refl, ap, ◌∙◌, inl, inr, Option, none, some,
  List, [], ◌∷◌, ◌++◌, map, length, take, drop, sort_by, Elem, arith, Bool-cases,
}
use remote_sql_agent.Job.{JobDefinition, JobStep}
use remote_sql_agent.JobEdit.Nodes.{Node, bare_nodes, resolve, to_nodes}
use remote_sql_agent.JobEdit.Steps.{index_from, swap_at}

-- The steps of a job by number.
abbrev pub sorted_steps : JobDefinition → List JobStep
sorted_steps d = sort_by (λ s. s.step_id) d.steps

abbrev pub steps_of : List Node → List JobStep
steps_of nodes = map (λ n. n.step) nodes

pub steps_of-append : (xs ys : List Node) → steps_of (xs ++ ys) ≡ steps_of xs ++ steps_of ys
steps_of-append [] ys = refl
steps_of-append (x ∷ xs) ys = ap (◌∷◌ x.step) (steps_of-append xs ys)

pub steps_of-to_nodes : (d : JobDefinition) → steps_of (to_nodes d) ≡ sorted_steps d
unfolding to_nodes
steps_of-to_nodes d =
    resolved (bare_nodes 0 (sorted_steps d)) (bare_nodes 0 (sorted_steps d))
    ∙ bare 0 (sorted_steps d)
  where
    resolved : (all nodes : List Node) → steps_of (map (resolve all) nodes) ≡ steps_of nodes
    resolved all [] = refl
    resolved all (n ∷ nodes) = ap (◌∷◌ n.step) (resolved all nodes)

    bare : (i : ℕ) (xs : List JobStep) → steps_of (bare_nodes i xs) ≡ xs
    bare i [] = refl
    bare i (x ∷ xs) = ap (◌∷◌ x) (bare (suc i) xs)

abbrev pub nth : ℕ → List Node → Option Node
nth i [] = none
nth zero (n ∷ rest) = some n
nth (suc i) (n ∷ rest) = nth i rest

-- The index that a search finds is that of a step of the id.
pub index_from-nth :
    (k id i : ℕ) (nodes : List Node)
    → index_from k nodes id ≡ some i
    → (j : ℕ) × (n : Node) × (i ≡ k + j) × (nth j nodes ≡ some n) × (n.step.step_id ≡ id)
index_from-nth k id i [] h = absurd (cc)
index_from-nth k id i (x ∷ rest) h = elim (Bool-cases (x.step.step_id == id)) [
  | inl hit ↦
      let h' : some k ≡ some i = rw hit at h in
      let same : k ≡ i = ground (arith, h') in
      (0, x, omega (arith, same), refl, (==_iff x.step.step_id id).0 hit)
  | inr miss ↦
      let (j, n, e, f, g) = index_from-nth (suc k) id i rest (rw miss at h) in
      (suc j, n, omega (arith, e), f, g)
]

pub index_from-none :
    (k id : ℕ) (nodes : List Node)
    → index_from k nodes id ≡ none
    → (n : Node) → Elem n nodes
    → n.step.step_id ≢ id
index_from-none k id [] h n m = absurd m
index_from-none k id (x ∷ rest) h n m = elim (Bool-cases (x.step.step_id == id)) [
  | inl hit ↦ absurd (ground (arith, hit, h))
  | inr miss ↦ elim m [
    | inl e ↦ λ same. absurd (ground (arith, miss, ap (λ (y : Node). y.step.step_id) e, same))
    | inr m' ↦ index_from-none (suc k) id rest (rw miss at h) n m'
  ]
]

pub nth-split :
    (j : ℕ) (nodes : List Node) (n : Node)
    → nth j nodes ≡ some n
    → (nodes ≡ take j nodes ++ (n ∷ drop (suc j) nodes))
      × (take 1 (drop j nodes) ≡ n ∷ [])
      × (length (take j nodes) ≡ j)
      × (length nodes ≡ suc (length (take j nodes ++ drop (suc j) nodes)))
nth-split j [] n h = absurd (cc)
nth-split zero (x ∷ rest) n h =
    let same : x ≡ n = ground (arith, h) in
    (ap (λ y. y ∷ rest) same, ap (λ y. y ∷ []) same, refl, refl)
nth-split (suc j) (x ∷ rest) n h =
    let (a, b, c, e) = nth-split j rest n h in (ap (◌∷◌ x) a, b, ap suc c, ap suc e)

pub nth-before :
    (j : ℕ) (nodes : List Node) (x : Node)
    → nth (suc j) nodes ≡ some x
    → (w : Node) × (nth j nodes ≡ some w)
nth-before j [] x h = absurd (cc)
nth-before zero (y ∷ rest) x h = (y, refl)
nth-before (suc j) (y ∷ rest) x h = nth-before j rest x h

pub nth-within :
    (j : ℕ) (nodes : List Node) → j < length nodes → (n : Node) × (nth j nodes ≡ some n)
nth-within j [] h = absurd (omega (arith, h))
nth-within zero (y ∷ rest) h = (y, refl)
nth-within (suc j) (y ∷ rest) h = nth-within j rest (omega (arith, h))

pub nth-last :
    (j : ℕ) (nodes : List Node) (n : Node)
    → nth j nodes ≡ some n
    → length nodes ≤ suc j
    → (a : List Node) × (nodes ≡ a ++ n ∷ [])
nth-last j [] n h l = absurd (cc)
nth-last zero (x ∷ []) n h l = let same : x ≡ n = ground (arith, h) in ([], ap (λ y. y ∷ []) same)
nth-last zero (x ∷ y ∷ rest) n h l = absurd (omega (arith, l))
nth-last (suc j) (x ∷ rest) n h l =
    let (a, e) = nth-last j rest n h (omega (arith, l)) in (x ∷ a, ap (◌∷◌ x) e)

-- A swap at an index changes the places of the two nodes there.
pub swap_at_lem :
    (j : ℕ) (nodes : List Node) (w x : Node)
    → nth j nodes ≡ some w
    → nth (suc j) nodes ≡ some x
    → (a : List Node) × (b : List Node) × (nodes ≡ a ++ (w ∷ (x ∷ b)))
      × (swap_at j nodes ≡ a ++ (x ∷ (w ∷ b)))
swap_at_lem j [] w x h k = absurd (cc)
swap_at_lem zero (y ∷ []) w x h k = absurd (cc)
swap_at_lem zero (y ∷ z ∷ rest) w x h k =
    let p : y ≡ w = ground (arith, h) in
    let q : z ≡ x = ground (arith, k) in
    ([], rest, λ i. p i ∷ (q i ∷ rest), λ i. q i ∷ (p i ∷ rest))
swap_at_lem (suc j) (y ∷ []) w x h k = absurd (cc)
swap_at_lem (suc j) (y ∷ z ∷ rest) w x h k =
    let (a, b, e, f) = swap_at_lem j (z ∷ rest) w x h k in (y ∷ a, b, ap (◌∷◌ y) e, ap (◌∷◌ y) f)
