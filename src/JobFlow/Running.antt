-- ===== src/JobFlow/Running.antt =====
-- packages/protocol/src/job-flow.ts: the running step inferred from the completed ones, and the next step.
use remote_sql_agent.Prelude.{
  ℕ, ◌≤◌, ◌<◌, ◌≡◌, refl, ap, ◌∙◌, ◌⊎◌, inl, inr, ◌≢◌, Bool, true, false, if◌then◌else◌, ◌==◌, leb,
  ltb, Option, none, some, List, [], ◌∷◌, ◌++◌, arith, Elem, All, All-Elem, Elem-filter, filter,
  find, insert_by, sort_by, Bool-cases,
}
use native.Mathlib.Nat.{le_refl}
use remote_sql_agent.Job.{JobDefinition, JobStep}
use remote_sql_agent.JobFlow.{
  CompletedStep, next_step_after, first_id, last_of, after_completed, infer_running_step,
}

-- No two steps have one id.
abbrev pub IsDistinct : List JobStep → Type 0
IsDistinct [] = Unit
IsDistinct (s ∷ rest) = All (λ t. s.step_id ≢ t.step_id) rest × IsDistinct rest

-- The next step after `s`: the one of the least id above its own, or none where no step has a higher id.
abbrev pub NextIs : JobDefinition → JobStep → Option ℕ → Type 0
NextIs d s none = (t : JobStep) → Elem t d.steps → ¬ (s.step_id < t.step_id)
NextIs d s (some v) =
    ((t : JobStep) × Elem t d.steps × (t.step_id ≡ v))
    × (s.step_id < v)
    × ((t : JobStep) → Elem t d.steps → s.step_id < t.step_id → v ≤ t.step_id)

-- Where an action of `s` with its target leads: 4 goes to the step of that number unless it is 0, 3 goes to the next
-- step, and any other ends the job.
abbrev pub LeadsTo : JobDefinition → JobStep → ℕ → ℕ → Option ℕ → Type 0
LeadsTo d s action target o =
    ((action ≡ 4) × (((target ≢ 0) × (o ≡ some target)) ⊎ ((target ≡ 0) × (o ≡ none))))
    ⊎ (((action ≡ 3) × NextIs d s o) ⊎ ((action ≢ 4) × (action ≢ 3) × (o ≡ none)))

-- A run of SQL Agent: after these completed steps the step of this id is running, or none is. A status is 1 for success,
-- 2 for a retry and 3 for a cancellation; any other is a failure.
pub data Runs (d : JobDefinition) : List CompletedStep → Option ℕ → Type 0 where
  begins : Runs d [] (some d.start_step_id)
  retries :
      {before after : List CompletedStep} (c : CompletedStep) (s : JobStep)
      → Runs d before (some s.step_id)
      → Elem s d.steps
      → after ≡ before ++ c ∷ []
      → c.step_id ≡ s.step_id
      → c.run_status ≡ 2
      → Runs d after (some s.step_id)
  cancels :
      {before after : List CompletedStep} (c : CompletedStep) (s : JobStep)
      → Runs d before (some s.step_id)
      → Elem s d.steps
      → after ≡ before ++ c ∷ []
      → c.step_id ≡ s.step_id
      → c.run_status ≡ 3
      → Runs d after none
  succeeds :
      {before after : List CompletedStep} {o : Option ℕ} (c : CompletedStep) (s : JobStep)
      → Runs d before (some s.step_id)
      → Elem s d.steps
      → after ≡ before ++ c ∷ []
      → c.step_id ≡ s.step_id
      → c.run_status ≡ 1
      → LeadsTo d s s.on_success_action s.on_success_step_id o
      → Runs d after o
  fails :
      {before after : List CompletedStep} {o : Option ℕ} (c : CompletedStep) (s : JobStep)
      → Runs d before (some s.step_id)
      → Elem s d.steps
      → after ≡ before ++ c ∷ []
      → c.step_id ≡ s.step_id
      → c.run_status ≢ 1
      → c.run_status ≢ 2
      → c.run_status ≢ 3
      → LeadsTo d s s.on_fail_action s.on_fail_step_id o
      → Runs d after o

-- The head of the sorted steps has the least id.
abbrev IsLeast : List JobStep → Option ℕ → Type 0
IsLeast steps none = (t : JobStep) → ¬ Elem t steps
IsLeast steps (some v) =
    ((t : JobStep) × Elem t steps × (t.step_id ≡ v))
    × ((t : JobStep) → Elem t steps → v ≤ t.step_id)

first_id-insert :
    (s : JobStep) (l : List JobStep)
    → first_id (insert_by (λ x. x.step_id) s l) ≡ elim (first_id l) [
      | none ↦ some s.step_id
      | some v ↦ some (if leb s.step_id v then s.step_id else v)
    ]
first_id-insert s [] = refl
first_id-insert s (t ∷ rest) = ground arith

abbrev lesser : JobStep → Option ℕ → Option ℕ
lesser s none = some s.step_id
lesser s (some v) = some (if leb s.step_id v then s.step_id else v)

lesser-IsLeast :
    (s : JobStep) (l : List JobStep) (o : Option ℕ) → IsLeast l o → IsLeast (s ∷ l) (lesser s o)
lesser-IsLeast s l none h =
    ((s, inl refl, refl), λ t m. elim m [ inl e ↦ rw e (le_refl _) | inr n ↦ absurd (h t n) ])
lesser-IsLeast s l (some v) h = elim (Bool-cases (leb s.step_id v)) [
  | inl small ↦ rw small (
    (s, inl refl, refl),
    λ t m. elim m [ inl e ↦ rw e (le_refl _) | inr n ↦ ground (arith, h.1 t n) ],
  )
  | inr large ↦
      let (t₀, m₀, e₀) = h.0 in
      rw large (
        (t₀, inr m₀, e₀),
        λ t m. elim m [
          | inl e ↦
              let same : t.step_id ≡ s.step_id = ap (λ (x : JobStep). x.step_id) e in ground arith
          | inr n ↦ h.1 t n
        ],
      )
]

first_id-IsLeast : (l : List JobStep) → IsLeast l (first_id (sort_by (λ x. x.step_id) l))
first_id-IsLeast [] = λ t h. h
first_id-IsLeast (s ∷ l) =
    rw (first_id-insert s (sort_by (λ x. x.step_id) l))
      (lesser-IsLeast s l (first_id (sort_by (λ x. x.step_id) l)) (first_id-IsLeast l))

-- The later steps: those with an id above `s`.
abbrev later : JobDefinition → JobStep → List JobStep
later d s = filter (λ t. ltb s.step_id t.step_id) d.steps

NextIs-first_id :
    (d : JobDefinition) (s : JobStep) (o : Option ℕ)
    → NextIs d s o
    → first_id (sort_by (λ t. t.step_id) (later d s)) ≡ o
NextIs-first_id d s o next =
    go (first_id (sort_by (λ t. t.step_id) (later d s))) o (first_id-IsLeast (later d s)) next
  where
    above : (t : JobStep) → Elem t (later d s) → Elem t d.steps × (s.step_id < t.step_id)
    above t m = ground (arith, Elem-filter (λ (x : JobStep). ltb s.step_id x.step_id) t d.steps)

    within : (t : JobStep) → Elem t d.steps → s.step_id < t.step_id → Elem t (later d s)
    within t m lt = ground (arith, Elem-filter (λ (x : JobStep). ltb s.step_id x.step_id) t d.steps)

    go : (a b : Option ℕ) → IsLeast (later d s) a → NextIs d s b → a ≡ b
    go none none h n = refl
    go none (some w) h n = let (t, m, e) = n.0 in absurd (h t (within t m (omega (arith, e, n.1))))
    go (some v) none h n = let (t, m, e) = h.0 in let (m', lt) = above t m in absurd (n t m' lt)
    go (some v) (some w) h n =
        let (t, m, e) = h.0 in
        let (u, k, f) = n.0 in
        let (m', lt) = above t m in
        let low = h.1 u (within u k (omega (arith, f, n.1))) in
        let high = n.2 t m' lt in let same : v ≡ w = omega (arith, e, f, low, high) in ap some same

-- Where the action of an outcome leads is the next step after that outcome.
LeadsTo-next_step_after :
    (d : JobDefinition) (s : JobStep) (succeeded : Bool) (o : Option ℕ)
    → LeadsTo d s
        (if succeeded then s.on_success_action else s.on_fail_action)
        (if succeeded then s.on_success_step_id else s.on_fail_step_id)
        o
    → next_step_after d s succeeded ≡ o
unfolding next_step_after
LeadsTo-next_step_after d s true o (inl (e, way)) = ground (arith, e, way)
LeadsTo-next_step_after d s true o (inr (inl (e, next))) =
    ground (arith, e, NextIs-first_id d s o next)
LeadsTo-next_step_after d s true o (inr (inr (a, b, e))) = ground (arith, a, b, e)
LeadsTo-next_step_after d s false o (inl (e, way)) = ground (arith, e, way)
LeadsTo-next_step_after d s false o (inr (inl (e, next))) =
    ground (arith, e, NextIs-first_id d s o next)
LeadsTo-next_step_after d s false o (inr (inr (a, b, e))) = ground (arith, a, b, e)

last_of-concat : (cs : List CompletedStep) (c : CompletedStep) → last_of (cs ++ c ∷ []) ≡ some c
last_of-concat [] c = refl
last_of-concat (x ∷ cs) c = rw (last_of-concat cs c)

find-distinct :
    (s : JobStep) (steps : List JobStep)
    → IsDistinct steps
    → Elem s steps
    → find (λ x. x.step_id == s.step_id) steps ≡ some s
find-distinct s [] h m = absurd m
find-distinct s (x ∷ rest) h (inl e) = ground (arith, ap (λ (y : JobStep). y.step_id) e)
find-distinct s (x ∷ rest) h (inr m) =
    let apart = All-Elem (λ t. x.step_id ≢ t.step_id) rest s h.0 m in
    ground (arith, apart, find-distinct s rest h.1 m)

infer-completed :
    (d : JobDefinition) (cs : List CompletedStep) (c : CompletedStep) (s : JobStep)
    → IsDistinct d.steps
    → Elem s d.steps
    → c.step_id ≡ s.step_id
    → infer_running_step d (cs ++ c ∷ []) ≡ after_completed d c s
unfolding infer_running_step
infer-completed d cs c s distinct m i =
    let f : find (λ x. x.step_id == c.step_id) d.steps ≡ some s =
      rw i (find-distinct s d.steps distinct m) in
    rw (last_of-concat cs c, f, infer_running_step) refl

-- Whatever run of the Agent led here, in a job whose steps have different ids, the inferred step is the one that is
-- running, and none is inferred where the run has ended.
pub Runs-infer_running_step :
    (d : JobDefinition) {cs : List CompletedStep} {o : Option ℕ}
    → IsDistinct d.steps
    → Runs d cs o
    → infer_running_step d cs ≡ o
Runs-infer_running_step d h begins = unfold infer_running_step in refl
Runs-infer_running_step d h (retries {before} c s r m e i k) =
    ap (infer_running_step d) e ∙ infer-completed d before c s h m i ∙ ground (arith, k)
Runs-infer_running_step d h (cancels {before} c s r m e i k) =
    ap (infer_running_step d) e ∙ infer-completed d before c s h m i ∙ ground (arith, k)
Runs-infer_running_step d h (succeeds {before} {o} c s r m e i k way) =
    ap (infer_running_step d) e
    ∙ infer-completed d before c s h m i
    ∙ ground (arith, k, LeadsTo-next_step_after d s true o way)
Runs-infer_running_step d h (fails {before} {o} c s r m e i k l n way) =
    ap (infer_running_step d) e
    ∙ infer-completed d before c s h m i
    ∙ ground (arith, k, l, n, LeadsTo-next_step_after d s false o way)
