-- ===== src/JobEdit/Disabled.antt =====
-- packages/protocol/src/job-edit.ts: where the flow of a job goes once a step is disabled.
use remote_sql_agent.Prelude.{
  ℕ, ◌==◌, ==_iff, ◌≡◌, refl, sym, ap, ◌∙◌, subst, ◌≢◌, ◌⊎◌, inl, inr, true, false, Option, none,
  some, List, [], ◌∷◌, find, find-some, find_last-some, Elem, arith, Bool-cases, Option-cases,
  includes,
}
use remote_sql_agent.Job.{JobDefinition, JobStep}
use remote_sql_agent.JobFlow.{next_step_after, step_by_id, reachable_steps}
use remote_sql_agent.JobFlow.Reach.{Reaches, start, follow}
use remote_sql_agent.JobFlow.Correct.{reachable_steps_iff}
use remote_sql_agent.JobEdit.Toggle.{
  arrives, bypass_success, bypass_fail, bypass_step, bypass_steps, is_single, disable_step,
}
use remote_sql_agent.JobEdit.Routes.{ids, next_by, next_by-apart, or_null-some}

next_step_after-next_by :
    (d : JobDefinition) (s : JobStep)
    → (next_step_after d s true
        ≡ next_by d.steps s.step_id s.on_success_action s.on_success_step_id)
      × (next_step_after d s false ≡ next_by d.steps s.step_id s.on_fail_action s.on_fail_step_id)
unfolding next_step_after
next_step_after-next_by d s = (refl, refl)

module _ (d : JobDefinition) (target : JobStep) (bypass : Option ℕ)
    (away : bypass ≢ some target.step_id) where
  -- Neither branch of a step of the new list leads to the disabled step.
  abbrev Avoids : JobStep → Type 0
  Avoids s =
      (xs : List JobStep) (v : ℕ)
      → ids xs ≡ ids d.steps
      → ((next_by xs s.step_id s.on_success_action s.on_success_step_id ≡ some v)
          ⊎ (next_by xs s.step_id s.on_fail_action s.on_fail_step_id ≡ some v))
      → v ≢ target.step_id

  success_lem :
      (s : JobStep)
      → let s' = (bypass_success d target bypass s).0 in
        (s'.step_id ≡ s.step_id)
        × (s'.on_fail_action ≡ s.on_fail_action)
        × (s'.on_fail_step_id ≡ s.on_fail_step_id)
        × ((xs : List JobStep) (v : ℕ)
            → ids xs ≡ ids d.steps
            → next_by xs s'.step_id s'.on_success_action s'.on_success_step_id ≡ some v
            → v ≢ target.step_id)
  unfolding bypass_success
  success_lem s =
      elim (Bool-cases (
        arrives s.on_success_action s.on_success_step_id (next_step_after d s true)
          target.step_id)) [
            | inr misses ↦ rw (misses) (
              refl,
              refl,
              refl,
              λ xs v e.
                  next_by-apart xs d.steps s.step_id s.on_success_action s.on_success_step_id
                    target.step_id v e (rw ((next_step_after-next_by d s).0) at misses),
            )
            | inl hits ↦ elim (Option-cases bypass) [
              | inl e ↦ rw (hits, e, bypass_success) (refl, refl, refl, λ xs v f g. absurd (cc))
              | inr (b, e) ↦
                  rw (hits, e, bypass_success)
                    (
                      refl,
                      refl,
                      refl,
                      λ xs v f g same. away (e ∙ ap some (or_null-some b v g ∙ same)),
                    )
            ]
          ]

  fail_lem :
      (s s' : JobStep)
      → s'.step_id ≡ s.step_id
      → s'.on_fail_action ≡ s.on_fail_action
      → s'.on_fail_step_id ≡ s.on_fail_step_id
      → let t = (bypass_fail d target bypass s s').0 in
        (t.step_id ≡ s'.step_id)
        × (t.on_success_action ≡ s'.on_success_action)
        × (t.on_success_step_id ≡ s'.on_success_step_id)
        × ((xs : List JobStep) (v : ℕ)
            → ids xs ≡ ids d.steps
            → next_by xs t.step_id t.on_fail_action t.on_fail_step_id ≡ some v
            → v ≢ target.step_id)
  unfolding bypass_fail
  fail_lem s s' same_id same_action same_target =
      elim (Bool-cases
        (arrives s'.on_fail_action s'.on_fail_step_id (next_step_after d s false) target.step_id)) [
          | inr misses ↦
              let next : next_step_after d s false
                  ≡ next_by d.steps s'.step_id s'.on_fail_action s'.on_fail_step_id =
                (next_step_after-next_by d s).1 ∙ rw (same_id, same_action, same_target) in
              rw (misses) (
                refl,
                refl,
                refl,
                λ xs v e.
                    next_by-apart xs d.steps s'.step_id s'.on_fail_action s'.on_fail_step_id
                      target.step_id v e (rw next at misses),
              )
          | inl hits ↦ elim (Option-cases bypass) [
            | inl e ↦ rw (hits, e, bypass_fail) (refl, refl, refl, λ xs v f g. absurd (cc))
            | inr (b, e) ↦
                rw (hits, e, bypass_fail)
                  (
                    refl,
                    refl,
                    refl,
                    λ xs v f g same. away (e ∙ ap some (or_null-some b v g ∙ same)),
                  )
          ]
        ]

  -- A step of the new list keeps its id, and unless it is the disabled step it avoids that.
  bypass_step-Avoids :
      (s : JobStep)
      → ((bypass_step d target bypass s).0.step_id ≡ s.step_id)
        × (s.step_id ≢ target.step_id → Avoids (bypass_step d target bypass s).0)
  unfolding bypass_step
  bypass_step-Avoids s = elim (Bool-cases (s.step_id == target.step_id)) [
    | inl own ↦ rw (own, bypass_step) (refl, λ apart. absurd (ground (arith, own, apart)))
    | inr other ↦
        let s' = (bypass_success d target bypass s).0 in
        let (a, b, c, on_success) = success_lem s in
        let (e, f, g, on_fail) = fail_lem s s' a b c in
        rw (other, bypass_step)
          (
            e ∙ a,
            λ apart xs v h goes. elim goes [
              | inl x ↦ on_success xs v h (rw (e, f, g) at x)
              | inr y ↦ on_fail xs v h y
            ],
          )
  ]

  ids-bypass_steps : (steps : List JobStep) → ids (bypass_steps d target bypass steps).0 ≡ ids steps
  unfolding bypass_steps
  ids-bypass_steps [] = refl
  ids-bypass_steps (s ∷ rest) = λ i. (bypass_step-Avoids s).0 i ∷ ids-bypass_steps rest i

  Elem-bypass_steps :
      (steps : List JobStep) (t : JobStep)
      → Elem t (bypass_steps d target bypass steps).0
      → t.step_id ≢ target.step_id
      → Avoids t
  unfolding bypass_steps
  Elem-bypass_steps [] t m apart = absurd m
  Elem-bypass_steps (s ∷ rest) t (inl e) apart =
      let (kept, avoids) = bypass_step-Avoids s in
      subst Avoids (sym e) (avoids (λ same. apart (ap (λ x. x.step_id) e ∙ kept ∙ same)))
  Elem-bypass_steps (s ∷ rest) t (inr m) apart = Elem-bypass_steps rest t m apart

  abbrev routed : ℕ → JobDefinition
  routed start_step_id = record d {
    steps = (bypass_steps d target bypass d.steps).0;
    start_step_id = start_step_id;
  }

  Reaches-routed :
      (first : ℕ) {v : ℕ} → first ≢ target.step_id → Reaches (routed first) v → v ≢ target.step_id
  unfolding step_by_id
  Reaches-routed first apart start = apart
  Reaches-routed first apart (follow {u} {v} s succeeded r e n) =
      let (m, k) = find_last-some (λ x. x.step_id == u) s (routed first).steps e in
      let here : s.step_id ≡ u = (==_iff s.step_id u).0 k in
      let avoids =
        Elem-bypass_steps d.steps s m (λ same. Reaches-routed first apart r (sym here ∙ same)) in
      avoids (routed first).steps v (ids-bypass_steps d.steps) (elim (Bool-cases succeeded) [
        | inl yes' ↦ inl (sym (next_step_after-next_by (routed first) s).0 ∙ (rw yes' at n))
        | inr no' ↦ inr (sym (next_step_after-next_by (routed first) s).1 ∙ (rw no' at n))
      ])

disable_step-avoids :
    (d : JobDefinition) (id : ℕ) (target : JobStep)
    → find (λ s. s.step_id == id) d.steps ≡ some target
    → is_single d.steps ≡ false
    → next_step_after d target true ≢ some id
    → (d.start_step_id ≢ id) ⊎ (next_step_after d target true ≢ none)
    → ¬ Reaches (disable_step d id).definition id
unfolding disable_step
disable_step-avoids d id target f many away leads =
    let bypass = next_step_after d target true in
    let same : target.step_id ≡ id =
      (==_iff target.step_id id).0 (find-some (λ s. s.step_id == id) target d.steps f).1 in
    let away' : bypass ≢ some target.step_id = λ e. away (e ∙ ap some same) in
    elim (Bool-cases (d.start_step_id == target.step_id)) [
      | inr other ↦
          let apart : d.start_step_id ≢ target.step_id = λ e. absurd (ground (arith, other, e)) in
          rw (f, many, other, disable_step)
            (λ r. Reaches-routed d target bypass away' d.start_step_id apart r (sym same))
      | inl here ↦ elim (Option-cases bypass) [
        | inl e ↦ elim leads [
          | inl l ↦ absurd (l ((==_iff d.start_step_id target.step_id).0 here ∙ same))
          | inr l ↦ absurd (l e)
        ]
        | inr (b, e) ↦
            let apart : b ≢ target.step_id = λ k. away' (e ∙ ap some k) in
            rw (f, many, here, e, disable_step)
              (λ r. Reaches-routed d target bypass away' b apart r (sym same))
      ]
    ]

-- Disabling a step of a job with more than one step, where the step does not go to itself on success, and does not
-- both start the job and end it: the flow of the new job can no longer arrive at that step.
pub disable_step-unreachable :
    (d : JobDefinition) (id : ℕ) (target : JobStep)
    → find (λ s. s.step_id == id) d.steps ≡ some target
    → is_single d.steps ≡ false
    → next_step_after d target true ≢ some id
    → (d.start_step_id ≢ id) ⊎ (next_step_after d target true ≢ none)
    → includes (reachable_steps (disable_step d id).definition) id ≡ false
disable_step-unreachable d id target f many away leads =
    elim (Bool-cases (includes (reachable_steps (disable_step d id).definition) id)) [
      | inr e ↦ e
      | inl e ↦ absurd (
          disable_step-avoids d id target f many away leads
            ((reachable_steps_iff (disable_step d id).definition id).0 e).0)
    ]
