-- ===== src/Diff/Empty.antt =====
-- packages/server/src/domain/diff.ts: when a step or a schedule counts as unchanged.
use remote_sql_agent.Prelude.{
  ℕ, ==_iff, ◌≡◌, refl, sym, ap, subst, ◌∙◌, ◌↔◌, inl, inr, Bool, Bool-cases, true, false, ◌&&◌,
  String, str_eq, eq_iff, Option-cases, none, some, List, List-cases, [], ◌∷◌, map, All, find_last,
  find_last-some, insert_by, sort_by, arith,
}
use remote_sql_agent.Job.{JobStep, ScheduleDefinition}
use remote_sql_agent.Diff.{
  value_eq, of_step, of_schedule, FieldList, FieldPath, FieldChange, step_fields, schedule_fields,
  changed_fields, is_step, is_schedule, step_changes, schedule_changes,
}
use remote_sql_agent.Diff.Fields.{value_eq_refl, changed_fields_iff, step_same, schedule_same}

All-refl :
    {A : Type 0} (fields : FieldList A) (a : A) → All (λ f. value_eq (f.1 a) (f.1 a) ≡ true) fields
All-refl [] a = tt
All-refl (f ∷ fields) a = (value_eq_refl (f.1 a), All-refl fields a)

pub changed_fields_self :
    {A : Type 0} (path : String → FieldPath) (fields : FieldList A) (a : A)
    → changed_fields path fields a a ≡ []
changed_fields_self path fields a = (changed_fields_iff path fields a a).1 (All-refl fields a)

abbrev is_empty : {C : Type 0} → List C → Bool
is_empty [] = true
is_empty (_ ∷ _) = false

pub is_empty_nil : {C : Type 0} (xs : List C) → is_empty xs ≡ true → xs ≡ []
is_empty_nil [] h = refl
is_empty_nil (x ∷ xs) h = absurd (cc)

abbrev fields_of : JobStep → JobStep → List FieldChange
fields_of prev step = changed_fields (of_step step.step_id) step_fields prev step

step_changes-empty :
    (prev step : JobStep)
    → is_empty (step_changes (some prev) step)
      ≡ (is_empty (fields_of prev step) && str_eq prev.command step.command)
unfolding step_changes
step_changes-empty prev step = elim (List-cases (fields_of prev step)) [
  | inr (c, cs, e) ↦ rw (e, step_changes) refl
  | inl e ↦ elim (Bool-cases (str_eq prev.command step.command)) [
    | inl k ↦ rw (e, k, step_changes) refl
    | inr k ↦ rw (e, k, step_changes) refl
  ]
]

step_changes_iff :
    (prev step : JobStep)
    → prev.step_id ≡ step.step_id
    → (step_changes (some prev) step ≡ []) ↔ (prev ≡ step)
step_changes_iff prev step id = (
  λ h.
      let clear : (is_empty (fields_of prev step) && str_eq prev.command step.command) ≡ true =
        sym (step_changes-empty prev step) ∙ ap is_empty h in
      let fields : is_empty (fields_of prev step) ≡ true = ground (arith, clear) in
      let command : str_eq prev.command step.command ≡ true = ground (arith, clear) in
      step_same prev step id ((eq_iff prev.command step.command).0 command) (
        (changed_fields_iff (of_step step.step_id) step_fields prev step).0
          (is_empty_nil (fields_of prev step) fields)),
  λ e.
      subst (λ p. step_changes (some p) step ≡ []) (sym e)
        (is_empty_nil _ (
          step_changes-empty step step
          ∙ ground (
            arith,
            ap is_empty (changed_fields_self (of_step step.step_id) step_fields step),
            (eq_iff step.command step.command).1 refl,
          ))),
)

step_changes-none : (step : JobStep) → is_empty (step_changes none step) ≡ false
unfolding step_changes
step_changes-none step = refl

pub step_matches : (id : ℕ) (s : JobStep) → (is_step id s ≡ true) ↔ (s.step_id ≡ id)
step_matches id s = ==_iff s.step_id id

pub schedule_matches :
    (name : String) (s : ScheduleDefinition) → (is_schedule name s ≡ true) ↔ (s.name ≡ name)
schedule_matches name s = eq_iff s.name name

pub step-found :
    (before : List JobStep) (step : JobStep)
    → (step_changes (find_last (is_step step.step_id) before) step ≡ [])
      ↔ (find_last (is_step step.step_id) before ≡ some step)
step-found before step = elim (Option-cases (find_last (is_step step.step_id) before)) [
  | inl e ↦
      rw (e) (λ h. absurd (ground (arith, step_changes-none step, ap is_empty h)), λ h. absurd (cc))
  | inr (prev, e) ↦
      let (m, hit) = find_last-some (is_step step.step_id) prev before e in
      let (to, from) = step_changes_iff prev step ((step_matches step.step_id prev).0 hit) in
      let into : some prev ≡ some step → prev ≡ step = λ h. cc in
      rw (e) (λ h. ap some (to h), λ h. from (into h))
]

abbrev schedule_fields_of : ScheduleDefinition → ScheduleDefinition → List FieldChange
schedule_fields_of prev sched = changed_fields (of_schedule sched.name) schedule_fields prev sched

schedule_changes-empty :
    (prev sched : ScheduleDefinition)
    → is_empty (schedule_changes (some prev) sched) ≡ is_empty (schedule_fields_of prev sched)
unfolding schedule_changes
schedule_changes-empty prev sched = elim (List-cases (schedule_fields_of prev sched)) [
  | inr (c, cs, e) ↦ rw (e, schedule_changes) refl
  | inl e ↦ rw (e, schedule_changes) refl
]

schedule_changes-none :
    (sched : ScheduleDefinition) → is_empty (schedule_changes none sched) ≡ false
unfolding schedule_changes
schedule_changes-none sched = refl

schedule_changes_iff :
    (prev sched : ScheduleDefinition)
    → prev.name ≡ sched.name
    → (schedule_changes (some prev) sched ≡ []) ↔ (prev ≡ sched)
schedule_changes_iff prev sched name = (
  λ h.
      let fields = sym (schedule_changes-empty prev sched) ∙ ap is_empty h in
      schedule_same prev sched name (
        (changed_fields_iff (of_schedule sched.name) schedule_fields prev sched).0
          (is_empty_nil (schedule_fields_of prev sched) fields)),
  λ e.
      subst (λ p. schedule_changes (some p) sched ≡ []) (sym e)
        (is_empty_nil _ (
          schedule_changes-empty sched sched
          ∙ ap is_empty (changed_fields_self (of_schedule sched.name) schedule_fields sched))),
)

pub schedule-found :
    (before : List ScheduleDefinition) (sched : ScheduleDefinition)
    → (schedule_changes (find_last (is_schedule sched.name) before) sched ≡ [])
      ↔ (find_last (is_schedule sched.name) before ≡ some sched)
schedule-found before sched = elim (Option-cases (find_last (is_schedule sched.name) before)) [
  | inl e ↦
      rw (e)
        (λ h. absurd (ground (arith, schedule_changes-none sched, ap is_empty h)), λ h. absurd (cc))
  | inr (prev, e) ↦
      let (m, hit) = find_last-some (is_schedule sched.name) prev before e in
      let (to, from) = schedule_changes_iff prev sched ((schedule_matches sched.name prev).0 hit) in
      let into : some prev ≡ some sched → prev ≡ sched = λ h. cc in
      rw (e) (λ h. ap some (to h), λ h. from (into h))
]

pub All-iff :
    {A : Type 0} (P Q : A → Type 0) (xs : List A) → ((a : A) → P a ↔ Q a) → All P xs ↔ All Q xs
All-iff P Q [] h = (λ k. k, λ k. k)
All-iff P Q (x ∷ xs) h =
    let (to, from) = All-iff P Q xs h in (λ k. ((h x).0 k.0, to k.1), λ k. ((h x).1 k.0, from k.1))

insert_by-cons :
    {A : Type 0} (key : A → ℕ) (a : A) (xs : List A) → is_empty (insert_by key a xs) ≡ false
insert_by-cons key a [] = refl
insert_by-cons key a (x ∷ xs) = ground arith

pub sort_by_nil : {A : Type 0} (key : A → ℕ) (xs : List A) → (sort_by key xs ≡ []) ↔ (xs ≡ [])
sort_by_nil key [] = (λ h. h, λ h. refl)
sort_by_nil key (x ∷ xs) = (
  λ h. absurd (ground (arith, insert_by-cons key x (sort_by key xs), ap is_empty h)),
  λ h. absurd (cc),
)

pub map_nil : {A B : Type 0} (f : A → B) (xs : List A) → (map f xs ≡ []) ↔ (xs ≡ [])
map_nil f [] = (λ h. refl, λ h. refl)
map_nil f (x ∷ xs) = (λ h. absurd (cc), λ h. absurd (cc))
