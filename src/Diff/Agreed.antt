-- ===== src/Diff/Agreed.antt =====
-- packages/server/src/domain/diff.ts: when two versions of a job have no difference.
use remote_sql_agent.Prelude.{ℕ, ◌≡◌, subst, ◌↔◌, true, String, is_some, List, [], ◌++◌, find_last}
use remote_sql_agent.Job.{JobStep, JobNotifications, ScheduleDefinition, JobDefinition}
use remote_sql_agent.Diff.{
  field_change, step_change, schedule_change, Value, text, flag, number, text_value, value_eq,
  of_job, of_notifications, notification_fields, job_scalar_fields, changed_fields, is_step,
  is_schedule, step_changes, schedule_changes, removed_step, present, gone, diff_steps,
  diff_schedules, diff_job_definitions,
}
use remote_sql_agent.Diff.Fields.{
  value_eq_refl, changed_fields_iff, text_same, flag_same, number_same, optional_same,
  notifications_same,
}
use remote_sql_agent.Diff.Lookup.{
  IsKeyed, Nothing-agrees, agrees-Nothing, append_nil, present_nil, gone_nil,
}
use remote_sql_agent.Diff.Empty.{
  changed_fields_self, step-found, schedule-found, All-iff, sort_by_nil, map_nil, step_matches,
  schedule_matches,
}

diff_steps_iff :
    (before after : List JobStep)
    → IsKeyed (λ s. s.step_id) after
    → (diff_steps before after ≡ [])
      ↔ ((id : ℕ) → find_last (is_step id) before ≡ find_last (is_step id) after)
unfolding diff_steps
diff_steps_iff before after keyed =
    let now = present (λ s. step_changes (find_last (is_step s.step_id) before) s) after in
    let then_gone = gone (λ s. is_some (find_last (is_step s.step_id) after)) removed_step before in
    let (sorted, unsorted) = sort_by_nil (λ c. c.step_id) (now ++ then_gone) in
    let (parts, whole) = append_nil now then_gone in
    let (shown, hidden) =
      present_nil (λ s. step_changes (find_last (is_step s.step_id) before) s) after in
    let (kept, keeps) =
      gone_nil (λ s. is_some (find_last (is_step s.step_id) after)) removed_step before in
    let (found, finds) = All-iff _ _ after (step-found before) in
    (
      λ h.
          let (n, g) = parts (sorted h) in
          Nothing-agrees (λ s. s.step_id) is_step step_matches before after
            (found (shown n), kept g),
      λ agree.
          let (f, k) =
            agrees-Nothing (λ s. s.step_id) is_step step_matches before after keyed agree in
          unsorted (whole (hidden (finds f), keeps k)),
    )

diff_schedules_iff :
    (before after : List ScheduleDefinition)
    → IsKeyed (λ s. s.name) after
    → (diff_schedules before after ≡ [])
      ↔ ((name : String) → find_last (is_schedule name) before ≡ find_last (is_schedule name) after)
unfolding diff_schedules
diff_schedules_iff before after keyed =
    let (parts, whole) = append_nil _ _ in
    let (shown, hidden) =
      present_nil (λ s. schedule_changes (find_last (is_schedule s.name) before) s) after in
    let (kept, keeps) = gone_nil (λ s. is_some (find_last (is_schedule s.name) after)) _ before in
    let (found, finds) = All-iff _ _ after (schedule-found before) in
    (
      λ h.
          let (n, g) = parts h in
          Nothing-agrees (λ s. s.name) is_schedule schedule_matches before after
            (found (shown n), kept g),
      λ agree.
          let (f, k) =
            agrees-Nothing (λ s. s.name) is_schedule schedule_matches before after keyed agree in
          whole (hidden (finds f), keeps k),
    )

abbrev pub SameScalars : JobDefinition → JobDefinition → Type 0
SameScalars before after =
    (before.name ≡ after.name)
    × (before.description ≡ after.description)
    × (before.enabled ≡ after.enabled)
    × (before.category_name ≡ after.category_name)
    × (before.owner_login_name ≡ after.owner_login_name)
    × (before.start_step_id ≡ after.start_step_id)

-- FieldList that are the same read the same.
same : {A : Type 0} (value : A → Value) (a b : A) → a ≡ b → value_eq (value a) (value b) ≡ true
same value a b e = subst (λ x. value_eq (value a) (value x) ≡ true) e (value_eq_refl (value a))

scalars_iff :
    (before after : JobDefinition)
    → (changed_fields of_job job_scalar_fields before after ≡ []) ↔ SameScalars before after
scalars_iff before after =
    let (to, from) = changed_fields_iff of_job job_scalar_fields before after in
    (
      λ h.
          let (n, (d, (e, (c, (o, (s, _)))))) = to h in
          (
            text_same before.name after.name n,
            optional_same before.description after.description d,
            flag_same before.enabled after.enabled e,
            optional_same before.category_name after.category_name c,
            optional_same before.owner_login_name after.owner_login_name o,
            number_same before.start_step_id after.start_step_id s,
          ),
      λ h.
          let (n, d, e, c, o, s) = h in
          from (
            same text before.name after.name n,
            (
              same text_value before.description after.description d,
              (
                same flag before.enabled after.enabled e,
                (
                  same text_value before.category_name after.category_name c,
                  (
                    same text_value before.owner_login_name after.owner_login_name o,
                    (same number before.start_step_id after.start_step_id s, tt),
                  ),
                ),
              ),
            ),
          ),
    )

notifications_iff :
    (before after : JobNotifications)
    → (changed_fields of_notifications notification_fields before after ≡ []) ↔ (before ≡ after)
notifications_iff before after =
    let (to, from) = changed_fields_iff of_notifications notification_fields before after in
    (
      λ h. notifications_same before after (to h),
      λ e.
          subst (λ x. changed_fields of_notifications notification_fields before x ≡ []) e
            (changed_fields_self of_notifications notification_fields before),
    )

-- Two versions have no difference exactly if they have the same scalar fields and notifications, the same step under each
-- id, and the same schedule under each name, where the steps of the later version differ in their ids, and its schedules in
-- their names.
pub diff_job_definitions_iff :
    (before after : JobDefinition)
    → IsKeyed (λ s. s.step_id) after.steps
    → IsKeyed (λ s. s.name) after.schedules
    → (diff_job_definitions before after ≡ []) ↔ (
        SameScalars before after
        × (before.notifications ≡ after.notifications)
        × ((id : ℕ) → find_last (is_step id) before.steps ≡ find_last (is_step id) after.steps)
        × ((name : String)
            → find_last (is_schedule name) before.schedules
              ≡ find_last (is_schedule name) after.schedules))
unfolding diff_job_definitions
diff_job_definitions_iff before after steps schedules =
    let (f, f') = append_nil _ _ in
    let (g, g') = append_nil _ _ in
    let (h, h') = append_nil _ _ in
    let (a, a') = map_nil field_change _ in
    let (b, b') = map_nil field_change _ in
    let (c, c') = map_nil step_change _ in
    let (d, d') = map_nil schedule_change _ in
    let (s, s') = scalars_iff before after in
    let (n, n') = notifications_iff before.notifications after.notifications in
    let (t, t') = diff_steps_iff before.steps after.steps steps in
    let (u, u') = diff_schedules_iff before.schedules after.schedules schedules in
    (
      λ e.
          let (rest, e4) = f e in
          let (rest', e3) = g rest in
          let (e1, e2) = h rest' in (s (a e1), n (b e2), t (c e3), u (d e4)),
      λ k.
          let (k1, k2, k3, k4) = k in f' (g' (h' (a' (s' k1), b' (n' k2)), c' (t' k3)), d' (u' k4)),
    )
