-- ===== src/Diff/Fields.antt =====
-- packages/server/src/domain/diff.ts: lists of fields that tell two records apart.
use remote_sql_agent.Prelude.{
  ℕ, ◌==◌, ==_iff, ◌≡◌, refl, sym, ap, ◌∙◌, ◌↔◌, inl, inr, if◌then◌else◌, Bool, Bool-cases, true,
  false, String, eq_iff, Option, none, some, [], ◌∷◌, All, arith,
}
use remote_sql_agent.Job.{StepSubsystem, JobStep, JobNotifications, ScheduleDefinition}
use remote_sql_agent.Diff.{
  Value, null, text, flag, number, subsystem, text_value, subsystem_rank, value_eq, FieldPath,
  FieldList, step_fields, schedule_fields, notification_fields, changed_fields,
}

pub value_eq_refl : (a : Value) → value_eq a a ≡ true
value_eq_refl null = refl
value_eq_refl (text s) = (eq_iff s s).1 refl
value_eq_refl (flag true) = refl
value_eq_refl (flag false) = refl
value_eq_refl (number n) = (==_iff n n).1 refl
value_eq_refl (subsystem s) = (==_iff (subsystem_rank s) (subsystem_rank s)).1 refl

pub changed_fields_iff :
    {A : Type 0} (path : String → FieldPath) (fields : FieldList A) (a b : A)
    → (changed_fields path fields a b ≡ []) ↔ All (λ f. value_eq (f.1 a) (f.1 b) ≡ true) fields
unfolding changed_fields
changed_fields_iff path [] a b = (λ h. tt, λ h. refl)
changed_fields_iff path (f ∷ fields) a b = elim (Bool-cases (value_eq (f.1 a) (f.1 b))) [
  | inl same ↦
      let (to, from) = changed_fields_iff path fields a b in
      rw (same) (λ h. (refl, to h), λ h. from h.1)
  | inr differs ↦ rw (differs) (λ h. absurd (cc), λ h. absurd (cc))
]

-- FieldList that read the same are the same.
pub text_same : (s t : String) → value_eq (text s) (text t) ≡ true → s ≡ t
text_same s t h = (eq_iff s t).0 h

pub flag_same : (a b : Bool) → value_eq (flag a) (flag b) ≡ true → a ≡ b
flag_same a b h = ground (arith, h)

pub number_same : (a b : ℕ) → value_eq (number a) (number b) ≡ true → a ≡ b
number_same a b h = (==_iff a b).0 h

pub optional_same : (a b : Option String) → value_eq (text_value a) (text_value b) ≡ true → a ≡ b
optional_same none none h = refl
optional_same none (some t) h = absurd (cc)
optional_same (some s) none h = absurd (cc)
optional_same (some s) (some t) h = ap some ((eq_iff s t).0 h)

-- The subsystem at a position.
abbrev subsystem_at : ℕ → StepSubsystem
subsystem_at n =
    if n == 0
    then StepSubsystem.tsql
    else if n == 1
    then StepSubsystem.cmd_exec
    else if n == 2
    then StepSubsystem.power_shell
    else if n == 3
    then StepSubsystem.analysis_command
    else if n == 4
    then StepSubsystem.analysis_query
    else if n == 5
    then StepSubsystem.ssis
    else if n == 6
    then StepSubsystem.distribution
    else if n == 7
    then StepSubsystem.log_reader
    else if n == 8
    then StepSubsystem.merge
    else if n == 9
    then StepSubsystem.snapshot
    else StepSubsystem.queue_reader

subsystem_at-rank : (s : StepSubsystem) → subsystem_at (subsystem_rank s) ≡ s
subsystem_at-rank StepSubsystem.tsql = refl
subsystem_at-rank StepSubsystem.cmd_exec = refl
subsystem_at-rank StepSubsystem.power_shell = refl
subsystem_at-rank StepSubsystem.analysis_command = refl
subsystem_at-rank StepSubsystem.analysis_query = refl
subsystem_at-rank StepSubsystem.ssis = refl
subsystem_at-rank StepSubsystem.distribution = refl
subsystem_at-rank StepSubsystem.log_reader = refl
subsystem_at-rank StepSubsystem.merge = refl
subsystem_at-rank StepSubsystem.snapshot = refl
subsystem_at-rank StepSubsystem.queue_reader = refl

subsystem_same : (a b : StepSubsystem) → value_eq (subsystem a) (subsystem b) ≡ true → a ≡ b
subsystem_same a b h =
    sym (subsystem_at-rank a)
    ∙ ap subsystem_at ((==_iff (subsystem_rank a) (subsystem_rank b)).0 h)
    ∙ subsystem_at-rank b

abbrev AllEqual : {A : Type 0} → FieldList A → A → A → Type 0
AllEqual fields a b = All (λ f. value_eq (f.1 a) (f.1 b) ≡ true) fields

pub step_same :
    (p c : JobStep)
    → p.step_id ≡ c.step_id
    → p.command ≡ c.command
    → AllEqual step_fields p c
    → p ≡ c
step_same p c e0 e1 hs = λ i. record {
  step_id = e0 i;
  command = e1 i;
  name = text_same p.name c.name hs.0 i;
  subsystem = subsystem_same p.subsystem c.subsystem hs.1.0 i;
  database_name = optional_same p.database_name c.database_name hs.1.1.0 i;
  database_user_name = optional_same p.database_user_name c.database_user_name hs.1.1.1.0 i;
  on_success_action = number_same p.on_success_action c.on_success_action hs.1.1.1.1.0 i;
  on_success_step_id = number_same p.on_success_step_id c.on_success_step_id hs.1.1.1.1.1.0 i;
  on_fail_action = number_same p.on_fail_action c.on_fail_action hs.1.1.1.1.1.1.0 i;
  on_fail_step_id = number_same p.on_fail_step_id c.on_fail_step_id hs.1.1.1.1.1.1.1.0 i;
  retry_attempts = number_same p.retry_attempts c.retry_attempts hs.1.1.1.1.1.1.1.1.0 i;
  retry_interval_minutes =
      number_same p.retry_interval_minutes c.retry_interval_minutes hs.1.1.1.1.1.1.1.1.1.0 i;
  output_file_name = optional_same p.output_file_name c.output_file_name hs.1.1.1.1.1.1.1.1.1.1.0 i;
  flags = number_same p.flags c.flags hs.1.1.1.1.1.1.1.1.1.1.1.0 i;
  proxy_name = optional_same p.proxy_name c.proxy_name hs.1.1.1.1.1.1.1.1.1.1.1.1.0 i;
}

pub schedule_same :
    (p c : ScheduleDefinition) → p.name ≡ c.name → AllEqual schedule_fields p c → p ≡ c
schedule_same p c e0 hs = λ i. record {
  name = e0 i;
  enabled = flag_same p.enabled c.enabled hs.0 i;
  freq_type = number_same p.freq_type c.freq_type hs.1.0 i;
  freq_interval = number_same p.freq_interval c.freq_interval hs.1.1.0 i;
  freq_subday_type = number_same p.freq_subday_type c.freq_subday_type hs.1.1.1.0 i;
  freq_subday_interval = number_same p.freq_subday_interval c.freq_subday_interval hs.1.1.1.1.0 i;
  freq_relative_interval =
      number_same p.freq_relative_interval c.freq_relative_interval hs.1.1.1.1.1.0 i;
  freq_recurrence_factor =
      number_same p.freq_recurrence_factor c.freq_recurrence_factor hs.1.1.1.1.1.1.0 i;
  active_start_date = number_same p.active_start_date c.active_start_date hs.1.1.1.1.1.1.1.0 i;
  active_end_date = number_same p.active_end_date c.active_end_date hs.1.1.1.1.1.1.1.1.0 i;
  active_start_time = number_same p.active_start_time c.active_start_time hs.1.1.1.1.1.1.1.1.1.0 i;
  active_end_time = number_same p.active_end_time c.active_end_time hs.1.1.1.1.1.1.1.1.1.1.0 i;
}

pub notifications_same : (p c : JobNotifications) → AllEqual notification_fields p c → p ≡ c
notifications_same p c hs = λ i. record {
  email_operator_name = optional_same p.email_operator_name c.email_operator_name hs.0 i;
  email_level = number_same p.email_level c.email_level hs.1.0 i;
  netsend_operator_name = optional_same p.netsend_operator_name c.netsend_operator_name hs.1.1.0 i;
  netsend_level = number_same p.netsend_level c.netsend_level hs.1.1.1.0 i;
  page_operator_name = optional_same p.page_operator_name c.page_operator_name hs.1.1.1.1.0 i;
  page_level = number_same p.page_level c.page_level hs.1.1.1.1.1.0 i;
  eventlog_level = number_same p.eventlog_level c.eventlog_level hs.1.1.1.1.1.1.0 i;
  delete_level = number_same p.delete_level c.delete_level hs.1.1.1.1.1.1.1.0 i;
}
