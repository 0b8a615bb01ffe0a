-- ===== src/Diff.antt =====
-- packages/server/src/domain/diff.ts: the structured difference of two versions of a job. A path is a constructor with what
-- the template string puts in; a value that may be of several types is a `Value`.
pub mod Fields
pub mod Lookup
pub mod Empty
pub mod Agreed
mod Examples
use remote_sql_agent.Prelude.{
  ℕ, ◌==◌, if◌then◌else◌, Bool, true, false, not, ◌||◌, String, str_eq, Option, none, some, is_some,
  List, [], ◌∷◌, ◌++◌, map, find_last, sort_by,
}
use remote_sql_agent.Job.{
  StepSubsystem, JobStep, JobNotifications, ScheduleDefinition, JobDefinition,
}

pub data Value : Type 0 where
  null : Value
  text : String → Value
  flag : Bool → Value
  number : ℕ → Value
  subsystem : StepSubsystem → Value

abbrev pub text_value : Option String → Value
text_value none = null
text_value (some s) = text s

-- The position in the list of the enumeration.
abbrev pub subsystem_rank : StepSubsystem → ℕ
subsystem_rank StepSubsystem.tsql = 0
subsystem_rank StepSubsystem.cmd_exec = 1
subsystem_rank StepSubsystem.power_shell = 2
subsystem_rank StepSubsystem.analysis_command = 3
subsystem_rank StepSubsystem.analysis_query = 4
subsystem_rank StepSubsystem.ssis = 5
subsystem_rank StepSubsystem.distribution = 6
subsystem_rank StepSubsystem.log_reader = 7
subsystem_rank StepSubsystem.merge = 8
subsystem_rank StepSubsystem.snapshot = 9
subsystem_rank StepSubsystem.queue_reader = 10

abbrev flag_eq : Bool → Bool → Bool
flag_eq true b = b
flag_eq false b = not b

-- `===`.
abbrev pub value_eq : Value → Value → Bool
value_eq null null = true
value_eq (text s) (text t) = str_eq s t
value_eq (flag a) (flag b) = flag_eq a b
value_eq (number m) (number n) = m == n
value_eq (subsystem a) (subsystem b) = subsystem_rank a == subsystem_rank b
value_eq _ _ = false

pub data FieldPath : Type 0 where
  of_job : String → FieldPath
  of_notifications : String → FieldPath
  of_step : ℕ → String → FieldPath
  of_schedule : String → String → FieldPath

pub record FieldChange : Type 0 where
  pub path : FieldPath
  pub before : Value
  pub after : Value

pub data ChangeKind : Type 0 where
  added removed modified : ChangeKind

pub record StepChange : Type 0 where
  pub change : ChangeKind
  pub step_id : ℕ
  pub step_name : String
  pub fields : Option (List FieldChange)
  pub command_before : Option String
  pub command_after : Option String

pub record ScheduleChange : Type 0 where
  pub change : ChangeKind
  pub name : String
  pub fields : Option (List FieldChange)

pub data Change : Type 0 where
  field_change : FieldChange → Change
  step_change : StepChange → Change
  schedule_change : ScheduleChange → Change

-- A list of fields: the name of each, and how it is read.
abbrev pub FieldList : Type 0 → Type 0
FieldList A = List (String × (A → Value))

abbrev pub job_scalar_fields : FieldList JobDefinition
job_scalar_fields =
    ("name", λ d. text d.name)
    ∷ ("description", λ d. text_value d.description)
    ∷ ("enabled", λ d. flag d.enabled)
    ∷ ("categoryName", λ d. text_value d.category_name)
    ∷ ("ownerLoginName", λ d. text_value d.owner_login_name)
    ∷ ("startStepId", λ d. number d.start_step_id)
    ∷ []

-- `Object.keys(after.notifications)`.
abbrev pub notification_fields : FieldList JobNotifications
notification_fields =
    ("emailOperatorName", λ n. text_value n.email_operator_name)
    ∷ ("emailLevel", λ n. number n.email_level)
    ∷ ("netsendOperatorName", λ n. text_value n.netsend_operator_name)
    ∷ ("netsendLevel", λ n. number n.netsend_level)
    ∷ ("pageOperatorName", λ n. text_value n.page_operator_name)
    ∷ ("pageLevel", λ n. number n.page_level)
    ∷ ("eventlogLevel", λ n. number n.eventlog_level)
    ∷ ("deleteLevel", λ n. number n.delete_level)
    ∷ []

abbrev pub step_fields : FieldList JobStep
step_fields =
    ("name", λ s. text s.name)
    ∷ ("subsystem", λ s. subsystem s.subsystem)
    ∷ ("databaseName", λ s. text_value s.database_name)
    ∷ ("databaseUserName", λ s. text_value s.database_user_name)
    ∷ ("onSuccessAction", λ s. number s.on_success_action)
    ∷ ("onSuccessStepId", λ s. number s.on_success_step_id)
    ∷ ("onFailAction", λ s. number s.on_fail_action)
    ∷ ("onFailStepId", λ s. number s.on_fail_step_id)
    ∷ ("retryAttempts", λ s. number s.retry_attempts)
    ∷ ("retryIntervalMinutes", λ s. number s.retry_interval_minutes)
    ∷ ("outputFileName", λ s. text_value s.output_file_name)
    ∷ ("flags", λ s. number s.flags)
    ∷ ("proxyName", λ s. text_value s.proxy_name)
    ∷ []

abbrev pub schedule_fields : FieldList ScheduleDefinition
schedule_fields =
    ("enabled", λ s. flag s.enabled)
    ∷ ("freqType", λ s. number s.freq_type)
    ∷ ("freqInterval", λ s. number s.freq_interval)
    ∷ ("freqSubdayType", λ s. number s.freq_subday_type)
    ∷ ("freqSubdayInterval", λ s. number s.freq_subday_interval)
    ∷ ("freqRelativeInterval", λ s. number s.freq_relative_interval)
    ∷ ("freqRecurrenceFactor", λ s. number s.freq_recurrence_factor)
    ∷ ("activeStartDate", λ s. number s.active_start_date)
    ∷ ("activeEndDate", λ s. number s.active_end_date)
    ∷ ("activeStartTime", λ s. number s.active_start_time)
    ∷ ("activeEndTime", λ s. number s.active_end_time)
    ∷ []

-- The loop over a list of fields.
unfoldable pub changed_fields :
    {A : Type 0} → (String → FieldPath) → FieldList A → A → A → List FieldChange
changed_fields path [] before after = []
changed_fields path (f ∷ fields) before after =
    let rest = changed_fields path fields before after in
    if value_eq (f.1 before) (f.1 after)
    then rest
    else record { path = path f.0; before = f.1 before; after = f.1 after } ∷ rest

abbrev pub is_step : ℕ → JobStep → Bool
is_step id s = s.step_id == id

abbrev pub is_schedule : String → ScheduleDefinition → Bool
is_schedule name s = str_eq s.name name

abbrev is_nil : List FieldChange → Bool
is_nil [] = true
is_nil (_ ∷ _) = false

-- What the first loop of `diffSteps` adds for a step.
unfoldable pub step_changes : Option JobStep → JobStep → List StepChange
unfolding changed_fields
step_changes none step =
    record {
      change = added;
      step_id = step.step_id;
      step_name = step.name;
      fields = none;
      command_before = none;
      command_after = some step.command;
    }
    ∷ []
step_changes (some prev) step =
    let fields = changed_fields (of_step step.step_id) step_fields prev step in
    let command_changed = not (str_eq prev.command step.command) in
    if not (is_nil fields) || command_changed
    then record {
      change = modified;
      step_id = step.step_id;
      step_name = step.name;
      fields = some fields;
      command_before = if command_changed then some prev.command else none;
      command_after = if command_changed then some step.command else none;
    }
      ∷ []
    else []

abbrev pub removed_step : JobStep → StepChange
removed_step step = record {
  change = removed;
  step_id = step.step_id;
  step_name = step.name;
  fields = none;
  command_before = some step.command;
  command_after = none;
}

unfoldable pub schedule_changes :
    Option ScheduleDefinition → ScheduleDefinition → List ScheduleChange
unfolding changed_fields
schedule_changes none sched = record { change = added; name = sched.name; fields = none } ∷ []
schedule_changes (some prev) sched =
    let fields = changed_fields (of_schedule sched.name) schedule_fields prev sched in
    if is_nil fields
    then []
    else record { change = modified; name = sched.name; fields = some fields } ∷ []

-- The two loops: over what is there now, and over what was there and is gone.
module _ {A C : Type 0} where
  unfoldable pub present : (A → List C) → List A → List C
  present changes [] = []
  present changes (a ∷ rest) = changes a ++ present changes rest

  unfoldable pub gone : (A → Bool) → (A → C) → List A → List C
  gone stays change [] = []
  gone stays change (b ∷ bs) =
      let rest = gone stays change bs in if stays b then rest else change b ∷ rest

unfoldable pub diff_steps : List JobStep → List JobStep → List StepChange
unfolding step_changes present gone
diff_steps before after =
    sort_by (λ c. c.step_id)
      (present (λ s. step_changes (find_last (is_step s.step_id) before) s) after
        ++ gone (λ s. is_some (find_last (is_step s.step_id) after)) removed_step before)

unfoldable pub diff_schedules :
    List ScheduleDefinition → List ScheduleDefinition → List ScheduleChange
unfolding schedule_changes present gone
diff_schedules before after =
    present (λ s. schedule_changes (find_last (is_schedule s.name) before) s) after
    ++ gone (λ s. is_some (find_last (is_schedule s.name) after))
        (λ s. record { change = removed; name = s.name; fields = none }) before

unfoldable pub diff_job_definitions : JobDefinition → JobDefinition → List Change
unfolding diff_steps diff_schedules
diff_job_definitions before after =
    map field_change (changed_fields of_job job_scalar_fields before after)
    ++ map field_change (
        changed_fields of_notifications notification_fields before.notifications
          after.notifications)
    ++ map step_change (diff_steps before.steps after.steps)
    ++ map schedule_change (diff_schedules before.schedules after.schedules)
