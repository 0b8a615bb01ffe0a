-- ===== src/Worker/Msdb.antt =====
-- The worker's view of msdb: what packages/worker/src/sql/agent-repo.ts and agent-writer.ts read and write,
-- and the parsers of packages/protocol, as the interface `Msdb`; and the outcomes of
-- packages/worker/src/command-handler.ts. The texts of the details are left out.
use remote_sql_agent.Prelude.{
  ℕ, if◌then◌else◌, Bool, true, false, String, str_eq, Option, none, some, List,
}
use remote_sql_agent.Job.{JobDefinition, ScheduleDefinition}

pub record JobDefinitionBlob : Type 0 where
  pub job_uuid : String
  pub canonical_json : String
  pub definition_hash : String
  pub date_modified : ℕ

pub record ApplyOutcome : Type 0 where
  pub success : Bool
  pub error_code : String
  pub sql_error_number : ℕ
  pub resulting_job : Option JobDefinitionBlob

-- How a step against msdb ends: with a value, with a `SqlApplyError`, or with any other exception. Each
-- carries what msdb holds afterwards.
pub data Run (Db A : Type 0) : Type 0 where
  done : A → Db → Run Db A
  sql_failed : ℕ → Db → Run Db A
  threw : Db → Run Db A

infixl 5 ◌>>=◌ ◌>>◌
abbrev pub ◌>>=◌ : {Db A B : Type 0} → (Db → Run Db A) → (A → Db → Run Db B) → Db → Run Db B
◌>>=◌ m f db = elim (m db) [
  | done a db' ↦ f a db'
  | sql_failed n db' ↦ sql_failed n db'
  | threw db' ↦ threw db'
]

abbrev pub ◌>>◌ : {Db B : Type 0} → (Db → Run Db (Unit {0})) → (Db → Run Db B) → Db → Run Db B
m >> k = m >>= λ _. k

abbrev pub pure : {Db A : Type 0} → A → Db → Run Db A
pure a db = done a db

-- The functions of packages/worker/src/sql/agent-writer.ts and agent-repo.ts, and the parsers.
pub record Msdb : Type 1 where
  pub Db : Type 0
  pub Operator : Type 0
  -- `readJobs`, each job canonicalised and hashed.
  pub read_jobs : Db → Run Db (List JobDefinitionBlob)
  pub toggle_job : String → Bool → Db → Run Db (Unit {0})
  pub start_job : String → Option String → Db → Run Db (Unit {0})
  pub stop_job : String → Db → Run Db (Unit {0})
  -- Returns the uuid of the job that was created or replaced.
  pub upsert_job : String → JobDefinition → Db → Run Db String
  pub delete_job : String → Db → Run Db (Unit {0})
  pub upsert_schedule : ScheduleDefinition → Db → Run Db (Unit {0})
  pub delete_schedule : String → Db → Run Db (Unit {0})
  pub upsert_operator : Operator → Db → Run Db (Unit {0})
  pub set_job_write_allowed : String → Bool → Db → Run Db (Unit {0})
  pub parse_job_definition : String → Option JobDefinition
  pub parse_schedule : String → Option ScheduleDefinition
  pub parse_operator : String → Option Operator

abbrev pub ok_outcome : Option JobDefinitionBlob → ApplyOutcome
ok_outcome job = record {
  success = true;
  error_code = "";
  sql_error_number = 0;
  resulting_job = job;
}

abbrev pub refuse : String → ApplyOutcome
refuse code = record {
  success = false;
  error_code = code;
  sql_error_number = 0;
  resulting_job = none;
}

abbrev pub is_empty : String → Bool
is_empty s = str_eq s ""

-- `s || undefined`, `s || null`.
abbrev pub non_empty : String → Option String
non_empty s = if is_empty s then none else some s
