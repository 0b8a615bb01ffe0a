-- ===== src/Commands/Rows.antt =====
-- packages/server/src/domain/commands.ts, and the tables of packages/server/src/db/schema.ts that it
-- works on: the rows of `commands`, the audit rows, and the state of the service. `id` is the primary key, so
-- an update by id changes the first row that has it. The tracing spans are left out.
use remote_sql_agent.Prelude.{ℕ, Bool, String, Option, List}
use remote_sql_agent.Capabilities.{CommandKind}
use remote_sql_agent.Signing.{Command}

pub data CommandState : Type 0 where
  pending_approval approved dispatched succeeded failed expired rejected : CommandState

unfoldable pub CommandState-discrete : Discrete CommandState
CommandState-discrete = hlevel

-- A value of the stored payload, a `Record<string, unknown>`.
pub data Field : Type 0 where
  text : String → Field
  flag : Bool → Field
  number : ℕ → Field
  other : Field

abbrev pub Fields : Type 0
Fields = List (String × Field)

pub record CommandRow : Type 0 where
  pub id : String
  pub kind : CommandKind
  pub instance_id : String
  pub worker_id : String
  pub job_uuid : Option String
  pub payload : Fields
  pub base_definition_hash : Option String
  pub state : CommandState
  pub issued_by : String
  pub approved_by : Option String
  pub signature : Option (List ℕ)
  pub result_code : Option String
  pub result_detail : Option String
  pub sql_error_number : Option ℕ
  pub issued_at : ℕ
  pub approved_at : Option ℕ
  pub dispatched_at : Option ℕ
  pub completed_at : Option ℕ
  pub expires_at : Option ℕ

-- The actions written to the audit log, with their targets.
pub data AuditAction : Type 0 where
  command_issued : String → Bool → AuditAction
  command_approved command_rejected : String → AuditAction
  command_result command_result_failed : String → AuditAction

pub record AuditRow : Type 0 where
  pub actor : String
  pub action : AuditAction

pub record Server : Type 0 where
  pub commands : List CommandRow
  pub audit_log : List AuditRow
  -- The commands handed to live sessions, oldest first, each with its worker.
  pub outgoing : List (String × Command)
