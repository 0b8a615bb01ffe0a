-- ===== src/Worker/Handler.antt =====
-- packages/worker/src/command-handler.ts: the gates that a command passes before anything touches msdb, and
-- the record of its outcome. The clock reading of the record is that of the freshness gate.
use remote_sql_agent.Prelude.{
  ℕ, if◌then◌else◌, Bool, false, not, String, Option, none, some, List, has, or_else,
}
use remote_sql_agent.Capabilities.{Capability, Capability-discrete, command_capability, CommandKind}
use remote_sql_agent.Outbox.{
  Outbox, CommandOutcome, applied_command_outcome, record_applied_command,
}
use remote_sql_agent.Signing.{
  Command, Timestamp, Crypto, command_kind, verify_command_signature, to_ms, is_command_fresh,
}
use remote_sql_agent.Worker.Msdb.{
  ApplyOutcome, Run, done, sql_failed, threw, Msdb, refuse, is_empty, non_empty, JobDefinitionBlob,
}
use remote_sql_agent.Worker.Apply.{apply}

pub record CommandContext : Type 0 where
  pub capabilities : List Capability
  pub command_signing_public_key : String

abbrev pub fresh_at : Option Timestamp → ℕ → Bool
fresh_at none now = false
fresh_at (some t) now = is_command_fresh (to_ms t) now

-- Gate 3: the capability that the kind needs must be among the worker's own.
abbrev pub capability_gate : List Capability → Option CommandKind → Option String
capability_gate capabilities none = some "UnknownCommand"
capability_gate capabilities (some kind) =
    if has Capability-discrete capabilities (command_capability kind)
    then none
    else some "CapabilityDenied"

-- Gates 1 to 3, in the order of the code: the code of the first that refuses.
unfoldable pub refused_by : Crypto → CommandContext → Command → ℕ → Option String
unfolding Capability-discrete command_capability
refused_by crypto ctx c now =
    if is_empty ctx.command_signing_public_key
    then some "NoSigningKey"
    else (if not (verify_command_signature crypto c ctx.command_signing_public_key)
        then some "BadSignature"
        else (if not (fresh_at c.issued_at now)
            then some "Stale"
            else capability_gate ctx.capabilities (command_kind c)))

-- Gate 4: what a command that was applied before is answered.
unfoldable pub replay : CommandOutcome → ApplyOutcome
replay previous = record {
  success = previous.success;
  error_code = if previous.success then "" else or_else previous.result "Unknown";
  sql_error_number = 0;
  resulting_job = none;
}

-- A call ends with an outcome, or an exception passes through it.
pub data Handled : Type 0 where
  replied : ApplyOutcome → Handled
  raised : Handled

pub record WorkerState (Db : Type 0) : Type 0 where
  pub db : Db
  pub outbox : Outbox

abbrev pub sql_error_outcome : ℕ → ApplyOutcome
sql_error_outcome n = record {
  success = false;
  error_code = "SqlError";
  sql_error_number = n;
  resulting_job = none;
}

-- What follows `apply`: the outcome is recorded, unless an exception other than `SqlApplyError` passes on.
unfoldable pub settle :
    {Db : Type 0} → Run Db ApplyOutcome → Outbox → String → ℕ → Handled × WorkerState Db
settle (done o db) outbox id now = (
  replied o,
  record {
    db = db;
    outbox = record_applied_command outbox id o.success (non_empty o.error_code) now;
  },
)
settle (sql_failed n db) outbox id now = (
  replied (sql_error_outcome n),
  record { db = db; outbox = record_applied_command outbox id false (some "SqlError") now },
)
settle (threw db) outbox id now = (raised, record { db = db; outbox = outbox })

module _ (m : Msdb) (crypto : Crypto) (ctx : CommandContext) where
  open m use {Db}

  unfoldable pub evaluate_and_apply : Command → ℕ → WorkerState Db → Handled × WorkerState Db
  unfolding refused_by settle replay
  evaluate_and_apply c now st = elim (refused_by crypto ctx c now) [
    | some code ↦ (replied (refuse code), st)
    | none ↦ elim (applied_command_outcome st.outbox c.id) [
      | some previous ↦ (replied (replay previous), st)
      | none ↦ settle (apply m c st.db) st.outbox c.id now
    ]
  ]

  pub record CommandResult : Type 0 where
    pub command_id : String
    pub success : Bool
    pub error_code : String
    pub sql_error_number : ℕ
    pub resulting_job : Option JobDefinitionBlob
    pub applied_at : ℕ

  abbrev result_of : Command → ℕ → Handled → Option CommandResult
  result_of c now raised = none
  result_of c now (replied o) = some (record {
    command_id = c.id;
    success = o.success;
    error_code = o.error_code;
    sql_error_number = o.sql_error_number;
    resulting_job = o.resulting_job;
    applied_at = now;
  })

  -- `none` where an exception passes through.
  unfoldable pub handle_command :
      Command → ℕ → WorkerState Db → Option CommandResult × WorkerState Db
  unfolding evaluate_and_apply
  handle_command c now st =
      let (handled, st') = evaluate_and_apply c now st in (result_of c now handled, st')
