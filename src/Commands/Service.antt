-- ===== src/Commands/Service.antt =====
-- packages/server/src/domain/commands.ts: `CommandService`. The tables of instances and workers, the registry
-- of live sessions, the signature and the configuration enter as the record `Env`; the clock and the new
-- row's UUID are arguments. `expiresAt` is compared with the clock as the code does. One `Env` serves a whole history of
-- calls, so the tables of instances and the live sessions do not change within one.
use remote_sql_agent.Prelude.{
  update_where, ℕ, ◌+◌, ◌*◌, ltb, if◌then◌else◌, Bool, true, false, not, ◌&&◌, String, str_eq,
  Option, none, some, List, [], ◌∷◌, ◌++◌, find, has, or_else,
}
use remote_sql_agent.Capabilities.{
  Capability, Capability-discrete, CommandKind, CommandKind-discrete, command_capability, read_only,
  as_tier, effective_capabilities, approval_required_by_default,
}
use remote_sql_agent.Roles.{Role, Role-discrete}
use remote_sql_agent.Signing.{Command}
use remote_sql_agent.Commands.Rows.{
  CommandState, CommandState-discrete, pending_approval, approved, dispatched, expired, Field,
  Fields, CommandRow, AuditRow, command_issued, Server,
}
use remote_sql_agent.Commands.Payloads.{build_proto_command}

-- What the joined row of an instance and its worker says.
pub record Target : Type 0 where
  pub worker_id : String
  pub instance_name : String
  pub granted : List String
  -- `maxCapabilityReported`: nothing before the worker has connected once.
  pub ceiling : Option String

pub record Config : Type 0 where
  pub require_approval_for_job_write : Bool
  pub approval_exempt_roles : List Role
  pub command_ttl_seconds : ℕ

pub record Env : Type 0 where
  pub config : Config
  pub target : String → Option Target
  -- `registry.get(workerId)` gives a live session.
  pub is_online : String → Bool
  -- `signCommand` with the server's key.
  pub sign : Command → List ℕ
  pub to_number : Field → ℕ
  -- The query of `users` for the name of a user id.
  pub username : String → Option String

pub record CreateCommandInput : Type 0 where
  pub instance_id : String
  pub kind : CommandKind
  pub job_uuid : Option String
  pub payload : Fields
  pub base_definition_hash : Option String
  pub issued_by : String
  pub issued_by_username : String
  pub issued_by_role : Role

-- `CommandError`: its status code and its code.
pub data Result (A : Type 0) : Type 0 where
  ok : A → Result A
  err : ℕ → String → Result A

-- `markExpired`.
abbrev pub expire_row : ℕ → CommandRow → CommandRow
expire_row now r = record r {
  state = expired;
  result_code = some "Expired";
  completed_at = some now;
}

-- `expiresAt && expiresAt < now`.
abbrev pub is_past : Option ℕ → ℕ → Bool
is_past none now = false
is_past (some t) now = ltb t now

abbrev pub by_id : String → CommandRow → Bool
by_id id r = str_eq r.id id

abbrev pub is_state : CommandState → CommandRow → Bool
is_state s r = has CommandState-discrete (s ∷ []) r.state

abbrev pub audited : Server → AuditRow → Server
audited st a = record st { audit_log = st.audit_log ++ a ∷ [] }

abbrev pub updated : Server → (CommandRow → Bool) → (CommandRow → CommandRow) → Server
updated st p change = record st { commands = update_where p change st.commands }

pub record CreateCommandResult : Type 0 where
  pub id : String
  pub state : CommandState
  pub requires_approval : Bool

module _ (env : Env) where
  unfoldable pub effective_capabilities_for : Target → List Capability
  unfolding as_tier
  effective_capabilities_for t =
      effective_capabilities t.granted (or_else (as_tier (or_else t.ceiling "")) read_only)

  unfoldable pub requires_approval : CommandKind → Role → Bool
  unfolding CommandKind-discrete Role-discrete
  requires_approval kind role =
      env.config.require_approval_for_job_write
      && has CommandKind-discrete approval_required_by_default kind
      && not (has Role-discrete env.config.approval_exempt_roles role)

  -- `buildProtoCommand` and the signature on it.
  abbrev pub signed_command : CommandRow → String → ℕ → Command
  signed_command r instance_name now =
      let c = build_proto_command env.to_number r.id r.kind instance_name r.payload now in
      record c { signature = env.sign c }

  abbrev pub dispatch_row : ℕ → List ℕ → CommandRow → CommandRow
  dispatch_row now signature r = record r {
    state = dispatched;
    dispatched_at = some now;
    signature = some signature;
  }

  -- `dispatch` once the row and its instance are found.
  unfoldable pub dispatch_found : CommandRow → Target → ℕ → Server → Bool × Server
  unfolding CommandState-discrete
  dispatch_found r t now st =
      if not (is_state approved r)
      then (false, st)
      else (if is_past r.expires_at now
          then (false, updated st (by_id r.id) (expire_row now))
          else (if not (env.is_online r.worker_id)
              then (false, st)
              else (let c = signed_command r t.instance_name now in
                  (
                    true,
                    record (updated st (by_id r.id) (dispatch_row now c.signature)) {
                      outgoing = st.outgoing ++ (r.worker_id, c) ∷ [];
                    },
                  ))))

  unfoldable pub dispatch : String → ℕ → Server → Bool × Server
  unfolding dispatch_found
  dispatch id now st = elim (find (by_id id) st.commands) [
    | none ↦ (false, st)
    | some r ↦ elim (env.target r.instance_id) [
      | none ↦ (false, st)
      | some t ↦ dispatch_found r t now st
    ]
  ]

  abbrev pub new_row : CreateCommandInput → Target → String → Bool → ℕ → CommandRow
  new_row input t id needs now = record {
    id = id;
    kind = input.kind;
    instance_id = input.instance_id;
    worker_id = t.worker_id;
    job_uuid = input.job_uuid;
    payload = input.payload;
    base_definition_hash = input.base_definition_hash;
    state = if needs then pending_approval else approved;
    issued_by = input.issued_by;
    approved_by = none;
    signature = none;
    result_code = none;
    result_detail = none;
    sql_error_number = none;
    issued_at = now;
    approved_at = if needs then none else some now;
    dispatched_at = none;
    completed_at = none;
    expires_at = some (now + env.config.command_ttl_seconds * 1000);
  }

  abbrev pub issued : CreateCommandInput → Target → String → Bool → ℕ → Server → Server
  issued input t id needs now st =
      audited (record st { commands = st.commands ++ new_row input t id needs now ∷ [] })
        (record { actor = input.issued_by_username; action = command_issued id needs })

  unfoldable pub create :
      CreateCommandInput → String → ℕ → Server → Result CreateCommandResult × Server
  unfolding effective_capabilities_for requires_approval dispatch Capability-discrete
  create input id now st = elim (env.target input.instance_id) [
    | none ↦ (err 404 "NotFound", st)
    | some t ↦
        if not
          (has Capability-discrete (effective_capabilities_for t) (command_capability input.kind))
        then (err 403 "CapabilityDenied", st)
        else (let needs = requires_approval input.kind input.issued_by_role in
            let st' = issued input t id needs now st in
            let r : CreateCommandResult = record {
              id = id;
              state = if needs then pending_approval else approved;
              requires_approval = needs;
            } in
            (ok r, if needs then st' else (dispatch id now st').1))
  ]
