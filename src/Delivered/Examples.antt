-- ===== src/Delivered/Examples.antt =====
-- An instance for the way of a command: a run of a job, signed with a toy scheme that the worker can check.
use remote_sql_agent.Prelude.{
  if◌then◌else◌, ℕ, ◌≡◌, ◌≢◌, refl, ap, inr, inl, true, str_eq, none, some, [], ◌∷◌, codes,
  codes_eq, codes_eq_iff, find, arith, Elem,
}
use remote_sql_agent.Capabilities.{CommandKind, observe, job_run, command_capability}
use remote_sql_agent.Signing.{Command, Crypto, command_signing_bytes}
use remote_sql_agent.Worker.Msdb.{Msdb, ApplyOutcome, done}
use remote_sql_agent.Worker.Apply.{apply_payload, apply}
use remote_sql_agent.Worker.Handler.{CommandContext, WorkerState, CommandResult, handle_command}
use remote_sql_agent.Commands.Rows.{
  CommandRow, CommandState, CommandState-discrete, Server, succeeded, text,
}
use remote_sql_agent.Commands.Service.{
  Env, by_id, signed_command, dispatch_row, dispatch, dispatch_found,
}
use remote_sql_agent.Commands.Lifecycle.{of_worker, record_result}
use remote_sql_agent.Commands.Delivery.{Sends, signed_command-addressed}
use remote_sql_agent.Commands.Payloads.{build_proto_command}
use remote_sql_agent.Outbox.{applied_command_outcome, find_applied}
use remote_sql_agent.Delivered.{report_of, dispatched_completes}

-- A server that counts the jobs started.
abbrev msdb : Msdb
msdb = record {
  Db = ℕ;
  Operator = Unit;
  read_jobs = λ db. done [] db;
  toggle_job = λ uuid enabled db. done tt db;
  start_job = λ uuid step db. done tt (ℕ.suc db);
  stop_job = λ uuid db. done tt db;
  upsert_job = λ uuid definition db. done uuid db;
  delete_job = λ uuid db. done tt db;
  upsert_schedule = λ schedule db. done tt db;
  delete_schedule = λ name db. done tt db;
  upsert_operator = λ operator db. done tt db;
  set_job_write_allowed = λ name allowed db. done tt db;
  parse_job_definition = λ json. none;
  parse_schedule = λ json. none;
  parse_operator = λ json. none;
}

-- A signature is the bytes behind a 7.
abbrev crypto : Crypto
crypto = record {
  utf8 = codes;
  sha256 = λ bytes. "9f86";
  canonical_json = λ p. "{}";
  verify = λ key bytes signature. some (codes_eq signature (7 ∷ bytes));
}

abbrev context : CommandContext
context = record { capabilities = observe ∷ job_run ∷ []; command_signing_public_key = "PEM" }

abbrev env : Env
env = record {
  config = record {
    require_approval_for_job_write = true;
    approval_exempt_roles = [];
    command_ttl_seconds = 900;
  };
  target = λ _. some (record {
    worker_id = "w1";
    instance_name = "SQL01";
    granted = "job.run" ∷ [];
    ceiling = some "operate";
  });
  is_online = λ w. str_eq w "w1";
  sign = λ c. 7 ∷ command_signing_bytes crypto c;
  to_number = λ v. 0;
  username = λ u. if str_eq u "u1" then some "alice" else none;
}

abbrev row : CommandRow
row = record {
  id = "c1";
  kind = CommandKind.run_job;
  instance_id = "i1";
  worker_id = "w1";
  job_uuid = some "j1";
  payload = ("jobUuid", text "j1") ∷ [];
  base_definition_hash = none;
  state = CommandState.approved;
  issued_by = "u1";
  approved_by = none;
  signature = none;
  result_code = none;
  result_detail = none;
  sql_error_number = none;
  issued_at = 1000;
  approved_at = some 1000;
  dispatched_at = none;
  completed_at = none;
  expires_at = some 901000;
}

abbrev table : Server
table = record { commands = row ∷ []; audit_log = []; outgoing = [] }

abbrev sent_command : Command
sent_command = signed_command env row "SQL01" 3000

abbrev worker : WorkerState ℕ
worker = record {
  db = 0;
  outbox = record {
    rows = [];
    next_id = 1;
    applied_commands = [];
    sync_state = [];
    max_rows = 10;
    evicted = 0;
    last_applied_command_prune_at = 0;
    depth = 0;
  };
}

abbrev started : ApplyOutcome
started = record { success = true; error_code = ""; sql_error_number = 0; resulting_job = none }

signs : (c : Command) → env.sign c ≢ []
signs c e = absurd (ground (arith, e))

verifies :
    (c : Command) → crypto.verify "PEM" (command_signing_bytes crypto c) (env.sign c) ≡ some true
verifies c = ap some ((codes_eq_iff (env.sign c) (env.sign c)).1 refl)

sent : (dispatch env "c1" 3000 table).1.outgoing ≡ ("w1", sent_command) ∷ []
unfolding dispatch dispatch_found CommandState-discrete
sent = refl

stored :
    find (by_id "c1") (dispatch env "c1" 3000 table).1.commands
    ≡ some (dispatch_row env 3000 sent_command.signature row)
unfolding dispatch dispatch_found CommandState-discrete
stored = refl

abbrev sends : Sends env "c1" 3000 table (dispatch env "c1" 3000 table).1
sends = record {
  row = row;
  target = record {
    worker_id = "w1";
    instance_name = "SQL01";
    granted = "job.run" ∷ [];
    ceiling = some "operate";
  };
  found = refl;
  located = refl;
  is_approved = refl;
  is_live = refl;
  is_online = refl;
  sent = sent;
  stored = stored;
  addressed = signed_command-addressed env row "SQL01" 3000;
}

permitted : Elem (command_capability CommandKind.run_job) context.capabilities
unfolding command_capability
permitted = inr (inl refl)

not_applied : applied_command_outcome worker.outbox sent_command.id ≡ none
unfolding applied_command_outcome find_applied
not_applied = refl

runs : apply msdb sent_command worker.db ≡ done started 1
unfolding apply apply_payload build_proto_command
runs = refl

dispatched_completes_example :
    (r : CommandResult msdb crypto context) × ((handle_command msdb crypto context sent_command 4000
        worker).0
      ≡ some r)
    × (final : CommandRow) × (find
          (of_worker "c1" "w1")
          (record_result env
            (report_of r "" "w1" "host")
            9000
            (dispatch env "c1" 3000 table).1).1.commands
        ≡ some final)
    × (final.state ≡ succeeded)
    × (final.kind ≡ CommandKind.run_job)
    × (final.completed_at ≡ some 9000)
    × ((handle_command msdb crypto context sent_command 4000 worker).1.db ≡ 1)
dispatched_completes_example =
    dispatched_completes msdb crypto context env refl signs verifies "c1" 3000 4000 9000 "" "host"
      table worker started 1 sends permitted (omega arith) (omega arith) not_applied runs
