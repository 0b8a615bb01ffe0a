-- ===== src/Commands/Examples.antt =====
-- Instances for the command service: one instance with an online worker, an edit issued by one person and approved
-- by another.
use remote_sql_agent.Prelude.{
  ℕ, sym, subst, ◌≡◌, refl, inl, true, String, Option, if◌then◌else◌, ◌⊎◌, map, false, str_eq, none,
  some, List, [], ◌∷◌, Elem, find,
}
use remote_sql_agent.Capabilities.{
  Capability-discrete, CommandKind, CommandKind-discrete, command_capability,
  effective_capabilities,
}
use remote_sql_agent.Roles.{Role}
use remote_sql_agent.Signing.{Command}
use remote_sql_agent.Commands.Rows.{
  CommandState, CommandState-discrete, CommandRow, Server, text, Fields,
}
use remote_sql_agent.Commands.Payloads.{build_proto_command}
use remote_sql_agent.Commands.Service.{
  Env, CreateCommandInput, dispatch, dispatch_found, create, effective_capabilities_for,
}
use remote_sql_agent.Commands.Lifecycle.{
  Call, creates, approves, run, step, approve, ResultReport, ReportedCommand, of_worker,
  record_result,
}
use remote_sql_agent.Commands.Approval.{Sanctioned}
use remote_sql_agent.Commands.FourEyes.{no_commands, four_eyes}
use remote_sql_agent.Commands.Delivery.{dispatch_once}
use remote_sql_agent.Commands.Results.{ResultStored, record_result-ResultStored}

abbrev env : Env
env = record {
  config = record {
    require_approval_for_job_write = true;
    approval_exempt_roles = [];
    command_ttl_seconds = 900;
  };
  target = λ _. some (record {
    worker_id = "w1";
    instance_name = "SQL01";
    granted = "job.write" ∷ [];
    ceiling = some "full";
  });
  is_online = λ w. str_eq w "w1";
  sign = λ c. 7 ∷ [];
  to_number = λ v. 0;
  username = λ u. if str_eq u "u1" then some "alice" else none;
}

abbrev payload : Fields
payload = ("jobUuid", text "j1") ∷ ("canonicalJson", text "{}") ∷ []

abbrev edit : CreateCommandInput
edit = record {
  instance_id = "i1";
  kind = CommandKind.upsert_job;
  job_uuid = some "j1";
  payload = payload;
  base_definition_hash = none;
  issued_by = "u1";
  issued_by_username = "alice";
  issued_by_role = Role.admin;
}

abbrev calls : List (ℕ × Call)
calls = (1000, creates edit "c1") ∷ (2000, approves "c1" "u2" "bob") ∷ []

abbrev command : Command
command = record (build_proto_command (λ v. 0) "c1" CommandKind.upsert_job "SQL01" payload 2000) {
  signature = 7 ∷ [];
}

command-sent : (run env calls no_commands).outgoing ≡ ("w1", command) ∷ []
unfolding run step create approve dispatch dispatch_found Capability-discrete CommandKind-discrete
    CommandState-discrete effective_capabilities_for effective_capabilities command_capability
command-sent = refl

four_eyes_example :
    (r : CommandRow) × Elem r (run env calls no_commands).commands
    × (r.id ≡ command.id)
    × Sanctioned env calls r
four_eyes_example =
    four_eyes env calls "w1" command (subst (Elem ("w1", command)) (sym command-sent) (inl refl))

-- The row of the edit in a state, and a table of that row alone.
abbrev row : CommandState → CommandRow
row state = record {
  id = "c1";
  kind = CommandKind.upsert_job;
  instance_id = "i1";
  worker_id = "w1";
  job_uuid = some "j1";
  payload = payload;
  base_definition_hash = none;
  state = state;
  issued_by = "u1";
  approved_by = some "u2";
  signature = none;
  result_code = none;
  result_detail = none;
  sql_error_number = none;
  issued_at = 1000;
  approved_at = some 2000;
  dispatched_at = none;
  completed_at = none;
  expires_at = some 901000;
}

abbrev table : CommandState → Server
table state = record { commands = row state ∷ []; audit_log = []; outgoing = [] }

sends : (dispatch env "c1" 3000 (table CommandState.approved)).0 ≡ true
unfolding dispatch dispatch_found CommandState-discrete
sends = refl

dispatch_once_example :
    dispatch env "c1" 4000 (dispatch env "c1" 3000 (table CommandState.approved)).1
    ≡ (false, (dispatch env "c1" 3000 (table CommandState.approved)).1)
dispatch_once_example = dispatch_once env "c1" 3000 4000 (table CommandState.approved) sends

abbrev report : ResultReport
report = record {
  command_id = "c1";
  worker_id = "w1";
  success = true;
  error_code = "";
  error_detail = "";
  sql_error_number = 0;
  host_name = "host";
}

abbrev after_report : Option ReportedCommand × Server
after_report = record_result env report 5000 (table CommandState.rejected)

-- A row that was rejected reads succeeded after the report, and its issuer is named.
after_report-row : map (λ r. r.state) after_report.1.commands ≡ CommandState.succeeded ∷ []
unfolding record_result
after_report-row = refl

after_report-answer :
    after_report.0
    ≡ some (record {
      kind = CommandKind.upsert_job;
      instance_id = "i1";
      job_uuid = some "j1";
      issued_by_username = some "alice";
    })
unfolding record_result
after_report-answer = refl

record_result-ResultStored_example :
    let (answer, st') = record_result env report 5000 (table CommandState.rejected) in
    (((find (of_worker "c1" "w1") (row CommandState.rejected ∷ []) ≡ none)
        × (answer ≡ none)
        × (st' ≡ table CommandState.rejected))
      ⊎ ((before after : CommandRow) × (command : ReportedCommand) × (find
              (of_worker "c1" "w1")
              (row CommandState.rejected ∷ [])
            ≡ some before)
          × (find (of_worker "c1" "w1") st'.commands ≡ some after)
          × ResultStored report 5000 before after
          × (answer ≡ some command)
          × (command.kind ≡ before.kind)
          × (command.instance_id ≡ before.instance_id)
          × (command.job_uuid ≡ before.job_uuid)))
    × ((id worker : String)
        → ((id ≡ "c1") × (worker ≡ "w1"))
          ⊎ (find (of_worker id worker) st'.commands
              ≡ find (of_worker id worker) (row CommandState.rejected ∷ [])))
    × (st'.outgoing ≡ [])
record_result-ResultStored_example =
    record_result-ResultStored env report 5000 (table CommandState.rejected)
