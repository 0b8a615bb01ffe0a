-- ===== src/Worker/Examples.antt =====
-- Instances for the command handler, with a server of one job.
use remote_sql_agent.Prelude.{
  ap, length, lower, eq_iff, ◌≡◌, refl, ◌≢◌, inr, true, false, str_eq, none, some, List, [], ◌∷◌,
  codes, arith, filter, not,
}
use remote_sql_agent.Capabilities.{read_only, effective_capabilities, job_write, observe}
use remote_sql_agent.Outbox.{applied_command_outcome, find_applied}
use remote_sql_agent.Signing.{
  command_kind, is_command_fresh, verify_command_signature, Command, Payload, Crypto,
}
use remote_sql_agent.Worker.Msdb.{JobDefinitionBlob, ApplyOutcome, done, sql_failed, Msdb}
use remote_sql_agent.Worker.Apply.{find_job, apply_payload, apply}
use remote_sql_agent.Worker.Handler.{CommandContext, WorkerState, evaluate_and_apply}
use remote_sql_agent.Worker.Gates.{Cleared, evaluate_and_apply-Cleared}
use remote_sql_agent.Worker.Conflicts.{stale_edit_refused}

abbrev Jobs : Type 0
Jobs = List JobDefinitionBlob

abbrev msdb : Msdb
msdb = record {
  Db = Jobs;
  Operator = Unit;
  read_jobs = λ db. done db db;
  toggle_job = λ uuid enabled db. done tt db;
  start_job = λ uuid step db. done tt db;
  stop_job = λ uuid db. done tt db;
  upsert_job = λ uuid definition db. done uuid db;
  delete_job = λ uuid db. done tt (filter (λ j. not (str_eq j.job_uuid uuid)) db);
  upsert_schedule = λ schedule db. done tt db;
  delete_schedule = λ name db. done tt db;
  upsert_operator = λ operator db. done tt db;
  set_job_write_allowed = λ name allowed db. sql_failed 229 db;
  parse_job_definition = λ json. none;
  parse_schedule = λ json. none;
  parse_operator = λ json. none;
}

abbrev crypto : Crypto
crypto = record {
  utf8 = codes;
  sha256 = λ bytes. "9f86";
  canonical_json = λ p. "{}";
  verify = λ _ _ _. some true;
}

abbrev nightly : JobDefinitionBlob
nightly = record {
  job_uuid = "j1";
  canonical_json = "{}";
  definition_hash = "h2";
  date_modified = 0;
}

abbrev context : CommandContext
context = record { capabilities = observe ∷ job_write ∷ []; command_signing_public_key = "PEM" }

abbrev delete_nightly : Command
delete_nightly = record {
  id = "c1";
  issued_at = some (record { seconds = 100; nanos = 0 });
  instance_name = "SQL01";
  signature = 1 ∷ [];
  payload = some (Payload.delete_job "j1" "h2");
}

abbrev before : WorkerState Jobs
before = record {
  db = nightly ∷ [];
  outbox = record {
    rows = [];
    next_id = 1;
    applied_commands = [];
    sync_state = [];
    max_rows = 10;
    evicted = 0;
    last_applied_command_prune_at = 0;
    depth = 0;
  };
}

abbrev after : WorkerState Jobs
after = (evaluate_and_apply msdb crypto context delete_nightly 100500 before).1

-- The deletion takes the job out of msdb.
delete_nightly-applied : length after.db ≡ 0
unfolding evaluate_and_apply verify_command_signature is_command_fresh command_kind
    applied_command_outcome find_applied apply lower
delete_nightly-applied = refl

delete_nightly-changes : after ≢ before
delete_nightly-changes e =
    absurd (omega (arith, delete_nightly-applied, ap (λ (st : WorkerState Jobs). length st.db) e))

evaluate_and_apply-Cleared_example :
    Cleared crypto context delete_nightly 100500
    × (applied_command_outcome before.outbox "c1" ≡ none)
evaluate_and_apply-Cleared_example =
    evaluate_and_apply-Cleared msdb crypto context delete_nightly 100500 before
      delete_nightly-changes

abbrev read_only_context : CommandContext
read_only_context = record context {
  capabilities = effective_capabilities ("job.write" ∷ []) read_only;
}

abbrev deleted : ApplyOutcome
deleted = record { success = true; error_code = ""; sql_error_number = 0; resulting_job = none }

nightly-found : find_job msdb "j1" (nightly ∷ []) ≡ some nightly
unfolding lower
nightly-found = refl

hash-differs : nightly.definition_hash ≢ "h1"
hash-differs e = absurd (ground (arith, eq_iff "h2" "h1", e))

stale_edit_refused_example :
    (o : ApplyOutcome) × (apply_payload msdb (Payload.delete_job "j1" "h1") (nightly ∷ [])
      ≡ done o (nightly ∷ []))
    × (o.success ≡ false)
    × (o.error_code ≡ "Conflict")
    × (o.resulting_job ≡ find_job msdb "j1" (nightly ∷ []))
stale_edit_refused_example =
    stale_edit_refused msdb (Payload.delete_job "j1" "h1") (nightly ∷ []) (nightly ∷ []) "j1" "h1"
      false refl tt refl refl refl (inr (nightly, nightly-found, hash-differs, refl))
