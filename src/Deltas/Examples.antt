-- ===== src/Deltas/Examples.antt =====
-- Instances for the deltas: an edit that a command made to a job that the server knows, and the same without a command.
use remote_sql_agent.Prelude.{
  ◌≡◌, ◌≢◌, refl, true, false, String, eq_iff, Option, none, some, [], ◌∷◌, map, arith,
}
use remote_sql_agent.Job.{JobDefinition}
use remote_sql_agent.Worker.Msdb.{JobDefinitionBlob}
use remote_sql_agent.PendingAttribution.{PendingAttributionMap, set, get, sweep}
use remote_sql_agent.Versioning.{VersionStore, record_job_version}
use remote_sql_agent.Monitor.Emit.{JobDefinitionDelta}
use remote_sql_agent.Monitor.Definitions.{attributed_delta}
use remote_sql_agent.Snapshots.Pending.{Deps}
use remote_sql_agent.Deltas.{handle_definition}
use remote_sql_agent.Deltas.Attributed.{Recorded, own_edit_not_drift}

abbrev definition : JobDefinition
definition = record {
  name = "nightly";
  description = none;
  enabled = true;
  category_name = none;
  owner_login_name = none;
  start_step_id = 1;
  notifications = record {
    email_operator_name = none;
    email_level = 0;
    netsend_operator_name = none;
    netsend_level = 0;
    page_operator_name = none;
    page_level = 0;
    eventlog_level = 0;
    delete_level = 0;
  };
  steps = [];
  schedules = [];
  target_servers = [];
}

abbrev deps : Deps
deps = record { parse = λ s. some definition; hash_canonical = λ s. s; new_id = λ b. b.job_uuid }

abbrev blob : String → JobDefinitionBlob
blob json = record {
  job_uuid = "j1";
  canonical_json = json;
  definition_hash = "h";
  date_modified = 0;
}

abbrev ids : String → Option String
ids name = some "i1"

abbrev unattributed : String → JobDefinitionDelta
unattributed json = record {
  instance_name = "prod";
  job = some (blob json);
  deleted = false;
  applied_command_id = "";
}

abbrev known : VersionStore
known =
    (handle_definition deps ids 1 (unattributed "{}") (record { jobs = []; job_versions = [] })).1

abbrev pending : PendingAttributionMap
pending = record { entries = []; ttl_ms = 600000 }

named : ◌≢◌ {A = String} "c1" ""
named e = absurd (ground (arith, eq_iff "c1" "", e))

own_edit_not_drift_example : Recorded deps "i1" 9 (blob "{v2}") "c1" (
    handle_definition deps ids 9
      (attributed_delta "prod" (set "j1" "c1" 5 pending) (blob "{v2}"))
      known)
own_edit_not_drift_example =
    own_edit_not_drift deps ids "i1" 5 9 pending "prod" (blob "{v2}") "c1" definition known tt refl
      named refl

-- The same edit without a command is drift.
drifted :
    map (λ j. j.is_drifted) (handle_definition deps ids 9 (unattributed "{v2}") known).1.jobs
    ≡ true ∷ []
unfolding handle_definition record_job_version
drifted = refl

attributed :
    map
      (λ j. j.is_drifted)
      (handle_definition deps ids 9
        (attributed_delta "prod" (set "j1" "c1" 5 pending) (blob "{v2}"))
        known).1.jobs
    ≡ false ∷ []
unfolding handle_definition record_job_version set get sweep
attributed = refl
