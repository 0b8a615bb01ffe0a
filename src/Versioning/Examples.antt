-- ===== src/Versioning/Examples.antt =====
-- Instances for versioning: an empty store, a job that is seen, edited and gone.
use remote_sql_agent.Prelude.{
  ◌≡◌, refl, true, String, str_eq, Option, none, some, [], ◌∷◌, All, Elem, any,
}
use remote_sql_agent.Job.{JobDefinition}
use remote_sql_agent.Versioning.{
  JobVersionOrigin, JobRow, VersionStore, RecordVersionInput, record_job_version,
  mark_jobs_missing_from_snapshot,
}
use remote_sql_agent.Versioning.Timeline.{Inv}
use remote_sql_agent.Versioning.History.{record_job_version-Inv}
use remote_sql_agent.Versioning.Observed.{
  Repeats, SeenIfLive, record_job_version_again, mark_jobs_missing_from_snapshot_complete,
}

abbrev definition : JobDefinition
definition = record {
  name = "nightly";
  description = none;
  enabled = true;
  category_name = none;
  owner_login_name = none;
  start_step_id = 1;
  notifications = record {
    email_operator_name = none;
    email_level = 0;
    netsend_operator_name = none;
    netsend_level = 0;
    page_operator_name = none;
    page_level = 0;
    eventlog_level = 0;
    delete_level = 0;
  };
  steps = [];
  schedules = [];
  target_servers = [];
}

abbrev parse : String → Option JobDefinition
parse json = some definition

abbrev observed : String → RecordVersionInput
observed hash = record {
  instance_id = "i1";
  job_uuid = "j1";
  canonical_json = "{}";
  definition_hash = hash;
  origin = JobVersionOrigin.local;
  command_id = none;
  created_by = none;
  detected_at = 7;
}

abbrev empty : VersionStore
empty = record { jobs = []; job_versions = [] }

empty-Inv : Inv empty
empty-Inv i u = refl

abbrev seen_once : VersionStore
seen_once = (record_job_version parse "r1" (observed "h1") empty).1

record_job_version-Inv_example : Inv seen_once
record_job_version-Inv_example = record_job_version-Inv parse "r1" (observed "h1") empty empty-Inv

record_job_version_again_example : Repeats parse "r2" (observed "h1") seen_once
record_job_version_again_example =
    record_job_version_again parse "r1" "r2" (observed "h1") definition empty refl

mark_jobs_missing_from_snapshot_complete_example :
    let st' = (mark_jobs_missing_from_snapshot "i1" ("j2" ∷ []) 9 seen_once).1 in
    All (SeenIfLive "i1" ("j2" ∷ [])) st'.jobs
    × ((j : JobRow)
        → (j.instance_id ≡ "i1" → any (λ u. str_eq u j.job_uuid) ("j2" ∷ []) ≡ true)
        → Elem j seen_once.jobs
        → Elem j st'.jobs)
    × (st'.job_versions ≡ seen_once.job_versions)
    × Inv st'
mark_jobs_missing_from_snapshot_complete_example =
    mark_jobs_missing_from_snapshot_complete "i1" ("j2" ∷ []) 9 seen_once
      (record_job_version-Inv parse "r1" (observed "h1") empty empty-Inv)
