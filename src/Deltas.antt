-- ===== src/Deltas.antt =====
-- packages/server/src/hub/hub.ts: the case `definition` of the messages of a worker. The map from the names of instances to
-- their ids is a function, the events for the dashboard are left out, and each message has one reading of the clock.
pub mod Attributed
mod Examples
use remote_sql_agent.Prelude.{
  ℕ, if◌then◌else◌, Bool, true, false, String, str_eq, text_or_null, Option, none, some,
}
use remote_sql_agent.Worker.Msdb.{JobDefinitionBlob}
use remote_sql_agent.Monitor.Emit.{JobDefinitionDelta}
use remote_sql_agent.Versioning.{
  JobVersionOrigin, VersionStore, RecordVersionInput, RecordVersionResult, record_job_version,
  mark_job_deleted,
}
use remote_sql_agent.Snapshots.Pending.{Deps}

-- How the message ends: not for an instance of the worker, a job marked as deleted, a definition recorded, or an exception.
pub data DeltaOutcome : Type 0 where
  ignored deleted threw : DeltaOutcome
  recorded : RecordVersionResult → DeltaOutcome

abbrev pub recorded_of : Option RecordVersionResult → DeltaOutcome
recorded_of none = threw
recorded_of (some r) = recorded r

abbrev pub delta_origin : String → JobVersionOrigin
delta_origin command_id =
    if str_eq command_id "" then JobVersionOrigin.local else JobVersionOrigin.remote

module _ (deps : Deps) where
  -- The hash is derived here, whatever the worker sent.
  abbrev pub delta_input : String → ℕ → JobDefinitionBlob → String → RecordVersionInput
  delta_input instance_id now job command_id = record {
    instance_id = instance_id;
    job_uuid = job.job_uuid;
    canonical_json = job.canonical_json;
    definition_hash = deps.hash_canonical job.canonical_json;
    origin = delta_origin command_id;
    command_id = text_or_null command_id;
    created_by = none;
    detected_at = now;
  }

  abbrev pub record_delta :
      String
      → ℕ
      → JobDefinitionBlob
      → JobDefinitionDelta
      → VersionStore
      → DeltaOutcome × VersionStore
  record_delta instance_id now job delta st =
      if delta.deleted
      then (deleted, mark_job_deleted instance_id job.job_uuid now st)
      else (let (result, st') =
            record_job_version deps.parse (deps.new_id job)
              (delta_input instance_id now job delta.applied_command_id) st in
          (recorded_of result, st'))

  unfoldable pub handle_definition :
      (String → Option String) → ℕ → JobDefinitionDelta → VersionStore → DeltaOutcome × VersionStore
  handle_definition instance_ids now delta st = elim (instance_ids delta.instance_name) [
    | none ↦ (ignored, st)
    | some instance_id ↦ elim delta.job [
      | none ↦ (ignored, st)
      | some job ↦ record_delta instance_id now job delta st
    ]
  ]
