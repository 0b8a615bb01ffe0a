-- ===== src/Versioning.antt =====
-- packages/server/src/domain/versioning.ts, and the tables `jobs` and `job_versions` of
-- packages/server/src/db/schema.ts: an observed definition becomes a version. A job's row is found by its instance and
-- uuid, which are unique; the new row's UUID is an argument. The parser of definitions is a parameter, and each
-- transaction is one step. The columns on the last and the next run, which another part writes, are left out.
pub mod Timeline
pub mod History
pub mod Observed
mod Examples
use remote_sql_agent.Prelude.{
  ℕ, suc, ◌+◌, ◌==◌, if◌then◌else◌, Bool, true, false, not, ◌&&◌, ◌||◌, String, str_eq, Option,
  none, some, or_else, is_some, List, [], ◌∷◌, ◌++◌, map, filter, find, length, any, update_where,
}
use remote_sql_agent.Job.{JobDefinition}

pub data JobVersionOrigin : Type 0 where
  initial remote local : JobVersionOrigin

pub record JobRow : Type 0 where
  pub id : String
  pub instance_id : String
  pub job_uuid : String
  pub name : String
  pub enabled : Bool
  pub category_name : Option String
  pub owner_login_name : Option String
  pub description : Option String
  pub current_version_no : ℕ
  pub current_definition_hash : Option String
  pub is_drifted : Bool
  pub drift_detected_at : Option ℕ
  pub deleted_at : Option ℕ
  pub updated_at : ℕ

pub record VersionRow : Type 0 where
  pub instance_id : String
  pub job_uuid : String
  pub version_no : ℕ
  pub definition : JobDefinition
  pub definition_hash : String
  pub origin : JobVersionOrigin
  pub command_id : Option String
  pub created_by : Option String
  pub detected_at : ℕ

pub record VersionStore : Type 0 where
  pub jobs : List JobRow
  pub job_versions : List VersionRow

pub record RecordVersionInput : Type 0 where
  pub instance_id : String
  pub job_uuid : String
  pub canonical_json : String
  pub definition_hash : String
  pub origin : JobVersionOrigin
  pub command_id : Option String
  pub created_by : Option String
  pub detected_at : ℕ

pub record RecordVersionResult : Type 0 where
  pub changed : Bool
  pub version_no : ℕ
  pub is_drift : Bool

abbrev pub is_job : String → String → JobRow → Bool
is_job instance_id job_uuid j = str_eq j.instance_id instance_id && str_eq j.job_uuid job_uuid

abbrev pub is_version_of : String → String → VersionRow → Bool
is_version_of instance_id job_uuid v =
    str_eq v.instance_id instance_id && str_eq v.job_uuid job_uuid

abbrev pub is_local : JobVersionOrigin → Bool
is_local JobVersionOrigin.local = true
is_local _ = false

-- `currentDefinitionHash === definitionHash`, where the column may be null.
abbrev pub is_hash : Option String → String → Bool
is_hash none hash = false
is_hash (some h) hash = str_eq h hash

-- The new version's row.
abbrev pub version_row : RecordVersionInput → JobDefinition → ℕ → JobVersionOrigin → VersionRow
version_row input definition version_no origin = record {
  instance_id = input.instance_id;
  job_uuid = input.job_uuid;
  version_no = version_no;
  definition = definition;
  definition_hash = input.definition_hash;
  origin = origin;
  command_id = input.command_id;
  created_by = input.created_by;
  detected_at = input.detected_at;
}

-- `jobColumns` on a row; `drift_detected_at` is kept where the version is no drift.
abbrev pub set_columns : RecordVersionInput → JobDefinition → ℕ → Bool → JobRow → JobRow
set_columns input definition version_no is_drift j = record j {
  name = definition.name;
  enabled = definition.enabled;
  category_name = definition.category_name;
  owner_login_name = definition.owner_login_name;
  description = definition.description;
  current_version_no = version_no;
  current_definition_hash = some input.definition_hash;
  is_drifted = is_drift;
  drift_detected_at = if is_drift then some input.detected_at else j.drift_detected_at;
  deleted_at = none;
  updated_at = input.detected_at;
}

-- The row that an insert starts from.
abbrev pub blank_job : String → RecordVersionInput → JobRow
blank_job id input = record {
  id = id;
  instance_id = input.instance_id;
  job_uuid = input.job_uuid;
  name = "";
  enabled = false;
  category_name = none;
  owner_login_name = none;
  description = none;
  current_version_no = 0;
  current_definition_hash = none;
  is_drifted = false;
  drift_detected_at = none;
  deleted_at = none;
  updated_at = 0;
}

abbrev pub restore : ℕ → JobRow → JobRow
restore at j = record j { deleted_at = none; updated_at = at }

-- The transaction, with the definition parsed.
unfoldable pub record_parsed :
    String → RecordVersionInput → JobDefinition → VersionStore → RecordVersionResult × VersionStore
record_parsed id input definition st =
    let this = is_job input.instance_id input.job_uuid in
    elim (find this st.jobs) [
      | none ↦ (
        record { changed = true; version_no = 1; is_drift = false },
        record {
          jobs = st.jobs ++ set_columns input definition 1 false (blank_job id input) ∷ [];
          job_versions =
              st.job_versions ++ version_row input definition 1 JobVersionOrigin.initial ∷ [];
        },
      )
      | some existing ↦
          if is_hash existing.current_definition_hash input.definition_hash
          then (
            record {
              changed = false;
              version_no = existing.current_version_no;
              is_drift = existing.is_drifted;
            },
            if is_some existing.deleted_at
                then record st { jobs = update_where this (restore input.detected_at) st.jobs }
                else st,
          )
          else (let version_no = suc existing.current_version_no in
              let is_drift = is_local input.origin in
              (
                record { changed = true; version_no = version_no; is_drift = is_drift },
                record {
                  jobs =
                      update_where this (set_columns input definition version_no is_drift) st.jobs;
                  job_versions =
                      st.job_versions ++ version_row input definition version_no input.origin ∷ [];
                },
              ))
    ]

-- `none` where the definition does not parse: the call throws before the transaction.
unfoldable pub record_job_version :
    (String → Option JobDefinition)
    → String
    → RecordVersionInput
    → VersionStore
    → Option RecordVersionResult × VersionStore
unfolding record_parsed
record_job_version parse id input st = elim (parse input.canonical_json) [
  | none ↦ (none, st)
  | some definition ↦ let (result, st') = record_parsed id input definition st in (some result, st')
]

abbrev pub delete_at : ℕ → JobRow → JobRow
delete_at at j = record j { deleted_at = some at; updated_at = at }

unfoldable pub mark_job_deleted : String → String → ℕ → VersionStore → VersionStore
mark_job_deleted instance_id job_uuid at st = record st {
  jobs = update_where (is_job instance_id job_uuid) (delete_at at) st.jobs;
}

-- The condition of `markJobsMissingFromSnapshot`: on the instance, not deleted, and not in the snapshot.
abbrev pub is_missing : String → List String → JobRow → Bool
is_missing instance_id seen j =
    str_eq j.instance_id instance_id
    && not (is_some j.deleted_at)
    && not (any (λ u. str_eq u j.job_uuid) seen)

abbrev pub delete_if_missing : String → List String → ℕ → JobRow → JobRow
delete_if_missing instance_id seen at j =
    if is_missing instance_id seen j then delete_at at j else j

unfoldable pub mark_jobs_missing_from_snapshot :
    String → List String → ℕ → VersionStore → ℕ × VersionStore
mark_jobs_missing_from_snapshot instance_id seen at st = (
  length (filter (is_missing instance_id seen) st.jobs),
  record st { jobs = map (delete_if_missing instance_id seen at) st.jobs },
)

unfoldable pub acknowledge_drift : String → String → ℕ → VersionStore → VersionStore
acknowledge_drift instance_id job_uuid at st = record st {
  jobs =
      update_where (is_job instance_id job_uuid)
        (λ j. record j { is_drifted = false; updated_at = at }) st.jobs;
}

unfoldable pub get_job_version : VersionStore → String → String → ℕ → Option VersionRow
get_job_version st instance_id job_uuid version_no =
    find (λ v. is_version_of instance_id job_uuid v && v.version_no == version_no) st.job_versions
