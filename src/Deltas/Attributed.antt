-- ===== src/Deltas/Attributed.antt =====
-- A change that a command made, from the worker that applied it (`noteAppliedCommand` and `pollDefinitions` of
-- packages/worker/src/instance-monitor.ts) to the version that the server records of it.
use remote_sql_agent.Prelude.{
  ℕ, suc, ◌≡◌, ◌≢◌, refl, sym, ap, subst, ◌∙◌, inl, inr, Bool-cases, true, false, String, str_eq,
  eq_iff, Option, Option-cases, none, some, or_else, [], ◌∷◌, ◌++◌, find, find-concat,
  find-update_where, arith,
}
use remote_sql_agent.Job.{JobDefinition}
use remote_sql_agent.Worker.Msdb.{JobDefinitionBlob}
use remote_sql_agent.PendingAttribution.{PendingAttributionMap, get, set}
use remote_sql_agent.PendingAttribution.Live.{AreDistinct, get-set}
use remote_sql_agent.Versioning.{
  JobRow, VersionStore, RecordVersionInput, RecordVersionResult, is_local, is_job, is_hash,
  set_columns, blank_job, record_parsed, record_job_version,
}
use remote_sql_agent.Versioning.Timeline.{same_text}
use remote_sql_agent.Versioning.Observed.{record_parsed-Stored}
use remote_sql_agent.Monitor.Emit.{JobDefinitionDelta}
use remote_sql_agent.Monitor.Definitions.{attributed_delta}
use remote_sql_agent.Snapshots.Pending.{Deps}
use remote_sql_agent.Deltas.{DeltaOutcome, recorded, delta_input, handle_definition}

-- The answer and the row say that a change is no drift.
abbrev pub IsNoDrift : RecordVersionInput → RecordVersionResult → VersionStore → Type 0
IsNoDrift input r st =
    (r.is_drift ≡ false)
    × ((j : JobRow)
        → find (is_job input.instance_id input.job_uuid) st.jobs ≡ some j
        → j.is_drifted ≡ false)

same-row : (o : Option JobRow) (j k : JobRow) → o ≡ some j → o ≡ some k → k ≡ j
same-row o j k e f = cc

record_parsed-IsNoDrift :
    (id : String) (input : RecordVersionInput) (d : JobDefinition) (st : VersionStore)
    → is_local input.origin ≡ false
    → let (r, st') = record_parsed id input d st in r.changed ≡ true → IsNoDrift input r st'
unfolding record_parsed
record_parsed-IsNoDrift id input d st remote =
    let this = is_job input.instance_id input.job_uuid in
    elim (Option-cases (find this st.jobs)) [
      | inl e ↦
          let j = set_columns input d 1 false (blank_job id input) in
          let mine : this j ≡ true = rw (same_text input.instance_id, same_text input.job_uuid) in
          let found : find this (st.jobs ++ j ∷ []) ≡ some j =
            rw (find-concat this st.jobs j, e, mine) in
          rw (e, record_parsed)
            (λ c. (refl, λ k f. ap (λ x. x.is_drifted) (same-row _ j k found f)))
      | inr (j, e) ↦ elim (Bool-cases (is_hash j.current_definition_hash input.definition_hash)) [
        | inl same ↦ rw (e, same, record_parsed) (λ c. absurd (cc))
        | inr moved ↦
            let change = set_columns input d (suc j.current_version_no) (is_local input.origin) in
            let found = find-update_where this change st.jobs j (λ x. refl) e in
            rw (e, moved, record_parsed)
              (λ c.
                (remote, λ k f. ap (λ x. x.is_drifted) (same-row _ (change j) k found f) ∙ remote))
      ]
    ]

-- The job of a delta as the server then holds it: live, with the hash of what the worker read.
abbrev pub Held : Deps → String → JobDefinitionBlob → VersionStore → Type 0
Held deps instance_id b st =
    (j : JobRow) × (find (is_job instance_id b.job_uuid) st.jobs ≡ some j)
    × (j.current_definition_hash ≡ some (deps.hash_canonical b.canonical_json))
    × (j.deleted_at ≡ none)

abbrev pub Recorded :
    Deps → String → ℕ → JobDefinitionBlob → String → DeltaOutcome × VersionStore → Type 0
Recorded deps instance_id now b command_id (h, st') =
    (r : RecordVersionResult) × (h ≡ recorded r)
    × Held deps instance_id b st'
    × (r.changed ≡ true → IsNoDrift (delta_input deps instance_id now b command_id) r st')

handle_definition-Recorded :
    (deps : Deps) (instance_ids : String → Option String) (instance_id : String) (now : ℕ)
    (name : String) (b : JobDefinitionBlob) (command_id : String) (d : JobDefinition)
    (st : VersionStore)
    → instance_ids name ≡ some instance_id
    → command_id ≢ ""
    → deps.parse b.canonical_json ≡ some d
    → let delta : JobDefinitionDelta = record {
      instance_name = name;
      job = some b;
      deleted = false;
      applied_command_id = command_id;
    } in
      Recorded deps instance_id now b command_id (handle_definition deps instance_ids now delta st)
unfolding handle_definition record_job_version
handle_definition-Recorded deps instance_ids instance_id now name b command_id d st known named p =
    let input = delta_input deps instance_id now b command_id in
    let other : str_eq command_id "" ≡ false = ground (arith, named, eq_iff command_id "") in
    let remote : is_local input.origin ≡ false = rw (other) refl in
    let (r, st') = record_parsed (deps.new_id b) input d st in
    rw (known, p, handle_definition, record_job_version)
      (
        r,
        refl,
        record_parsed-Stored (deps.new_id b) input d st,
        record_parsed-IsNoDrift (deps.new_id b) input d st remote,
      )

-- An operator's own edit does not come back as drift: where the worker noted a command with an id that is not empty for a
-- job, in a map with one entry to a job, the delta that it then sends for the job, of an instance that it declared and with a definition that parses, is
-- recorded; the job's row is live with the hash of what was read; and if that is a new version, it counts as no drift, in
-- the answer and in the row.
pub own_edit_not_drift :
    (deps : Deps) (instance_ids : String → Option String) (instance_id : String) (noted now : ℕ)
    (pending : PendingAttributionMap) (name : String) (b : JobDefinitionBlob) (command_id : String)
    (d : JobDefinition) (st : VersionStore)
    → AreDistinct pending.entries
    → instance_ids name ≡ some instance_id
    → command_id ≢ ""
    → deps.parse b.canonical_json ≡ some d
    → Recorded deps instance_id now b command_id (
        handle_definition deps instance_ids now
          (attributed_delta name (set b.job_uuid command_id noted pending) b)
          st)
own_edit_not_drift deps instance_ids instance_id noted now pending name b command_id d st distinct
      known named p =
    let here : get b.job_uuid (set b.job_uuid command_id noted pending) ≡ some command_id =
      get-set b.job_uuid command_id b.job_uuid noted pending distinct
      ∙ ground (arith, eq_iff b.job_uuid b.job_uuid) in
    subst
      (λ c. Recorded deps instance_id now b command_id (
        handle_definition deps instance_ids now
          (record {
            instance_name = name;
            job = some b;
            deleted = false;
            applied_command_id = or_else c "";
          })
          st))
      (sym here)
      (handle_definition-Recorded deps instance_ids instance_id now name b command_id d st known
        named p)
