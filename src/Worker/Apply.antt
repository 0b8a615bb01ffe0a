-- ===== src/Worker/Apply.antt =====
-- packages/worker/src/command-handler.ts: `apply`, the conflict check and the reading of the live job.
use remote_sql_agent.Prelude.{
  if◌then◌else◌, Bool, false, String, str_eq, codes, codes_eq, lower, Option, none, some, List, map,
  find,
}
use remote_sql_agent.Job.{JobDefinition}
use remote_sql_agent.Signing.{Command, Payload}
use remote_sql_agent.Worker.Msdb.{
  JobDefinitionBlob, ApplyOutcome, Run, done, sql_failed, threw, ◌>>=◌, ◌>>◌, pure, Msdb,
  ok_outcome, refuse, is_empty, non_empty,
}

module _ (m : Msdb) where
  open m use {Db}

  abbrev pub find_job : String → List JobDefinitionBlob → Option JobDefinitionBlob
  find_job job_uuid = find (λ j. codes_eq (codes j.job_uuid) (map lower (codes job_uuid)))

  unfoldable pub read_job_blob : String → Db → Run Db (Option JobDefinitionBlob)
  unfolding lower
  read_job_blob job_uuid = do jobs ← m.read_jobs; pure (find_job job_uuid jobs)

  -- What the live state says against an edit of base `base_hash`: `none` lets it through.
  abbrev pub conflict_with : Option JobDefinitionBlob → String → Bool → Option ApplyOutcome
  conflict_with none base_hash allow_overwrite = some (refuse "Conflict")
  conflict_with (some blob) base_hash allow_overwrite =
      if allow_overwrite
      then none
      else (if str_eq blob.definition_hash base_hash
          then none
          else some (record {
            success = false;
            error_code = "Conflict";
            sql_error_number = 0;
            resulting_job = some blob;
          }))

  unfoldable pub check_conflict : String → String → Bool → Db → Run Db (Option ApplyOutcome)
  unfolding read_job_blob
  check_conflict job_uuid base_hash allow_overwrite =
      if is_empty base_hash
      then pure none
      else do blob ← read_job_blob job_uuid; pure (conflict_with blob base_hash allow_overwrite)

  -- `if (conflict) return conflict;` before the rest of a case.
  abbrev pub unless : Option ApplyOutcome → (Db → Run Db ApplyOutcome) → Db → Run Db ApplyOutcome
  unless (some conflict) k = pure conflict
  unless none k = k

  -- The `try` of the last case: a `SqlApplyError` becomes an outcome.
  abbrev pub catch_sql : (Db → Run Db ApplyOutcome) → Db → Run Db ApplyOutcome
  catch_sql k db = elim (k db) [
    | done a db' ↦ done a db'
    | sql_failed n db' ↦
        done
          (record {
            success = false;
            error_code = "SqlError";
            sql_error_number = n;
            resulting_job = none;
          })
          db'
    | threw db' ↦ threw db'
  ]

  abbrev pub upsert_parsed :
      Option JobDefinition → String → String → Bool → Db → Run Db ApplyOutcome
  upsert_parsed none job_uuid base_hash allow_overwrite = pure (refuse "Invalid")
  upsert_parsed (some definition) job_uuid base_hash allow_overwrite = do
    conflict ←
        if is_empty job_uuid then pure none else check_conflict job_uuid base_hash allow_overwrite
    unless conflict (do
      uuid ← m.upsert_job job_uuid definition
      blob ← read_job_blob uuid
      pure (ok_outcome blob))

  abbrev pub when_parsed :
      {A : Type 0} → Option A → (A → Db → Run Db (Unit {0})) → Db → Run Db ApplyOutcome
  when_parsed none write = pure (refuse "Invalid")
  when_parsed (some a) write = do write a; pure (ok_outcome none)

  unfoldable pub apply_payload : Payload → Db → Run Db ApplyOutcome
  unfolding check_conflict read_job_blob
  apply_payload (Payload.toggle_job job_uuid enabled base_hash) = do
    conflict ← check_conflict job_uuid base_hash false
    unless conflict
        (do m.toggle_job job_uuid enabled; blob ← read_job_blob job_uuid; pure (ok_outcome blob))
  apply_payload (Payload.run_job job_uuid step_name) = do
    m.start_job job_uuid (non_empty step_name)
    pure (ok_outcome none)
  apply_payload (Payload.stop_job job_uuid) = do m.stop_job job_uuid; pure (ok_outcome none)
  apply_payload (Payload.upsert_job job_uuid canonical_json base_hash allow_overwrite) =
      upsert_parsed (m.parse_job_definition canonical_json) job_uuid base_hash allow_overwrite
  apply_payload (Payload.delete_job job_uuid base_hash) = do
    conflict ← check_conflict job_uuid base_hash false
    unless conflict (do m.delete_job job_uuid; pure (ok_outcome none))
  apply_payload (Payload.upsert_schedule schedule_name canonical_json base_hash) =
      when_parsed (m.parse_schedule canonical_json) m.upsert_schedule
  apply_payload (Payload.delete_schedule schedule_name base_hash) = do
    m.delete_schedule schedule_name
    pure (ok_outcome none)
  apply_payload (Payload.upsert_operator operator_id canonical_json base_hash) =
      when_parsed (m.parse_operator canonical_json) m.upsert_operator
  apply_payload (Payload.delete_operator operator_id base_hash) = pure (refuse "Unsupported")
  apply_payload (Payload.set_job_write_allowed job_uuid job_name allowed) =
      catch_sql (do m.set_job_write_allowed job_name allowed; pure (ok_outcome none))

  unfoldable pub apply : Command → Db → Run Db ApplyOutcome
  unfolding apply_payload
  apply c = elim c.payload [ none ↦ pure (refuse "Invalid") | some p ↦ apply_payload p ]
