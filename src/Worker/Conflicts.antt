-- ===== src/Worker/Conflicts.antt =====
-- packages/worker/src/command-handler.ts: edits against a base hash.
use remote_sql_agent.Prelude.{
  ◌≡◌, refl, ◌≢◌, ◌⊎◌, inl, inr, Bool, false, String, eq_iff, Option, none, some, List, arith,
}
use remote_sql_agent.Job.{JobDefinition}
use remote_sql_agent.Signing.{Payload}
use remote_sql_agent.Worker.Msdb.{JobDefinitionBlob, ApplyOutcome, done, Msdb, is_empty, refuse}
use remote_sql_agent.Worker.Apply.{find_job, conflict_with, check_conflict, apply_payload}

-- What an edit of an existing job says: the job, the hash that the edit was made against, and the flag
-- that overwrites.
abbrev pub edit_of : Payload → Option (String × String × Bool)
edit_of (Payload.toggle_job uuid enabled base) = some (uuid, base, false)
edit_of (Payload.upsert_job uuid json base overwrite) = some (uuid, base, overwrite)
edit_of (Payload.delete_job uuid base) = some (uuid, base, false)
edit_of _ = none

module _ (m : Msdb) where
  open m use {Db}

  -- The job is gone, or its live hash is not the edit's base and the edit does not overwrite.
  abbrev pub IsStale : List JobDefinitionBlob → String → String → Bool → Type 0
  IsStale jobs uuid base overwrite =
      (find_job m uuid jobs ≡ none)
      ⊎ ((blob : JobDefinitionBlob) × (find_job m uuid jobs ≡ some blob)
          × (blob.definition_hash ≢ base)
          × (overwrite ≡ false))

  -- The definition of an upsert is valid.
  abbrev pub HasDefinition : Payload → Type 0
  HasDefinition (Payload.upsert_job uuid json base overwrite) =
      (d : JobDefinition) × (m.parse_job_definition json ≡ some d)
  HasDefinition _ = Unit

  conflict_found :
      (jobs : List JobDefinitionBlob) (uuid base : String) (overwrite : Bool)
      → IsStale jobs uuid base overwrite
      → (o : ApplyOutcome) × (conflict_with m (find_job m uuid jobs) base overwrite ≡ some o)
        × (o.success ≡ false)
        × (o.error_code ≡ "Conflict")
        × (o.resulting_job ≡ find_job m uuid jobs)
  conflict_found jobs uuid base overwrite (inl gone) =
      (refuse "Conflict", rw gone, refl, refl, rw gone)
  conflict_found jobs uuid base overwrite (inr (blob, found, differs, keeps)) = (
    record {
      success = false;
      error_code = "Conflict";
      sql_error_number = 0;
      resulting_job = some blob;
    },
    ground (arith, found, eq_iff blob.definition_hash base),
    refl,
    refl,
    rw found,
  )

  check_conflict-stale :
      (db : Db) (jobs : List JobDefinitionBlob) (uuid base : String) (overwrite : Bool)
      (o : ApplyOutcome)
      → is_empty base ≡ false
      → m.read_jobs db ≡ done jobs db
      → conflict_with m (find_job m uuid jobs) base overwrite ≡ some o
      → check_conflict m uuid base overwrite db ≡ done (some o) db
  unfolding check_conflict
  check_conflict-stale db jobs uuid base overwrite o b r e = ground arith

  -- An edit against a base hash, of a job whose live definition differs and is not to be overwritten, or of
  -- a job that is gone, is answered with a conflict that carries the live job, and msdb is as it was. The job
  -- must be named, and the definition of an upsert must be valid.
  pub stale_edit_refused :
      (p : Payload) (db : Db) (jobs : List JobDefinitionBlob) (uuid base : String)
      (overwrite : Bool)
      → edit_of p ≡ some (uuid, base, overwrite)
      → HasDefinition p
      → is_empty uuid ≡ false
      → is_empty base ≡ false
      → m.read_jobs db ≡ done jobs db
      → IsStale jobs uuid base overwrite
      → (o : ApplyOutcome) × (apply_payload m p db ≡ done o db)
        × (o.success ≡ false)
        × (o.error_code ≡ "Conflict")
        × (o.resulting_job ≡ find_job m uuid jobs)
  unfolding apply_payload
  stale_edit_refused p db jobs uuid base overwrite e d u b r s =
      let (o, found, failed, code, job) = conflict_found jobs uuid base overwrite s in
      let checked = check_conflict-stale db jobs uuid base overwrite o b r found in
      (o, refused p e d checked, failed, code, job)
    where
      refused :
          {o : ApplyOutcome} (p : Payload)
          → edit_of p ≡ some (uuid, base, overwrite)
          → HasDefinition p
          → check_conflict m uuid base overwrite db ≡ done (some o) db
          → apply_payload m p db ≡ done o db
      refused (Payload.toggle_job id enabled h) e d c = ground arith
      refused (Payload.upsert_job id json h force) e d c = ground arith
      refused (Payload.delete_job id h) e d c = ground arith
      refused _ e d c = cc
