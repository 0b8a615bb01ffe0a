-- ===== src/Snapshots/Pending.antt =====
-- packages/server/src/hub/hub.ts: `handleSnapshotChunk` with `sweepAbandonedSnapshots` and `verifyBlobHash`. The map of
-- pending snapshots is a list with the keys as code points; `startedAt > now - limit` is written without a difference
-- that stops at 0. The parser, the hash and the UUID of a new row are parameters, and each call has one reading of the clock.
use remote_sql_agent.Prelude.{
  ℕ, ◌+◌, ltb, if◌then◌else◌, Bool, true, false, not, String, codes, codes_eq, Option, none, some,
  List, [], ◌∷◌, ◌++◌, map, filter, find, any, update_where,
}
use remote_sql_agent.Job.{JobDefinition}
use remote_sql_agent.Worker.Msdb.{JobDefinitionBlob}
use remote_sql_agent.Snapshots.Chunks.{Blobs, Snapshot}
use remote_sql_agent.Versioning.{
  JobVersionOrigin, VersionStore, RecordVersionInput, record_job_version,
  mark_jobs_missing_from_snapshot,
}

pub record PendingSnapshot : Type 0 where
  pub key : List ℕ
  pub instance_name : String
  pub jobs : Blobs
  pub started_at : ℕ

pub record Deps : Type 0 where
  pub parse : String → Option JobDefinition
  pub hash_canonical : String → String
  pub new_id : JobDefinitionBlob → String

pub record Hub : Type 0 where
  pub pending : List PendingSnapshot
  pub store : VersionStore

-- 10 minutes.
abbrev pub snapshot_abandon_ms : ℕ
snapshot_abandon_ms = 600000

abbrev pub is_live : ℕ → PendingSnapshot → Bool
is_live now acc = ltb now (acc.started_at + snapshot_abandon_ms)

unfoldable pub sweep_abandoned_snapshots : ℕ → List PendingSnapshot → List PendingSnapshot
sweep_abandoned_snapshots now pending = filter (is_live now) pending

-- `${instanceName}:${snapshotId}`.
unfoldable pub key_of : Snapshot → List ℕ
key_of s = codes s.instance_name ++ (b':' ∷ codes s.snapshot_id)

abbrev pub is_key : List ℕ → PendingSnapshot → Bool
is_key key acc = codes_eq acc.key key

abbrev pub put : PendingSnapshot → List PendingSnapshot → List PendingSnapshot
put acc pending =
    if any (is_key acc.key) pending
    then update_where (is_key acc.key) (λ x. acc) pending
    else pending ++ acc ∷ []

-- `pending.get(key) ?? { jobs: [], startedAt: now }`, with the jobs of the chunk added.
abbrev pub extended : Snapshot → List ℕ → ℕ → Option PendingSnapshot → PendingSnapshot
extended s key now none = record {
  key = key;
  instance_name = s.instance_name;
  jobs = s.jobs;
  started_at = now;
}
extended s key now (some acc) = record acc { jobs = acc.jobs ++ s.jobs }

pub data Outcome : Type 0 where
  waiting : Outcome
  applied : Option ℕ → Outcome

module _ (deps : Deps) where
  -- The hash is derived here, whatever the worker sent.
  unfoldable pub input_of : String → ℕ → JobDefinitionBlob → RecordVersionInput
  input_of instance_id now blob = record {
    instance_id = instance_id;
    job_uuid = blob.job_uuid;
    canonical_json = blob.canonical_json;
    definition_hash = deps.hash_canonical blob.canonical_json;
    origin = JobVersionOrigin.local;
    command_id = none;
    created_by = none;
    detected_at = now;
  }

  -- The loop over the jobs; `false` where a definition does not parse, and the exception ends the call.
  unfoldable pub record_all : String → ℕ → Blobs → VersionStore → Bool × VersionStore
  record_all instance_id now [] st = (true, st)
  record_all instance_id now (b ∷ blobs) st =
      let (result, st') =
        record_job_version deps.parse (deps.new_id b) (input_of instance_id now b) st in
      elim result [ none ↦ (false, st') | some r ↦ record_all instance_id now blobs st' ]

  -- What follows the last chunk: how many jobs were marked as deleted, or `none` after an exception.
  unfoldable pub apply_snapshot : String → ℕ → Blobs → VersionStore → Option ℕ × VersionStore
  unfolding record_all
  apply_snapshot instance_id now blobs st =
      let (recorded, st') = record_all instance_id now blobs st in
      if recorded
      then (let (removed, st'') =
            mark_jobs_missing_from_snapshot instance_id (map (λ b. b.job_uuid) blobs) now st' in
          (some removed, st''))
      else (none, st')

  unfoldable pub handle_snapshot_chunk : String → ℕ → Snapshot → Hub → Outcome × Hub
  unfolding sweep_abandoned_snapshots
  handle_snapshot_chunk instance_id now s hub =
      let live = sweep_abandoned_snapshots now hub.pending in
      let key = key_of s in
      let acc = extended s key now (find (is_key key) live) in
      let pending = put acc live in
      if s.more_chunks
      then (waiting, record hub { pending = pending })
      else (let (removed, store) = apply_snapshot instance_id now acc.jobs hub.store in
          (
            applied removed,
            record { pending = filter (λ x. not (is_key key x)) pending; store = store },
          ))
