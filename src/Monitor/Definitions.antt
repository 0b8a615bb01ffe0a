-- ===== src/Monitor/Definitions.antt =====
-- packages/worker/src/instance-monitor.ts: `pollDefinitions` and `sendSnapshot` of one connected instance. What the
-- reads of msdb answer during a call, the jobs canonicalised and hashed, is an argument, as is its reading of the clock.
use remote_sql_agent.Prelude.{
  ℕ, ◌==◌, if◌then◌else◌, Bool, true, false, not, ◌&&◌, String, str_eq, Option, none, some, or_else,
  List, [], ◌∷◌, map, filter, any,
}
use remote_sql_agent.Outbox.Hashes.{HashEntry, get_hash, set_hash, set_definition_hashes}
use remote_sql_agent.PendingAttribution.{PendingAttributionMap, get, delete}
use remote_sql_agent.Worker.Msdb.{JobDefinitionBlob}
use remote_sql_agent.Snapshots.Chunks.{Blobs, snapshot_messages}
use remote_sql_agent.Monitor.Emit.{
  JobDefinitionDelta, WorkerMessage, definition, snapshot, Call, Shared, emit, emit_all,
}

pub record JobsFingerprint : Type 0 where
  pub job_count : ℕ
  pub max_date_modified : Option ℕ

pub record Monitor : Type 0 where
  pub instance_name : String
  pub definition_hashes : List HashEntry
  pub last_fingerprint : Option JobsFingerprint
  pub pending_attribution : PendingAttributionMap

-- The reads of one poll: those of the poll itself, and those of the snapshot that it may send.
pub record Reads : Type 0 where
  pub fingerprint : JobsFingerprint
  pub jobs : Blobs
  pub snapshot_id : String
  pub snapshot_jobs : Blobs
  pub snapshot_fingerprint : JobsFingerprint

unfoldable pub same_time : Option ℕ → Option ℕ → Bool
same_time none none = true
same_time none (some b) = false
same_time (some a) none = false
same_time (some a) (some b) = a == b

abbrev pub is_unchanged : Option JobsFingerprint → JobsFingerprint → Bool
is_unchanged none now = false
is_unchanged (some last) now =
    last.job_count == now.job_count && same_time last.max_date_modified now.max_date_modified

-- `#definitionHashes.get(jobUuid) === definitionHash`.
abbrev pub is_hash : Option String → JobDefinitionBlob → Bool
is_hash none blob = false
is_hash (some h) blob = str_eq h blob.definition_hash

abbrev pub is_known : List HashEntry → JobDefinitionBlob → Bool
is_known hashes blob = is_hash (get_hash hashes blob.job_uuid) blob

abbrev pub attributed_delta :
    String → PendingAttributionMap → JobDefinitionBlob → JobDefinitionDelta
attributed_delta name pending blob = record {
  instance_name = name;
  job = some blob;
  deleted = false;
  applied_command_id = or_else (get blob.job_uuid pending) "";
}

unfoldable pub delta_of : String → PendingAttributionMap → JobDefinitionBlob → WorkerMessage
delta_of name pending blob = definition (attributed_delta name pending blob)

abbrev pub told : JobDefinitionBlob → Monitor → Monitor
told blob m = record m {
  pending_attribution = delete blob.job_uuid m.pending_attribution;
  definition_hashes = set_hash blob.job_uuid blob.definition_hash m.definition_hashes;
}

-- The entries of `new Map(blobs.map(...))`.
unfoldable pub hashes_of_all : Blobs → List HashEntry → List HashEntry
hashes_of_all [] hashes = hashes
hashes_of_all (b ∷ blobs) hashes =
    hashes_of_all blobs (set_hash b.job_uuid b.definition_hash hashes)

-- The keys of the cache that the poll did not see.
unfoldable pub vanished : List HashEntry → Blobs → List HashEntry
vanished hashes blobs = filter (λ e. not (any (λ b. str_eq b.job_uuid e.job_uuid) blobs)) hashes

module _ (takes : List Call → WorkerMessage → Bool) (stringify : WorkerMessage → String)
    (to_json : List HashEntry → String) (of_json : String → Option (List HashEntry)) where
  -- The loop over the jobs.
  unfoldable pub tell_changes : ℕ → Blobs → Monitor → Shared → Monitor × Shared
  unfolding delta_of
  tell_changes now [] m w = (m, w)
  tell_changes now (b ∷ blobs) m w = elim (is_known m.definition_hashes b) [
    | true ↦ tell_changes now blobs m w
    | false ↦
        let (accepted, w') =
          emit takes stringify now (delta_of m.instance_name m.pending_attribution b) w in
        tell_changes now blobs (if accepted then told b m else m) w'
  ]

  abbrev pub stored : Monitor → Shared → Shared
  stored m w = record w {
    outbox = set_definition_hashes to_json of_json w.outbox m.instance_name m.definition_hashes;
  }

  unfoldable pub send_snapshot : ℕ → Reads → Monitor → Shared → Monitor × Shared
  unfolding hashes_of_all
  send_snapshot now reads m w =
      let m' : Monitor = record m {
        definition_hashes = hashes_of_all reads.snapshot_jobs [];
        last_fingerprint = some reads.snapshot_fingerprint;
      } in
      (
        m',
        emit_all takes stringify now
            (map snapshot (snapshot_messages reads.snapshot_id m.instance_name reads.snapshot_jobs))
            (stored m' w),
      )

  unfoldable pub poll_definitions : ℕ → Reads → Monitor → Shared → Monitor × Shared
  unfolding tell_changes vanished send_snapshot
  poll_definitions now reads m w =
      if is_unchanged m.last_fingerprint reads.fingerprint
      then (m, w)
      else (let (m', w') = tell_changes now reads.jobs m w in
          elim (vanished m'.definition_hashes reads.jobs) [
            | _ ∷ _ ↦ send_snapshot now reads m' w'
            | [] ↦
                let m'' : Monitor = record m' { last_fingerprint = some reads.fingerprint } in
                (m'', stored m'' w')
          ])
