-- ===== src/Snapshots/Examples.antt =====
-- Instances for the snapshots: an estate of 26 jobs, and a snapshot whose chunks come ten minutes apart.
use remote_sql_agent.Prelude.{
  ℕ, zero, suc, ◌+◌, ◌-◌, ◌*◌, min, ◌≡◌, ◌≢◌, eq_iff, refl, true, false, String, none, some,
  is_some, List, [], ◌∷◌, ◌++◌, map, length, drop, arith,
}
use remote_sql_agent.Job.{JobDefinition}
use remote_sql_agent.Worker.Msdb.{JobDefinitionBlob}
use remote_sql_agent.Versioning.{record_job_version, mark_jobs_missing_from_snapshot}
use remote_sql_agent.Snapshots.Chunks.{
  Blobs, Snapshot, chunks, slices, to_messages, snapshot_messages,
}
use remote_sql_agent.Snapshots.Pending.{
  Deps, Hub, applied, sweep_abandoned_snapshots, key_of, input_of, record_all, apply_snapshot,
  handle_snapshot_chunk,
}
use remote_sql_agent.Snapshots.Mirrored.{HoldsExactly}
use remote_sql_agent.Snapshots.EndToEnd.{snapshot_mirrored}
use remote_sql_agent.Snapshots.Reassembled.{waits, deliver, snapshot_applied_once}

abbrev definition : JobDefinition
definition = record {
  name = "nightly";
  description = none;
  enabled = true;
  category_name = none;
  owner_login_name = none;
  start_step_id = 1;
  notifications = record {
    email_operator_name = none;
    email_level = 0;
    netsend_operator_name = none;
    netsend_level = 0;
    page_operator_name = none;
    page_level = 0;
    eventlog_level = 0;
    delete_level = 0;
  };
  steps = [];
  schedules = [];
  target_servers = [];
}

abbrev deps : Deps
deps = record { parse = λ s. some definition; hash_canonical = λ s. s; new_id = λ b. b.job_uuid }

abbrev blob : String → JobDefinitionBlob
blob u = record { job_uuid = u; canonical_json = "{}"; definition_hash = "h"; date_modified = 0 }

abbrev hub : Hub
hub = record { pending = []; store = record { jobs = []; job_versions = [] } }

abbrev estate : ℕ → Blobs
estate zero = blob "last" ∷ []
estate (suc n) = blob "job" ∷ estate n

abbrev clock : ℕ → ℕ
clock n = 7 + min n 100

two_chunks : map length (chunks (estate 25)) ≡ 25 ∷ 1 ∷ []
unfolding chunks slices
two_chunks = refl

snapshot_applied_once_example :
    let ms = snapshot_messages "s1" "prod" (estate 25) in
    let all = apply_snapshot deps "i1" (clock (length ms - 1)) (estate 25) hub.store in
    ((deliver deps "i1" clock 0 ms hub).0
      ≡ waits (drop 1 (chunks (estate 25))) ++ applied all.0 ∷ [])
    × ((deliver deps "i1" clock 0 ms hub).1.store ≡ all.1)
snapshot_applied_once_example =
    snapshot_applied_once deps "i1" clock "s1" "prod" (estate 25) hub refl (λ k lt. omega (arith))

abbrev known : Hub
known = record {
  pending = [];
  store = (record_all deps "i1" 1 (blob "j1" ∷ blob "j2" ∷ []) hub.store).1;
}

abbrev in_parts : List Snapshot
in_parts = to_messages "s1" "prod" ((blob "j1" ∷ []) ∷ (blob "j2" ∷ []) ∷ [])

-- With ten minutes between the chunks, the first is swept and its job counts as removed from the instance.
swept_part :
    (map
      (λ j. is_some j.deleted_at)
      (deliver deps "i1" (λ n. n * 600000) 0 in_parts known).1.store.jobs)
    ≡ true ∷ false ∷ []
unfolding deliver to_messages handle_snapshot_chunk sweep_abandoned_snapshots key_of input_of
    record_all apply_snapshot record_job_version mark_jobs_missing_from_snapshot
swept_part = refl

-- The same two jobs in one chunk, after a job that is gone since.
abbrev before : Hub
before = record {
  pending = [];
  store = (record_all deps "i1" 1 (blob "j1" ∷ blob "j9" ∷ []) hub.store).1;
}

apart : ◌≢◌ {A = String} "j1" "j2"
apart e = absurd (ground (arith, eq_iff "j1" "j2", e))

snapshot_mirrored_example :
    let blobs = blob "j1" ∷ blob "j2" ∷ [] in
    HoldsExactly deps "i1" blobs
      (deliver deps "i1" clock 0 (snapshot_messages "s2" "prod" blobs) before).1.store
snapshot_mirrored_example =
    snapshot_mirrored deps "i1" clock "s2" "prod" (blob "j1" ∷ blob "j2" ∷ []) before refl
      (λ k lt. omega (arith)) ((apart, tt), (tt, tt)) (refl, (refl, tt))
