-- ===== src/Snapshots/Mirrored.antt =====
-- packages/server/src/hub/hub.ts: what the server holds of an instance once a snapshot is applied, through
-- `recordJobVersion` and `markJobsMissingFromSnapshot` of packages/server/src/domain/versioning.ts.
use remote_sql_agent.Prelude.{
  ℕ, suc, ◌≡◌, ◌≢◌, refl, sym, ap, subst, ◌∙◌, inl, inr, Bool-cases, true, false, String, str_eq,
  eq_iff, Option, Option-cases, none, some, is_some, List, [], ◌∷◌, map, All, All-of, All-Elem,
  Elem, find, any, find-concat, find-update_where-other, arith,
}
use remote_sql_agent.Job.{JobDefinition}
use remote_sql_agent.Worker.Msdb.{JobDefinitionBlob}
use remote_sql_agent.Versioning.{
  JobRow, VersionStore, RecordVersionInput, is_local, is_job, is_hash, is_missing, set_columns,
  blank_job, restore, delete_if_missing, record_parsed, record_job_version,
  mark_jobs_missing_from_snapshot,
}
use remote_sql_agent.Versioning.Observed.{
  record_parsed-Stored, SeenIfLive, delete_if_missing-keeps, All-seen,
}
use remote_sql_agent.Monitor.Told.{AreDistinct}
use remote_sql_agent.Snapshots.Chunks.{Blobs}
use remote_sql_agent.Snapshots.Pending.{Deps, input_of, record_all, apply_snapshot}

record_parsed-other :
    (id : String) (input : RecordVersionInput) (d : JobDefinition) (st : VersionStore) (u : String)
    → input.job_uuid ≢ u
    → find (is_job input.instance_id u) (record_parsed id input d st).1.jobs
      ≡ find (is_job input.instance_id u) st.jobs
unfolding record_parsed
record_parsed-other id input d st u ne =
    let this = is_job input.instance_id input.job_uuid in
    let that = is_job input.instance_id u in
    let apart : (x : JobRow) → this x ≡ true → that x ≡ false =
      λ x h. ground (arith, h, ne, eq_iff x.job_uuid input.job_uuid, eq_iff x.job_uuid u) in
    elim (Option-cases (find this st.jobs)) [
      | inl e ↦
          let j = set_columns input d 1 false (blank_job id input) in
          let off : that j ≡ false = ground (arith, ne, eq_iff input.job_uuid u) in
          rw (e, record_parsed) (find-concat that st.jobs j ∙ ground (arith, off))
      | inr (j, e) ↦ elim (Bool-cases (is_hash j.current_definition_hash input.definition_hash)) [
        | inl same ↦ elim (Bool-cases (is_some j.deleted_at)) [
          | inl gone ↦
              rw (e, same, gone, record_parsed)
                (find-update_where-other this that (restore input.detected_at) st.jobs apart apart)
          | inr live ↦ rw (e, same, live, record_parsed) refl
        ]
        | inr moved ↦
            rw (e, moved, record_parsed)
              (find-update_where-other this that
                (set_columns input d (suc j.current_version_no) (is_local input.origin)) st.jobs
                apart apart)
      ]
    ]

record_job_version-parsed :
    (parse : String → Option JobDefinition) (id : String) (input : RecordVersionInput)
    (d : JobDefinition) (st : VersionStore)
    → parse input.canonical_json ≡ some d
    → record_job_version parse id input st
      ≡ (let (result, st') = record_parsed id input d st in (some result, st'))
unfolding record_job_version
record_job_version-parsed parse id input d st e = rw (e, record_job_version) refl

module _ (deps : Deps) (instance_id : String) where
  -- The row of a job: live, and with the hash of what the worker read.
  abbrev pub Mirrored : VersionStore → JobDefinitionBlob → Type 0
  Mirrored st b =
      (j : JobRow) × (find (is_job instance_id b.job_uuid) st.jobs ≡ some j)
      × (j.current_definition_hash ≡ some (deps.hash_canonical b.canonical_json))
      × (j.deleted_at ≡ none)

  abbrev pub DoParse : Blobs → Type 0
  DoParse blobs = All (λ b. is_some (deps.parse b.canonical_json) ≡ true) blobs

  parses :
      (now : ℕ) (b : JobDefinitionBlob) (d : JobDefinition)
      → deps.parse b.canonical_json ≡ some d
      → deps.parse (input_of deps instance_id now b).canonical_json ≡ some d
  unfolding input_of
  parses now b d e = e

  -- One round of the loop, on a definition that parses.
  record_all-cons :
      (now : ℕ) (b : JobDefinitionBlob) (blobs : Blobs) (st : VersionStore) (d : JobDefinition)
      → deps.parse b.canonical_json ≡ some d
      → record_all deps instance_id now (b ∷ blobs) st
        ≡ record_all deps instance_id now blobs
            (record_parsed (deps.new_id b) (input_of deps instance_id now b) d st).1
  unfolding record_all
  record_all-cons now b blobs st d e =
      ap
        (λ r. elim r.0 [ none ↦ (false, r.1) | some x ↦ record_all deps instance_id now blobs r.1 ])
        (record_job_version-parsed deps.parse (deps.new_id b) (input_of deps instance_id now b) d st
          (parses now b d e))

  parsed-other :
      (now : ℕ) (b : JobDefinitionBlob) (st : VersionStore) (d : JobDefinition) (u : String)
      → u ≢ b.job_uuid
      → find
          (is_job instance_id u)
          (record_parsed (deps.new_id b) (input_of deps instance_id now b) d st).1.jobs
        ≡ find (is_job instance_id u) st.jobs
  unfolding input_of
  parsed-other now b st d u ne =
      record_parsed-other (deps.new_id b) (input_of deps instance_id now b) d st u (λ e. ne (sym e))

  record_all-other :
      (now : ℕ) (blobs : Blobs) (st : VersionStore) (u : String)
      → All (λ c. u ≢ c.job_uuid) blobs
      → DoParse blobs
      → find (is_job instance_id u) (record_all deps instance_id now blobs st).1.jobs
        ≡ find (is_job instance_id u) st.jobs
  unfolding record_all
  record_all-other now [] st u apart p = refl
  record_all-other now (b ∷ blobs) st u (ne, apart) (k, p) =
      elim (Option-cases (deps.parse b.canonical_json)) [
        | inl e ↦ absurd (ground (arith, k, e))
        | inr (d, e) ↦
            let st1 = (record_parsed (deps.new_id b) (input_of deps instance_id now b) d st).1 in
            ap (λ r. find (is_job instance_id u) r.1.jobs) (record_all-cons now b blobs st d e)
            ∙ record_all-other now blobs st1 u apart p
            ∙ parsed-other now b st d u ne
      ]

  parsed-Mirrored :
      (now : ℕ) (b : JobDefinitionBlob) (st : VersionStore) (d : JobDefinition)
      → Mirrored (record_parsed (deps.new_id b) (input_of deps instance_id now b) d st).1 b
  unfolding input_of
  parsed-Mirrored now b st d =
      record_parsed-Stored (deps.new_id b) (input_of deps instance_id now b) d st

  record_all-Mirrored :
      (now : ℕ) (blobs : Blobs) (st : VersionStore)
      → AreDistinct blobs
      → DoParse blobs
      → ((record_all deps instance_id now blobs st).0 ≡ true)
        × All (Mirrored (record_all deps instance_id now blobs st).1) blobs
  unfolding record_all
  record_all-Mirrored now [] st distinct p = (refl, tt)
  record_all-Mirrored now (b ∷ blobs) st (apart, distinct) (k, p) =
      elim (Option-cases (deps.parse b.canonical_json)) [
        | inl e ↦ absurd (ground (arith, k, e))
        | inr (d, e) ↦
            let st1 = (record_parsed (deps.new_id b) (input_of deps instance_id now b) d st).1 in
            let (ok, rest) = record_all-Mirrored now blobs st1 distinct p in
            let (j, f, h, live) = parsed-Mirrored now b st d in
            let own = record_all-other now blobs st1 b.job_uuid apart p ∙ f in
            subst (λ r. (r.0 ≡ true) × All (Mirrored r.1) (b ∷ blobs))
              (sym (record_all-cons now b blobs st d e)) (ok, ((j, own, h, live), rest))
      ]

  find-seen :
      (seen : List String) (at : ℕ) (js : List JobRow) (u : String)
      → any (λ x. str_eq x u) seen ≡ true
      → find (is_job instance_id u) (map (delete_if_missing instance_id seen at) js)
        ≡ find (is_job instance_id u) js
  find-seen seen at [] u h = refl
  find-seen seen at (j ∷ js) u h =
      let (a, b, _, _) = delete_if_missing-keeps instance_id seen at j in
      let same : is_job instance_id u (delete_if_missing instance_id seen at j)
          ≡ is_job instance_id u j =
        rw (a, b) in
      elim (Bool-cases (is_job instance_id u j)) [
        | inl hit ↦
            let uuid : j.job_uuid ≡ u = ground (arith, hit, eq_iff j.job_uuid u) in
            let seen_it : any (λ x. str_eq x j.job_uuid) seen ≡ true =
              subst (λ v. any (λ x. str_eq x v) seen ≡ true) (sym uuid) h in
            let stays : is_missing instance_id seen j ≡ false = ground (arith, seen_it) in
            rw (same, hit, stays) refl
        | inr miss ↦ rw (same, miss) (find-seen seen at js u h)
      ]

  seen-all :
      (blobs : Blobs) (b : JobDefinitionBlob)
      → Elem b blobs
      → any (λ x. str_eq x b.job_uuid) (map (λ c. c.job_uuid) blobs) ≡ true
  seen-all [] b m = absurd m
  seen-all (c ∷ blobs) b (inl e) =
      let hit : str_eq c.job_uuid b.job_uuid ≡ true =
        (eq_iff c.job_uuid b.job_uuid).1 (ap (λ x. x.job_uuid) (sym e)) in
      ground (arith, hit)
  seen-all (c ∷ blobs) b (inr m) = ground (arith, seen-all blobs b m)

  -- What the server holds of the instance after a snapshot: each job that was read, and no other one live.
  abbrev pub HoldsExactly : Blobs → VersionStore → Type 0
  HoldsExactly blobs st =
      All (Mirrored st) blobs × All (SeenIfLive instance_id (map (λ b. b.job_uuid) blobs)) st.jobs

  pub apply_snapshot-HoldsExactly :
      (now : ℕ) (blobs : Blobs) (st : VersionStore)
      → AreDistinct blobs
      → DoParse blobs
      → (is_some (apply_snapshot deps instance_id now blobs st).0 ≡ true)
        × HoldsExactly blobs (apply_snapshot deps instance_id now blobs st).1
  unfolding apply_snapshot mark_jobs_missing_from_snapshot
  apply_snapshot-HoldsExactly now blobs st distinct p =
      let (ok, rows) = record_all-Mirrored now blobs st distinct p in
      let st' = (record_all deps instance_id now blobs st).1 in
      let seen = map (λ b. b.job_uuid) blobs in
      let kept : All (Mirrored (mark_jobs_missing_from_snapshot instance_id seen now st').1) blobs =
        All-of _ blobs (λ b m.
          let (j, f, h, live) = All-Elem (Mirrored st') blobs b rows m in
          (j, find-seen seen now st'.jobs b.job_uuid (seen-all blobs b m) ∙ f, h, live)) in
      rw (ok, apply_snapshot) (refl, (kept, All-seen instance_id seen now st'.jobs))
