-- ===== src/Versioning/Observed.antt =====
-- packages/server/src/domain/versioning.ts: observing a definition again, and reconciling a full snapshot.
use remote_sql_agent.Prelude.{
  ℕ, suc, ◌≡◌, refl, sym, ap, ◌∙◌, inl, inr, true, false, String, str_eq, eq_iff, Option, none,
  some, is_some, List, [], ◌∷◌, map, find, any, arith, All, Elem, Bool-cases, Option-cases,
  find-update_where, find-concat,
}
use remote_sql_agent.Job.{JobDefinition}
use remote_sql_agent.Versioning.{
  JobRow, VersionRow, VersionStore, RecordVersionInput, RecordVersionResult, is_local, is_job,
  is_hash, set_columns, blank_job, restore, record_parsed, record_job_version, is_missing,
  delete_if_missing, mark_jobs_missing_from_snapshot,
}
use remote_sql_agent.Versioning.Timeline.{upto, Inv, Tracks, history, same_text}

-- The row after an observation: live, with the observed hash.
abbrev pub Stored : RecordVersionInput → VersionStore → Type 0
Stored input st =
    (j : JobRow) × (find (is_job input.instance_id input.job_uuid) st.jobs ≡ some j)
    × (j.current_definition_hash ≡ some input.definition_hash)
    × (j.deleted_at ≡ none)

is_hash-some : (o : Option String) (h : String) → is_hash o h ≡ true → o ≡ some h
is_hash-some none h e = cc
is_hash-some (some x) h e = ap some ((eq_iff x h).0 e)

pub record_parsed-Stored :
    (id : String) (input : RecordVersionInput) (d : JobDefinition) (st : VersionStore)
    → Stored input (record_parsed id input d st).1
unfolding record_parsed
record_parsed-Stored id input d st =
    let this = is_job input.instance_id input.job_uuid in
    elim (Option-cases (find this st.jobs)) [
      | inl e ↦
          let j = set_columns input d 1 false (blank_job id input) in
          let mine : this j ≡ true = rw (same_text input.instance_id, same_text input.job_uuid) in
          rw (e, record_parsed) (j, rw (find-concat this st.jobs j, e, mine), refl, refl)
      | inr (j, e) ↦ elim (Bool-cases (is_hash j.current_definition_hash input.definition_hash)) [
        | inl same ↦
            let hash : j.current_definition_hash ≡ some input.definition_hash =
              is_hash-some j.current_definition_hash input.definition_hash same in
            elim (Bool-cases (is_some j.deleted_at)) [
              | inl gone ↦
                  rw (e, same, gone, record_parsed)
                    (
                      restore input.detected_at j,
                      find-update_where this (restore input.detected_at) st.jobs j (λ x. refl) e,
                      hash,
                      refl,
                    )
              | inr live ↦ rw (e, same, live, record_parsed) (j, e, hash, ground (arith, live))
            ]
        | inr moved ↦
            let change = set_columns input d (suc j.current_version_no) (is_local input.origin) in
            rw (e, moved, record_parsed)
              (change j, find-update_where this change st.jobs j (λ x. refl) e, refl, refl)
      ]
    ]

record_parsed_again :
    (id : String) (input : RecordVersionInput) (d : JobDefinition) (st : VersionStore)
    → Stored input st
    → ((record_parsed id input d st).0.changed ≡ false) × ((record_parsed id input d st).1 ≡ st)
unfolding record_parsed
record_parsed_again id input d st (j, e, hash, live) =
    let same : is_hash j.current_definition_hash input.definition_hash ≡ true =
      rw (hash) (same_text input.definition_hash) in
    let here : is_some j.deleted_at ≡ false = rw (live) in
    rw (e, same, here, record_parsed) (refl, refl)

-- What a second observation answers, and leaves.
abbrev pub Repeats :
    (String → Option JobDefinition) → String → RecordVersionInput → VersionStore → Type 0
Repeats parse id input st =
    ((r : RecordVersionResult) × ((record_job_version parse id input st).0 ≡ some r)
      × (r.changed ≡ false))
    × ((record_job_version parse id input st).1 ≡ st)

record_job_version-Repeats :
    (parse : String → Option JobDefinition) (id : String) (input : RecordVersionInput)
    (d : JobDefinition) (st : VersionStore)
    → parse input.canonical_json ≡ some d
    → Stored input st
    → Repeats parse id input st
unfolding record_job_version
record_job_version-Repeats parse id input d st e s =
    let a = record_parsed_again id input d st s in
    rw (e, record_job_version) (((record_parsed id input d st).0, refl, a.0), a.1)

pub record_job_version-Stored :
    (parse : String → Option JobDefinition) (id : String) (input : RecordVersionInput)
    (d : JobDefinition) (st : VersionStore)
    → parse input.canonical_json ≡ some d
    → Stored input (record_job_version parse id input st).1
unfolding record_job_version
record_job_version-Stored parse id input d st e =
    rw (e, record_job_version) (record_parsed-Stored id input d st)

-- A definition that parses is recorded once: observing it again reports no change and changes nothing.
pub record_job_version_again :
    (parse : String → Option JobDefinition) (id again : String) (input : RecordVersionInput)
    (d : JobDefinition) (st : VersionStore)
    → parse input.canonical_json ≡ some d
    → Repeats parse again input (record_job_version parse id input st).1
record_job_version_again parse id again input d st e =
    record_job_version-Repeats parse again input d (record_job_version parse id input st).1 e
      (record_job_version-Stored parse id input d st e)

-- The row is of the instance and not deleted, and so the snapshot has its job.
abbrev pub SeenIfLive : String → List String → JobRow → Type 0
SeenIfLive instance_id seen j =
    j.instance_id ≡ instance_id → j.deleted_at ≡ none → any (λ u. str_eq u j.job_uuid) seen ≡ true

delete_if_missing-SeenIfLive :
    (i : String) (seen : List String) (at : ℕ) (j : JobRow)
    → SeenIfLive i seen (delete_if_missing i seen at j)
delete_if_missing-SeenIfLive i seen at j here live = elim (Bool-cases (is_missing i seen j)) [
  | inl missing ↦ absurd (ground (arith, missing, live))
  | inr kept ↦ ground (arith, kept, here, live, eq_iff j.instance_id i)
]

pub All-seen :
    (i : String) (seen : List String) (at : ℕ) (js : List JobRow)
    → All (SeenIfLive i seen) (map (delete_if_missing i seen at) js)
All-seen i seen at [] = tt
All-seen i seen at (j ∷ js) = (delete_if_missing-SeenIfLive i seen at j, All-seen i seen at js)

pub delete_if_missing-keeps :
    (i : String) (seen : List String) (at : ℕ) (j : JobRow)
    → ((delete_if_missing i seen at j).instance_id ≡ j.instance_id)
      × ((delete_if_missing i seen at j).job_uuid ≡ j.job_uuid)
      × ((delete_if_missing i seen at j).current_version_no ≡ j.current_version_no)
      × ((delete_if_missing i seen at j).current_definition_hash ≡ j.current_definition_hash)
delete_if_missing-keeps i seen at j = elim (Bool-cases (is_missing i seen j)) [
  | inl missing ↦ rw (missing) (refl, refl, refl, refl)
  | inr kept ↦ rw (kept) (refl, refl, refl, refl)
]

find-delete_if_missing :
    (i : String) (seen : List String) (at : ℕ) (js : List JobRow) (i' u : String)
    (vs : List VersionRow)
    → Tracks (find (is_job i' u) js) vs
    → Tracks (find (is_job i' u) (map (delete_if_missing i seen at) js)) vs
find-delete_if_missing i seen at [] i' u vs t = t
find-delete_if_missing i seen at (j ∷ js) i' u vs t =
    let (a, b, c, d) = delete_if_missing-keeps i seen at j in
    let same : is_job i' u (delete_if_missing i seen at j) ≡ is_job i' u j = rw (a, b) in
    elim (Bool-cases (is_job i' u j)) [
      | inl hit ↦
          let t' : Tracks (some j) vs = rw hit at t in
          rw (same, hit) (t'.0 ∙ ap upto (sym c), t'.1 ∙ sym d)
      | inr miss ↦
          let t' : Tracks (find (is_job i' u) js) vs = rw miss at t in
          rw (same, miss) (find-delete_if_missing i seen at js i' u vs t')
    ]

Elem-delete_if_missing :
    (i : String) (seen : List String) (at : ℕ) (js : List JobRow) (j : JobRow)
    → (j.instance_id ≡ i → any (λ u. str_eq u j.job_uuid) seen ≡ true)
    → Elem j js
    → Elem j (map (delete_if_missing i seen at) js)
Elem-delete_if_missing i seen at [] j k m = m
Elem-delete_if_missing i seen at (x ∷ js) j k (inr m) =
    inr (Elem-delete_if_missing i seen at js j k m)
Elem-delete_if_missing i seen at (x ∷ js) j k (inl e) =
    let kept : is_missing i seen j ≡ false = ground (arith, k, eq_iff j.instance_id i) in
    let same : delete_if_missing i seen at j ≡ j = rw (kept) in
    inl (sym same ∙ ap (delete_if_missing i seen at) e)

-- After a full snapshot of an instance every live job of the instance is in the snapshot, the rows of jobs in the
-- snapshot and of other instances are as they were, and so are the versions; and the timelines still hold.
pub mark_jobs_missing_from_snapshot_complete :
    (i : String) (seen : List String) (at : ℕ) (st : VersionStore)
    → Inv st
    → let st' = (mark_jobs_missing_from_snapshot i seen at st).1 in
      All (SeenIfLive i seen) st'.jobs
      × ((j : JobRow)
          → (j.instance_id ≡ i → any (λ u. str_eq u j.job_uuid) seen ≡ true)
          → Elem j st.jobs
          → Elem j st'.jobs)
      × (st'.job_versions ≡ st.job_versions)
      × Inv st'
unfolding mark_jobs_missing_from_snapshot
mark_jobs_missing_from_snapshot_complete i seen at st v = (
  All-seen i seen at st.jobs,
  λ j k m. Elem-delete_if_missing i seen at st.jobs j k m,
  refl,
  λ i' u. find-delete_if_missing i seen at st.jobs i' u (history st i' u) (v i' u),
)
