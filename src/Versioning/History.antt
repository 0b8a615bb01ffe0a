-- ===== src/Versioning/History.antt =====
-- packages/server/src/domain/versioning.ts: the timelines under an observation.
use remote_sql_agent.Prelude.{
  ℕ, suc, ◌≡◌, refl, ap, ◌∙◌, subst, inl, inr, true, false, ◌&&◌, String, str_eq, eq_iff, Option,
  none, some, is_some, [], ◌∷◌, ◌++◌, filter, find, arith, Bool-cases, Option-cases,
  find-update_where, find-update_where-other, find-concat,
}
use remote_sql_agent.Job.{JobDefinition}
use remote_sql_agent.Versioning.{
  JobVersionOrigin, JobRow, VersionStore, RecordVersionInput, is_local, is_job, is_version_of,
  is_hash, version_row, set_columns, blank_job, restore, record_parsed, record_job_version,
}
use remote_sql_agent.Versioning.Timeline.{
  history, Tracks, Inv, filter-concat, filter-concat-other, find-concat-other, is_job_iff,
  same_text, Tracks-concat, Tracks-eq,
}

module _ (id : String) (input : RecordVersionInput) (d : JobDefinition) where
  own_history :
      (st : VersionStore) (n : ℕ) (origin : JobVersionOrigin)
      → filter
          (is_version_of input.instance_id input.job_uuid)
          (st.job_versions ++ version_row input d n origin ∷ [])
        ≡ history st input.instance_id input.job_uuid ++ version_row input d n origin ∷ []
  own_history st n origin = rw (
    filter-concat (is_version_of input.instance_id input.job_uuid) st.job_versions
        (version_row input d n origin),
    same_text input.instance_id,
    same_text input.job_uuid,
  )

  own_row :
      (st : VersionStore) (j : JobRow)
      → find (is_job input.instance_id input.job_uuid) st.jobs ≡ none
      → is_job input.instance_id input.job_uuid j ≡ true
      → find (is_job input.instance_id input.job_uuid) (st.jobs ++ j ∷ []) ≡ some j
  own_row st j e same =
      rw (find-concat (is_job input.instance_id input.job_uuid) st.jobs j, e, same)

  record_parsed-own :
      (st : VersionStore)
      → Tracks
          (find (is_job input.instance_id input.job_uuid) st.jobs)
          (history st input.instance_id input.job_uuid)
      → let st' = (record_parsed id input d st).1 in
        Tracks
          (find (is_job input.instance_id input.job_uuid) st'.jobs)
          (history st' input.instance_id input.job_uuid)
  unfolding record_parsed
  record_parsed-own st t =
      elim (Option-cases (find (is_job input.instance_id input.job_uuid) st.jobs)) [
        | inl e ↦
            let h : history st input.instance_id input.job_uuid ≡ [] = rw e at t in
            let mine : is_job input.instance_id input.job_uuid (blank_job id input) ≡ true =
              rw (same_text input.instance_id, same_text input.job_uuid) in
            rw (e, record_parsed)
              (Tracks-eq (own_row st (set_columns input d 1 false (blank_job id input)) e mine)
                (own_history st 1 JobVersionOrigin.initial
                  ∙ ap (λ l. l ++ version_row input d 1 JobVersionOrigin.initial ∷ []) h)
                (refl, refl))
        | inr (j, e) ↦
            let h : Tracks (some j) (history st input.instance_id input.job_uuid) = rw e at t in
            elim (Bool-cases (is_hash j.current_definition_hash input.definition_hash)) [
              | inl same ↦ elim (Bool-cases (is_some j.deleted_at)) [
                | inl gone ↦
                    rw
                      (
                        e,
                        same,
                        gone,
                        record_parsed,
                        find-update_where (is_job input.instance_id input.job_uuid)
                            (restore input.detected_at) st.jobs j (λ x. refl) e,
                      )
                      h
                | inr live ↦ rw (e, same, live, record_parsed) (rw e h)
              ]
              | inr moved ↦
                  rw (e, moved, record_parsed)
                    (Tracks-eq
                      (find-update_where (is_job input.instance_id input.job_uuid)
                        (set_columns input d (suc j.current_version_no) (is_local input.origin))
                        st.jobs j (λ x. refl) e)
                      (own_history st (suc j.current_version_no) input.origin)
                      (Tracks-concat j (history st input.instance_id input.job_uuid) input d
                        input.origin (is_local input.origin) j.current_version_no h.0))
            ]
      ]

  record_parsed-other :
      (st : VersionStore) (i u : String)
      → (str_eq input.instance_id i && str_eq input.job_uuid u) ≡ false
      → Tracks (find (is_job i u) st.jobs) (history st i u)
      → let st' = (record_parsed id input d st).1 in
        Tracks (find (is_job i u) st'.jobs) (history st' i u)
  unfolding record_parsed
  record_parsed-other st i u apart t =
      let other : (x : JobRow)
          → is_job input.instance_id input.job_uuid x ≡ true
          → is_job i u x ≡ false =
        λ x hit.
          let (a, b) = (is_job_iff input.instance_id input.job_uuid x).0 hit in rw (a, b) apart in
      elim (Option-cases (find (is_job input.instance_id input.job_uuid) st.jobs)) [
        | inl e ↦
            rw (e, record_parsed)
              (Tracks-eq
                (find-concat-other (is_job i u) st.jobs
                  (set_columns input d 1 false (blank_job id input)) apart)
                (filter-concat-other (is_version_of i u) st.job_versions
                  (version_row input d 1 JobVersionOrigin.initial) apart)
                t)
        | inr (j, e) ↦ elim (Bool-cases (is_hash j.current_definition_hash input.definition_hash)) [
          | inl same ↦ elim (Bool-cases (is_some j.deleted_at)) [
            | inl gone ↦
                rw (e, same, gone, record_parsed)
                  (Tracks-eq
                    (find-update_where-other (is_job input.instance_id input.job_uuid) (is_job i u)
                      (restore input.detected_at) st.jobs other other)
                    refl t)
            | inr live ↦ rw (e, same, live, record_parsed) t
          ]
          | inr moved ↦
              rw (e, moved, record_parsed)
                (Tracks-eq
                  (find-update_where-other (is_job input.instance_id input.job_uuid) (is_job i u)
                    (set_columns input d (suc j.current_version_no) (is_local input.origin)) st.jobs
                    other other)
                  (filter-concat-other (is_version_of i u) st.job_versions
                    (version_row input d (suc j.current_version_no) input.origin) apart)
                  t)
        ]
      ]

record_parsed-Inv :
    (id : String) (input : RecordVersionInput) (d : JobDefinition) (st : VersionStore)
    → Inv st
    → Inv (record_parsed id input d st).1
record_parsed-Inv id input d st v i u =
    elim (Bool-cases (str_eq input.instance_id i && str_eq input.job_uuid u)) [
      | inr apart ↦ record_parsed-other id input d st i u apart (v i u)
      | inl same ↦
          let key : (input.instance_id ≡ i) × (input.job_uuid ≡ u) =
            ground (arith, eq_iff input.instance_id i, eq_iff input.job_uuid u) in
          let st' = (record_parsed id input d st).1 in
          subst (λ k. Tracks (find (is_job k u) st'.jobs) (history st' k u)) key.0
            (subst
              (λ k.
                Tracks (find (is_job input.instance_id k) st'.jobs)
                  (history st' input.instance_id k))
              key.1 (record_parsed-own id input d st (v input.instance_id input.job_uuid)))
    ]

-- Recording an observed definition keeps the timelines: every job with a row has versions numbered from 1 to its
-- current number without a gap, the newest with its current hash, and a job without a row has none.
pub record_job_version-Inv :
    (parse : String → Option JobDefinition) (id : String) (input : RecordVersionInput)
    (st : VersionStore)
    → Inv st
    → Inv (record_job_version parse id input st).1
unfolding record_job_version
record_job_version-Inv parse id input st v = elim (Option-cases (parse input.canonical_json)) [
  | inl e ↦ rw (e, record_job_version) v
  | inr (d, e) ↦ rw (e, record_job_version) (record_parsed-Inv id input d st v)
]
