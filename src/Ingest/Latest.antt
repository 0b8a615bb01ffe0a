-- ===== src/Ingest/Latest.antt =====
-- packages/server/src/domain/ingest.ts: the last run that `jobs` shows after a batch.
use remote_sql_agent.Prelude.{
  ◌≡◌, refl, sym, ap, subst, ◌∙◌, inl, inr, Bool-cases, true, false, ◌||◌, String, str_eq, eq_iff,
  Option-cases, some, List, [], ◌∷◌, ◌++◌, map, filter, Elem, Elem-map_source, All, All-of, any,
  any-append, arith,
}
use remote_sql_agent.Ingest.Tables.{HistoryRow, JobHistory, JobRuns, HistoryStore}
use remote_sql_agent.Ingest.History.{
  insert_history, unique, is_outcome, is_before, latest_outcome, is_runs_of, set_last_run,
  refresh_row, ingest_values, history_values, ingest_history,
}
use remote_sql_agent.Ingest.Summary.{
  refresh_all, refresh_last_run_summary-map, Refreshed, refresh_all-Refreshed, first_run-none,
  first_run-latest,
}

unique-any :
    (u : String) (seen us : List String)
    → any (λ v. str_eq v u) (unique seen us)
      ≡ (any (λ v. str_eq v u) seen || any (λ v. str_eq v u) us)
unique-any u seen [] = ground arith
unique-any u seen (x ∷ us) = elim (Bool-cases (any (λ v. str_eq v x) seen)) [
  | inl held ↦
      let known : str_eq x u ≡ true → any (λ v. str_eq v u) seen ≡ true =
        λ h. subst (λ w. any (λ v. str_eq v w) seen ≡ true) ((eq_iff x u).0 h) held in
      rw (held) (unique-any u seen us ∙ ground (arith, known))
  | inr free ↦ rw (free) (
      unique-any u (seen ++ x ∷ []) us ∙ ground (arith, any-append (λ v. str_eq v u) seen (x ∷ [])))
]

any-own :
    (u : String) (values : List JobHistory) (v : JobHistory)
    → Elem v values
    → v.job_uuid ≡ u
    → any (λ w. str_eq w u) (map (λ w. w.job_uuid) values) ≡ true
any-own u [] v m e = absurd m
any-own u (x ∷ values) v (inl same) e =
    ground (arith, eq_iff x.job_uuid u, ap (λ (w : JobHistory). w.job_uuid) same, e)
any-own u (x ∷ values) v (inr m) e = ground (arith, any-own u values v m e)

refresh_row-own :
    (table : List JobHistory) (i u : String) (j : JobRuns) (h : JobHistory)
    → is_runs_of i u j ≡ true
    → latest_outcome table i u ≡ some h
    → refresh_row table i u j ≡ set_last_run h j
unfolding refresh_row
refresh_row-own table i u j h mine f = rw (f, mine, refresh_row)

refresh_row-other :
    (table : List JobHistory) (i u : String) (j : JobRuns)
    → is_runs_of i u j ≡ false
    → refresh_row table i u j ≡ j
unfolding refresh_row
refresh_row-other table i u j other = elim (Option-cases (latest_outcome table i u)) [
  | inl f ↦ rw (f, refresh_row)
  | inr (h, f) ↦ rw (f, other, refresh_row)
]

-- A row that shows the latest outcome goes on to show it.
refresh_all-shown :
    (table : List JobHistory) (i : String) (us : List String) (j : JobRuns) (h : JobHistory)
    → latest_outcome table i j.job_uuid ≡ some h
    → refresh_all table i us (set_last_run h j) ≡ set_last_run h j
refresh_all-shown table i us j h f = elim (refresh_all-Refreshed table i us (set_last_run h j)) [
  | inl same ↦ same
  | inr (h', f', e') ↦
      let one : some h' ≡ some h = sym f' ∙ f in
      let same : h' ≡ h = ground (arith, one) in e' ∙ ap (λ x. set_last_run x j) same
]

-- A row whose job is among the refreshed ones shows the latest outcome.
refresh_all-hit :
    (table : List JobHistory) (i : String) (us : List String) (j : JobRuns) (h : JobHistory)
    → j.instance_id ≡ i
    → any (λ v. str_eq v j.job_uuid) us ≡ true
    → latest_outcome table i j.job_uuid ≡ some h
    → refresh_all table i us j ≡ set_last_run h j
refresh_all-hit table i [] j h e a f = cc
refresh_all-hit table i (u ∷ us) j h e a f = elim (Bool-cases (str_eq u j.job_uuid)) [
  | inl hit ↦
      let same : u ≡ j.job_uuid = (eq_iff u j.job_uuid).0 hit in
      let mine : is_runs_of i u j ≡ true =
        ground (arith, eq_iff j.instance_id i, eq_iff j.job_uuid u, e, same) in
      let found : latest_outcome table i u ≡ some h = rw (same) f in
      ap (refresh_all table i us) (refresh_row-own table i u j h mine found)
      ∙ refresh_all-shown table i us j h f
  | inr miss ↦
      let other : is_runs_of i u j ≡ false =
        ground (arith, eq_iff j.instance_id i, eq_iff j.job_uuid u, eq_iff u j.job_uuid, miss) in
      ap (refresh_all table i us) (refresh_row-other table i u j other)
      ∙ refresh_all-hit table i us j h e (ground (arith, a, miss)) f
]

-- The row shows an outcome of its job that no other held outcome of the job comes after.
abbrev pub ShowsLatest : List JobHistory → JobRuns → Type 0
ShowsLatest table j =
    (h : JobHistory) × Elem h (filter (is_outcome j.instance_id j.job_uuid) table)
    × All (λ k. is_before h k ≡ false) (filter (is_outcome j.instance_id j.job_uuid) table)
    × (j.last_run_status ≡ some h.run_status)
    × (j.last_run_at ≡ some h.run_datetime)
    × (j.last_run_duration_seconds ≡ some h.run_duration_seconds)

shown :
    (table : List JobHistory) (j j' : JobRuns) (h : JobHistory)
    → latest_outcome table j.instance_id j.job_uuid ≡ some h
    → j' ≡ set_last_run h j
    → ShowsLatest table j'
unfolding latest_outcome
shown table j j' h f e =
    let outcomes = filter (is_outcome j.instance_id j.job_uuid) table in
    let (m, top) = first_run-latest outcomes h f in
    subst (ShowsLatest table) (sym e)
      (h, m, All-of (λ k. is_before h k ≡ false) outcomes top, refl, refl, refl)

shows :
    (table : List JobHistory) (us : List String) (j : JobRuns) (k : JobHistory)
    → any (λ v. str_eq v j.job_uuid) us ≡ true
    → Elem k (filter (is_outcome j.instance_id j.job_uuid) table)
    → ShowsLatest table (refresh_all table j.instance_id us j)
unfolding latest_outcome
shows table us j k a m =
    let i = j.instance_id in
    elim (Option-cases (latest_outcome table i j.job_uuid)) [
      | inl f ↦ absurd (rw (first_run-none (filter (is_outcome i j.job_uuid) table) f) at m)
      | inr (h, f) ↦
          shown table j (refresh_all table i us j) h f (refresh_all-hit table i us j h refl a f)
    ]

Refreshed-row :
    (table : List JobHistory) (i : String) (j j' : JobRuns)
    → Refreshed table i j j'
    → (j'.instance_id ≡ j.instance_id) × (j'.job_uuid ≡ j.job_uuid)
Refreshed-row table i j j' (inl e) = (ap (λ x. x.instance_id) e, ap (λ x. x.job_uuid) e)
Refreshed-row table i j j' (inr (h, f, e)) = (ap (λ x. x.instance_id) e, ap (λ x. x.job_uuid) e)

ingest_values-ShowsLatest :
    (i : String) (values : List JobHistory) (st : HistoryStore) (j : JobRuns) (v k : JobHistory)
    → Elem j (ingest_values i values st).1.jobs
    → j.instance_id ≡ i
    → Elem v values
    → v.job_uuid ≡ j.job_uuid
    → Elem k (filter (is_outcome i j.job_uuid) (ingest_values i values st).1.job_history)
    → ShowsLatest (ingest_values i values st).1.job_history j
unfolding ingest_values
ingest_values-ShowsLatest i [] st j v k m e n same o = absurd n
ingest_values-ShowsLatest i (x ∷ values) st j v k m e n same o =
    let uuids = map (λ (w : JobHistory). w.job_uuid) (x ∷ values) in
    let us = unique [] uuids in
    let table = (insert_history st.job_history (x ∷ values)).0 in
    let m' : Elem j (map (refresh_all table i us) st.jobs) =
      subst (Elem j) (refresh_last_run_summary-map table i us st.jobs) m in
    let (j0, m0, f) = Elem-map_source (refresh_all table i us) j st.jobs m' in
    let (i-same, u-same) =
      Refreshed-row table i j0 (refresh_all table i us j0) (refresh_all-Refreshed table i us j0) in
    let here : j0.instance_id ≡ i = sym i-same ∙ ap (λ x. x.instance_id) (sym f) ∙ e in
    let uuid : j.job_uuid ≡ j0.job_uuid = ap (λ x. x.job_uuid) f ∙ u-same in
    let listed : any (λ w. str_eq w j0.job_uuid) us ≡ true =
      unique-any j0.job_uuid [] uuids ∙ any-own j0.job_uuid (x ∷ values) v n (same ∙ uuid) in
    let o' : Elem k (filter (is_outcome j0.instance_id j0.job_uuid) table) =
      subst (λ w. Elem k (filter (is_outcome w j0.job_uuid) table)) (sym here)
        (subst (λ w. Elem k (filter (is_outcome i w) table)) uuid o) in
    subst (ShowsLatest table) (sym f) (
      subst (λ w. ShowsLatest table (refresh_all table w us j0)) here
        (shows table us j0 k listed o'))

-- After a batch of an instance, the row of each job that the batch has a run of shows the job's latest outcome, if any
-- outcome of the job is held.
pub ingest_history-ShowsLatest :
    (i : String) (rows : List HistoryRow) (st : HistoryStore) (j : JobRuns) (v k : JobHistory)
    → Elem j (ingest_history i rows st).1.jobs
    → j.instance_id ≡ i
    → Elem v (history_values i rows)
    → v.job_uuid ≡ j.job_uuid
    → Elem k (filter (is_outcome i j.job_uuid) (ingest_history i rows st).1.job_history)
    → ShowsLatest (ingest_history i rows st).1.job_history j
unfolding ingest_history
ingest_history-ShowsLatest i rows st j v k m e n same o =
    ingest_values-ShowsLatest i (history_values i rows) st j v k m e n same o
