-- ===== src/Ingest/Replayed.antt =====
-- packages/server/src/domain/ingest.ts: a batch of history that is sent again.
use remote_sql_agent.Prelude.{
  ℕ, ◌≤◌, ◌≡◌, refl, sym, ◌∙◌, ◌⊎◌, inl, inr, Bool-cases, true, String, str_eq, eq_iff, none, some,
  List, [], ◌∷◌, map, find, Elem, any, find-update_where-other, find-concat, arith,
}
use remote_sql_agent.Ingest.Tables.{HistoryRow, JobHistory, SyncState, HistoryStore}
use remote_sql_agent.Ingest.History.{
  is_held, insert_history, is_sync, get_history_high_water_mark, batch_max, raise_mark, upsert_mark,
  unique, is_empty, ingest_values, history_values, ingest_history,
}
use remote_sql_agent.Ingest.Kept.{
  insert_history-keeps, insert_history-holds, insert_history-held, upsert_mark-reached,
  upsert_mark-Raised,
}
use remote_sql_agent.Ingest.Summary.{refresh_last_run_summary-again}

-- Batches one after another, each with its instance.
abbrev pub Batches : Type 0
Batches = List (String × List HistoryRow)

unfoldable pub ingest_batches : Batches → HistoryStore → HistoryStore
unfolding ingest_history
ingest_batches [] st = st
ingest_batches ((i, rows) ∷ batches) st = ingest_batches batches (ingest_history i rows st).1

-- A mark is there, and high enough.
abbrev Reached : String → ℕ → List SyncState → Type 0
Reached i mark table =
    (s : SyncState) × (find (is_sync i) table ≡ some s) × (mark ≤ s.history_high_water_mark)

-- Every row is held and the mark is reached.
abbrev Took : String → List JobHistory → HistoryStore → Type 0
Took i values st =
    ((v : JobHistory) → Elem v values → is_held st.job_history v ≡ true)
    × ((is_empty values ≡ true) ⊎ Reached i (batch_max values) st.sync_state)

ingest_values-Took :
    (i : String) (values : List JobHistory) (st : HistoryStore)
    → Took i values (ingest_values i values st).1
unfolding ingest_values
ingest_values-Took i [] st = (λ v m. absurd m, inl refl)
ingest_values-Took i (x ∷ values) st =
    let (s, f, e) = upsert_mark-Raised i (batch_max (x ∷ values)) st.sync_state in
    (insert_history-holds st.job_history (x ∷ values), inr (s, f, omega (arith, e)))

Reached-upsert_mark :
    (i j : String) (mark other : ℕ) (table : List SyncState)
    → Reached i mark table
    → Reached i mark (upsert_mark j other table)
unfolding upsert_mark get_history_high_water_mark
Reached-upsert_mark i j mark other table (s, f, le) = elim (Bool-cases (str_eq i j)) [
  | inl same ↦
      let e : i ≡ j = (eq_iff i j).0 same in
      let (s', f', e') = upsert_mark-Raised j other table in
      let old : find (is_sync j) table ≡ some s = rw (sym e) f in
      (s', rw (e) f', ground (arith, e', old, le))
  | inr ne ↦ elim (Bool-cases (any (is_sync j) table)) [
    | inl there ↦ (
      s,
      rw (there) (
          find-update_where-other (is_sync j) (is_sync i) (raise_mark other) table
            (λ x h. ground (arith, ne, eq_iff x.instance_id j, eq_iff x.instance_id i, eq_iff i j))
            (λ x h. ground (arith, ne, eq_iff x.instance_id j, eq_iff x.instance_id i, eq_iff i j))
          ∙ f),
      le,
    )
    | inr fresh ↦
        let r : SyncState = record {
          instance_id = j;
          history_high_water_mark = other;
          agent_log_high_water_mark = none;
        } in
        (s, rw (fresh) (find-concat (is_sync i) table r ∙ (rw (f))), le)
  ]
]

ingest_values-keeps-Took :
    (i j : String) (values others : List JobHistory) (st : HistoryStore)
    → Took i values st
    → Took i values (ingest_values j others st).1
unfolding ingest_values
ingest_values-keeps-Took i j values [] st took = took
ingest_values-keeps-Took i j values (x ∷ others) st (held, reached) = (
  λ v m. insert_history-keeps st.job_history (x ∷ others) v (held v m),
  elim reached [
    | inl e ↦ inl e
    | inr r ↦
        inr (Reached-upsert_mark i j (batch_max values) (batch_max (x ∷ others)) st.sync_state r)
  ],
)

ingest_batches-Took :
    (i : String) (values : List JobHistory) (batches : Batches) (st : HistoryStore)
    → Took i values st
    → Took i values (ingest_batches batches st)
unfolding ingest_batches ingest_history
ingest_batches-Took i values [] st took = took
ingest_batches-Took i values ((j, rows) ∷ batches) st took =
    ingest_batches-Took i values batches (ingest_history j rows st).1
      (ingest_values-keeps-Took i j values (history_values j rows) st took)

ingest_values-taken :
    (i : String) (values : List JobHistory) (st : HistoryStore)
    → Took i values st
    → ((ingest_values i values st).0.inserted ≡ 0)
      × ((ingest_values i values st).0.new_runs ≡ [])
      × ((ingest_values i values st).1.job_history ≡ st.job_history)
      × ((ingest_values i values st).1.sync_state ≡ st.sync_state)
unfolding ingest_values
ingest_values-taken i [] st took = (refl, refl, refl, refl)
ingest_values-taken i (x ∷ values) st (held, reached) =
    let idle = insert_history-held st.job_history (x ∷ values) held in
    elim reached [
      | inl e ↦ absurd (ground (arith, e))
      | inr (s, f, le) ↦ (
        rw (idle),
        rw (idle),
        rw (idle),
        upsert_mark-reached i (batch_max (x ∷ values)) st.sync_state s f le,
      )
    ]

-- A batch that is sent again, whatever batches of whatever instances were ingested since: no row is inserted, no run
-- counts as new, and the history and the marks are as they were.
pub ingest_history_replayed :
    (i : String) (rows : List HistoryRow) (since : Batches) (st : HistoryStore)
    → let now = ingest_batches since (ingest_history i rows st).1 in
      let again = ingest_history i rows now in
      (again.0.inserted ≡ 0)
      × (again.0.new_runs ≡ [])
      × (again.1.job_history ≡ now.job_history)
      × (again.1.sync_state ≡ now.sync_state)
unfolding ingest_history
ingest_history_replayed i rows since st =
    ingest_values-taken i (history_values i rows)
      (ingest_batches since (ingest_history i rows st).1)
      (ingest_batches-Took i (history_values i rows) since (ingest_history i rows st).1
        (ingest_values-Took i (history_values i rows) st))

ingest_values_again :
    (i : String) (values : List JobHistory) (st : HistoryStore)
    → (ingest_values i values (ingest_values i values st).1).1 ≡ (ingest_values i values st).1
unfolding ingest_values
ingest_values_again i [] st = refl
ingest_values_again i (x ∷ values) st =
    let table = (insert_history st.job_history (x ∷ values)).0 in
    let (held, reached) = ingest_values-Took i (x ∷ values) st in
    let idle = insert_history-held table (x ∷ values) held in
    let (s, f, e) = upsert_mark-Raised i (batch_max (x ∷ values)) st.sync_state in
    let mark =
      upsert_mark-reached i (batch_max (x ∷ values)) (ingest_values i (x ∷ values) st).1.sync_state
        s f (omega (arith, e)) in
    rw (
      idle,
      mark,
      refresh_last_run_summary-again table i (unique [] (map (λ v. v.job_uuid) (x ∷ values)))
          st.jobs,
    )

-- A batch that is sent again at once changes nothing at all.
pub ingest_history_again :
    (i : String) (rows : List HistoryRow) (st : HistoryStore)
    → (ingest_history i rows (ingest_history i rows st).1).1 ≡ (ingest_history i rows st).1
unfolding ingest_history
ingest_history_again i rows st = ingest_values_again i (history_values i rows) st
