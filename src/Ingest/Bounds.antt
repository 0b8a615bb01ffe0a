-- ===== src/Ingest/Bounds.antt =====
-- packages/server/src/domain/ingest.ts: what holds of the history and the marks whatever was ingested.
use remote_sql_agent.Prelude.{
  ℕ, ◌≤◌, ◌≡◌, refl, ap, ◌∙◌, ◌⊎◌, inl, inr, Bool-cases, false, String, str_eq, eq_iff,
  Option-cases, List, [], ◌∷◌, ◌++◌, Elem, Elem-append, All, All-Elem, All-of, any-append, arith,
}
use remote_sql_agent.Ingest.Tables.{HistoryRow, JobHistory, SyncState, HistoryStore}
use remote_sql_agent.Ingest.History.{
  is_run, is_held, from_timestamp, history_value, insert_history, get_history_high_water_mark,
  batch_max, upsert_mark, ingest_values, history_values, ingest_history,
}
use remote_sql_agent.Ingest.Kept.{upsert_mark-Raised, upsert_mark-others}

-- No two rows of an instance have the same identity in msdb.
abbrev pub AreDistinct : List JobHistory → Type 0
AreDistinct [] = Unit
AreDistinct (h ∷ hs) = (is_held hs h ≡ false) × AreDistinct hs

-- The mark of a row's instance is at least the row's identity in msdb.
abbrev pub IsMarked : List SyncState → JobHistory → Type 0
IsMarked sync h = h.sql_instance_id ≤ get_history_high_water_mark sync h.instance_id

abbrev pub Inv : HistoryStore → Type 0
Inv st = AreDistinct st.job_history × All (IsMarked st.sync_state) st.job_history

AreDistinct-concat :
    (hs : List JobHistory) (h : JobHistory)
    → AreDistinct hs
    → is_held hs h ≡ false
    → AreDistinct (hs ++ h ∷ [])
AreDistinct-concat [] h d free = (refl, tt)
AreDistinct-concat (x ∷ hs) h (apart, d) free =
    let others : is_held hs h ≡ false = ground (arith, free) in
    let this : is_run x.instance_id x.sql_instance_id h ≡ false =
      ground
        (arith, free, eq_iff x.instance_id h.instance_id, eq_iff h.instance_id x.instance_id) in
    (
      any-append (is_run x.instance_id x.sql_instance_id) hs (h ∷ []) ∙ ground (arith, apart, this),
      AreDistinct-concat hs h d others,
    )

insert_history-AreDistinct :
    (table values : List JobHistory)
    → AreDistinct table
    → AreDistinct (insert_history table values).0
unfolding insert_history
insert_history-AreDistinct table [] d = d
insert_history-AreDistinct table (x ∷ values) d = elim (Bool-cases (is_held table x)) [
  | inl held ↦ rw (held) (insert_history-AreDistinct table values d)
  | inr free ↦
      rw (free)
        (insert_history-AreDistinct (table ++ x ∷ []) values (AreDistinct-concat table x d free))
]

-- A row of the new table was there or is one of the batch.
insert_history-from :
    (table values : List JobHistory) (h : JobHistory)
    → Elem h (insert_history table values).0
    → Elem h table ⊎ Elem h values
unfolding insert_history
insert_history-from table [] h m = inl m
insert_history-from table (x ∷ values) h m = elim (Bool-cases (is_held table x)) [
  | inl held ↦ ground (arith, insert_history-from table values h (rw (held) at m))
  | inr free ↦
      let m' : Elem h (insert_history (table ++ x ∷ []) values).0 = rw free at m in
      ground
        (arith, insert_history-from (table ++ x ∷ []) values h m', Elem-append h table (x ∷ []))
]

batch_max-bounds :
    (values : List JobHistory) (v : JobHistory)
    → Elem v values
    → v.sql_instance_id ≤ batch_max values
unfolding batch_max
batch_max-bounds [] v m = absurd m
batch_max-bounds (x ∷ values) v (inl e) = rw (e) (omega arith)
batch_max-bounds (x ∷ values) v (inr m) = omega (arith, batch_max-bounds values v m)

pub history_values-instance :
    (i : String) (rows : List HistoryRow) (v : JobHistory)
    → Elem v (history_values i rows)
    → v.instance_id ≡ i
unfolding history_values history_value
history_values-instance i [] v m = absurd m
history_values-instance i (r ∷ rows) v m = elim (Option-cases (from_timestamp r.run_datetime)) [
  | inl e ↦ history_values-instance i rows v (rw (e, Elem) at m)
  | inr (t, e) ↦ elim (rw (e, Elem) at m) [
    | inl same ↦ ap (λ x. x.instance_id) same
    | inr m' ↦ history_values-instance i rows v m'
  ]
]

-- A mark only goes up.
upsert_mark-monotone :
    (i other : String) (mark : ℕ) (sync : List SyncState)
    → get_history_high_water_mark sync other
      ≤ get_history_high_water_mark (upsert_mark i mark sync) other
unfolding get_history_high_water_mark
upsert_mark-monotone i other mark sync = elim (Bool-cases (str_eq other i)) [
  | inl same ↦
      let e : other ≡ i = (eq_iff other i).0 same in
      let (s, f, m) = upsert_mark-Raised i mark sync in rw (e) (ground (arith, f, m))
  | inr ne ↦
      omega
        (arith, upsert_mark-others i other mark sync (λ e. ground (arith, ne, e, eq_iff other i)))
]

ingest_values-Inv :
    (i : String) (values : List JobHistory) (st : HistoryStore)
    → ((v : JobHistory) → Elem v values → v.instance_id ≡ i)
    → Inv st
    → Inv (ingest_values i values st).1
unfolding ingest_values get_history_high_water_mark
ingest_values-Inv i [] st own inv = inv
ingest_values-Inv i (x ∷ values) st own (distinct, marked) =
    let batch = x ∷ values in
    let mark = batch_max batch in
    let sync = st.sync_state in
    let (s, f, e) = upsert_mark-Raised i mark sync in
    (
      insert_history-AreDistinct st.job_history batch distinct,
      All-of (IsMarked (upsert_mark i mark sync)) (insert_history st.job_history batch).0 (λ h m.
          elim (insert_history-from st.job_history batch h m) [
            | inl old ↦ omega (
              arith,
              All-Elem (IsMarked sync) st.job_history h marked old,
              upsert_mark-monotone i h.instance_id mark sync,
            )
            | inr new ↦ rw (own h new) (ground (arith, f, e, batch_max-bounds batch h new))
          ]),
    )

-- Ingesting a batch keeps the history: no two rows of an instance have the same identity in msdb, and none is above
-- the instance's mark.
pub ingest_history-Inv :
    (i : String) (rows : List HistoryRow) (st : HistoryStore)
    → Inv st
    → Inv (ingest_history i rows st).1
unfolding ingest_history
ingest_history-Inv i rows st inv =
    ingest_values-Inv i (history_values i rows) st (history_values-instance i rows) inv
