-- ===== src/Ingest/Kept.antt =====
-- packages/server/src/domain/ingest.ts: the history that an insert holds, and the mark, under later inserts.
use remote_sql_agent.Prelude.{
  ℕ, ◌≤◌, max, ◌≡◌, refl, ◌∙◌, inl, inr, Bool-cases, true, false, String, eq_iff, Option-cases,
  none, some, List, [], ◌∷◌, ◌++◌, find, Elem, any, any-find, any-append, update_where-same,
  find-update_where, find-update_where-other, find-concat, arith,
}
use remote_sql_agent.Ingest.Tables.{JobHistory, SyncState}
use remote_sql_agent.Ingest.History.{
  is_run, is_held, insert_history, is_sync, get_history_high_water_mark, raise_mark, upsert_mark,
}

-- What is held stays held.
pub insert_history-keeps :
    (table values : List JobHistory) (v : JobHistory)
    → is_held table v ≡ true
    → is_held (insert_history table values).0 v ≡ true
unfolding insert_history
insert_history-keeps table [] v h = h
insert_history-keeps table (x ∷ values) v h = elim (Bool-cases (is_held table x)) [
  | inl held ↦ rw (held) (insert_history-keeps table values v h)
  | inr free ↦ rw (free) (
      insert_history-keeps (table ++ x ∷ []) values v
        (any-append (is_run v.instance_id v.sql_instance_id) table (x ∷ []) ∙ ground (arith, h)))
]

is_run-own : (v : JobHistory) → is_run v.instance_id v.sql_instance_id v ≡ true
is_run-own v = ground (arith, eq_iff v.instance_id v.instance_id)

-- An insert holds each of its rows.
pub insert_history-holds :
    (table values : List JobHistory) (v : JobHistory)
    → Elem v values
    → is_held (insert_history table values).0 v ≡ true
unfolding insert_history
insert_history-holds table [] v m = absurd m
insert_history-holds table (x ∷ values) v m = elim (Bool-cases (is_held table x)) [
  | inl held ↦ elim m [
    | inl e ↦
        let there : is_held table v ≡ true = rw (e) held in
        rw (held) (insert_history-keeps table values v there)
    | inr m' ↦ rw (held) (insert_history-holds table values v m')
  ]
  | inr free ↦ elim m [
    | inl e ↦
        let own : is_run v.instance_id v.sql_instance_id x ≡ true = rw (e) (is_run-own x) in
        rw (free) (
          insert_history-keeps (table ++ x ∷ []) values v (
            any-append (is_run v.instance_id v.sql_instance_id) table (x ∷ [])
            ∙ ground (arith, own)))
    | inr m' ↦ rw (free) (insert_history-holds (table ++ x ∷ []) values v m')
  ]
]

-- Rows that are all held are not inserted.
pub insert_history-held :
    (table values : List JobHistory)
    → ((v : JobHistory) → Elem v values → is_held table v ≡ true)
    → insert_history table values ≡ (table, [])
unfolding insert_history
insert_history-held table [] held = refl
insert_history-held table (x ∷ values) held =
    rw (held x (inl refl), insert_history-held table values (λ v m. held v (inr m)))

-- A mark that is high enough already is not changed.
pub upsert_mark-reached :
    (instance_id : String) (mark : ℕ) (table : List SyncState) (s : SyncState)
    → find (is_sync instance_id) table ≡ some s
    → mark ≤ s.history_high_water_mark
    → upsert_mark instance_id mark table ≡ table
unfolding upsert_mark
upsert_mark-reached instance_id mark table s f le =
    let there : any (is_sync instance_id) table ≡ true =
      any-find (is_sync instance_id) table ∙ (rw f) in
    rw (there) (
      update_where-same (is_sync instance_id) (raise_mark mark) table
        (λ r g. ground (arith, f, g, le)))

-- After an update the instance has a row, whose mark is at least the new one and the old one.
pub upsert_mark-Raised :
    (instance_id : String) (mark : ℕ) (table : List SyncState)
    → (s : SyncState) × (find (is_sync instance_id) (upsert_mark instance_id mark table) ≡ some s)
      × (s.history_high_water_mark ≡ max (get_history_high_water_mark table instance_id) mark)
unfolding upsert_mark get_history_high_water_mark
upsert_mark-Raised instance_id mark table = elim (Option-cases (find (is_sync instance_id) table)) [
  | inl e ↦
      let there : any (is_sync instance_id) table ≡ false =
        any-find (is_sync instance_id) table ∙ (rw e) in
      let fresh : SyncState = record {
        instance_id = instance_id;
        history_high_water_mark = mark;
        agent_log_high_water_mark = none;
      } in
      (
        fresh,
        rw (there) (
            find-concat (is_sync instance_id) table fresh
            ∙ ground (arith, e, eq_iff instance_id instance_id)),
        ground (arith, e),
      )
  | inr (s, e) ↦
      let there : any (is_sync instance_id) table ≡ true =
        any-find (is_sync instance_id) table ∙ (rw e) in
      (
        raise_mark mark s,
        rw (there)
            (find-update_where (is_sync instance_id) (raise_mark mark) table s (λ x. refl) e),
        ground (arith, e),
      )
]

-- The marks of other instances stay.
pub upsert_mark-others :
    (instance_id other : String) (mark : ℕ) (table : List SyncState)
    → ¬ (other ≡ instance_id)
    → get_history_high_water_mark (upsert_mark instance_id mark table) other
      ≡ get_history_high_water_mark table other
unfolding upsert_mark get_history_high_water_mark
upsert_mark-others instance_id other mark table ne =
    elim (Bool-cases (any (is_sync instance_id) table)) [
      | inl there ↦ rw (
        there,
        find-update_where-other (is_sync instance_id) (is_sync other) (raise_mark mark) table
            (λ x h. ground (arith, eq_iff x.instance_id instance_id, eq_iff x.instance_id other))
            (λ x h. ground (arith, eq_iff x.instance_id instance_id, eq_iff x.instance_id other)),
      )
      | inr fresh ↦
          let r : SyncState = record {
            instance_id = instance_id;
            history_high_water_mark = mark;
            agent_log_high_water_mark = none;
          } in
          rw (fresh, find-concat (is_sync other) table r) (ground (arith, eq_iff instance_id other))
    ]
