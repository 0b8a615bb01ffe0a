-- ===== src/Ingest/Reported.antt =====
-- packages/server/src/domain/ingest.ts: what the table of activity holds after an update.
use remote_sql_agent.Prelude.{
  ℕ, ◌≡◌, refl, sym, ◌∙◌, inl, inr, if◌then◌else◌, Bool-cases, true, false, ◌&&◌, String, str_eq,
  eq_iff, Option, Option-cases, none, some, List, [], ◌∷◌, find, find-some, find_last, any,
  any-find, find-update_where, find-update_where-other, find-concat, arith,
}
use remote_sql_agent.Ingest.Activity.{
  ActivityRow, JobActivity, ActivityStore, is_activity_of, activity_value, upsert_row, upsert_one,
  upsert_activity,
}

same_row :
    (a x : JobActivity)
    → x.instance_id ≡ a.instance_id
    → x.job_uuid ≡ a.job_uuid
    → some (record a { instance_id = x.instance_id; job_uuid = x.job_uuid }) ≡ some a
same_row a x p q = λ i. some (record a { instance_id = p i; job_uuid = q i })

find-upsert_row :
    (a : JobActivity) (table : List JobActivity)
    → find (is_activity_of a.instance_id a.job_uuid) (upsert_row a table) ≡ some a
unfolding upsert_row
find-upsert_row a table =
    let this = is_activity_of a.instance_id a.job_uuid in
    elim (Option-cases (find this table)) [
      | inl f ↦
          let there : any this table ≡ false = any-find this table ∙ (rw f) in
          rw (there) (
            find-concat this table a
            ∙ ground (arith, f, eq_iff a.instance_id a.instance_id, eq_iff a.job_uuid a.job_uuid))
      | inr (x, f) ↦
          let there : any this table ≡ true = any-find this table ∙ (rw f) in
          let change =
            λ (b : JobActivity). record a { instance_id = b.instance_id; job_uuid = b.job_uuid } in
          let (m, own) = find-some this x table f in
          let i-same : x.instance_id ≡ a.instance_id =
            ground (arith, own, eq_iff x.instance_id a.instance_id) in
          let u-same : x.job_uuid ≡ a.job_uuid =
            ground (arith, own, eq_iff x.job_uuid a.job_uuid) in
          rw (there)
            (find-update_where this change table x (λ b. refl) f ∙ same_row a x i-same u-same)
    ]

find-upsert_row-other :
    (a : JobActivity) (i u : String) (table : List JobActivity)
    → is_activity_of i u a ≡ false
    → find (is_activity_of i u) (upsert_row a table) ≡ find (is_activity_of i u) table
unfolding upsert_row
find-upsert_row-other a i u table ne =
    let this = is_activity_of a.instance_id a.job_uuid in
    let apart : (x : JobActivity) → this x ≡ true → is_activity_of i u x ≡ false = λ x h. ground (
      arith,
      ne,
      eq_iff x.instance_id a.instance_id,
      eq_iff x.job_uuid a.job_uuid,
      eq_iff x.instance_id i,
      eq_iff x.job_uuid u,
      eq_iff a.instance_id i,
      eq_iff a.job_uuid u,
    ) in
    elim (Bool-cases (any this table)) [
      | inl there ↦ rw (there) (
          find-update_where-other this (is_activity_of i u)
            (λ (b : JobActivity). record a { instance_id = b.instance_id; job_uuid = b.job_uuid })
            table apart apart)
      | inr fresh ↦ elim (Option-cases (find (is_activity_of i u) table)) [
        | inl f ↦ rw (fresh) (find-concat (is_activity_of i u) table a ∙ ground (arith, f, ne))
        | inr (x, f) ↦ rw (fresh) (find-concat (is_activity_of i u) table a ∙ ground (arith, f))
      ]
    ]

find-upsert_one :
    (instance_id : String) (now : ℕ) (r : ActivityRow) (st : ActivityStore) (i u : String)
    → i ≡ instance_id
    → r.job_uuid ≡ u
    → find (is_activity_of i u) (upsert_one instance_id now r st).job_activity
      ≡ some (activity_value instance_id now r)
unfolding upsert_one activity_value
find-upsert_one instance_id now r st i u p q =
    rw (p, sym q) (find-upsert_row (activity_value instance_id now r) st.job_activity)

find-upsert_one-other :
    (instance_id : String) (now : ℕ) (r : ActivityRow) (st : ActivityStore) (i u : String)
    → (str_eq instance_id i && str_eq r.job_uuid u) ≡ false
    → find (is_activity_of i u) (upsert_one instance_id now r st).job_activity
      ≡ find (is_activity_of i u) st.job_activity
unfolding upsert_one activity_value
find-upsert_one-other instance_id now r st i u ne =
    find-upsert_row-other (activity_value instance_id now r) i u st.job_activity ne

-- What the table holds of a job after an update: the last row of the update for that job, and what it held before where the
-- update has none.
abbrev pub last_reported :
    String → ℕ → String → List ActivityRow → Option JobActivity → Option JobActivity
last_reported instance_id now job_uuid rows old =
    elim (find_last (λ r. str_eq r.job_uuid job_uuid) rows) [
      | none ↦ old
      | some r ↦ some (activity_value instance_id now r)
    ]

-- After an update of an instance's activity, each job of the instance has the last row that the update carries for it, or what
-- it had before if there is none; the jobs of other instances have what they had.
pub find-upsert_activity :
    (instance_id : String) (now : ℕ) (rows : List ActivityRow) (st : ActivityStore) (i u : String)
    → find (is_activity_of i u) (upsert_activity instance_id now rows st).job_activity ≡ (
        if str_eq i instance_id
        then last_reported instance_id now u rows (find (is_activity_of i u) st.job_activity)
        else find (is_activity_of i u) st.job_activity)
unfolding upsert_activity
find-upsert_activity instance_id now [] st i u = elim (Bool-cases (str_eq i instance_id)) [
  | inl same ↦ rw (same)
  | inr other ↦ rw (other)
]
find-upsert_activity instance_id now (r ∷ rows) st i u =
    let ih = find-upsert_activity instance_id now rows (upsert_one instance_id now r st) i u in
    elim (Bool-cases (str_eq i instance_id)) [
      | inr other ↦
          ih
          ∙ (rw (other) (
              find-upsert_one-other instance_id now r st i u
                (ground (arith, other, eq_iff instance_id i, eq_iff i instance_id))))
      | inl same ↦ elim (Bool-cases (str_eq r.job_uuid u)) [
        | inl hit ↦
            let here =
              find-upsert_one instance_id now r st i u ((eq_iff i instance_id).0 same)
                ((eq_iff r.job_uuid u).0 hit) in
            ih ∙ ground (arith, same, hit, here)
        | inr miss ↦
            let here = find-upsert_one-other instance_id now r st i u (ground (arith, miss)) in
            ih ∙ ground (arith, same, miss, here)
      ]
    ]
