-- ===== src/Ingest/Summary.antt =====
-- packages/server/src/domain/ingest.ts: the columns of `jobs` on the last run, against the history.
use remote_sql_agent.Prelude.{
  ◌≡◌, refl, sym, ap, subst, ◌∙◌, ◌⊎◌, inl, inr, Bool-cases, true, false, String, eq_iff,
  Option-cases, none, some, List, [], ◌∷◌, map, Elem, arith,
}
use remote_sql_agent.Ingest.Tables.{JobHistory, JobRuns}
use remote_sql_agent.Ingest.History.{
  is_before, first_run, latest_outcome, is_runs_of, set_last_run, refresh_row,
  refresh_last_run_summary,
}

-- `refreshLastRunSummary` row by row.
abbrev pub refresh_all : List JobHistory → String → List String → JobRuns → JobRuns
refresh_all table i [] j = j
refresh_all table i (u ∷ us) j = refresh_all table i us (refresh_row table i u j)

map-map : {A : Type 0} (f g : A → A) (xs : List A) → map g (map f xs) ≡ map (λ x. g (f x)) xs
map-map f g [] = refl
map-map f g (x ∷ xs) = rw (map-map f g xs)

map-same : {A : Type 0} (f : A → A) (xs : List A) → ((x : A) → f x ≡ x) → map f xs ≡ xs
map-same f [] h = refl
map-same f (x ∷ xs) h = rw (h x, map-same f xs h)

pub refresh_last_run_summary-map :
    (table : List JobHistory) (i : String) (us : List String) (jobs : List JobRuns)
    → refresh_last_run_summary table i us jobs ≡ map (refresh_all table i us) jobs
unfolding refresh_last_run_summary
refresh_last_run_summary-map table i [] jobs = sym (map-same (λ j. j) jobs (λ j. refl))
refresh_last_run_summary-map table i (u ∷ us) jobs =
    refresh_last_run_summary-map table i us (map (refresh_row table i u) jobs)
    ∙ map-map (refresh_row table i u) (refresh_all table i us) jobs

map-again :
    {A : Type 0} (f : A → A) (xs : List A) → ((x : A) → f (f x) ≡ f x) → map f (map f xs) ≡ map f xs
map-again f [] h = refl
map-again f (x ∷ xs) h = rw (h x, map-again f xs h)

-- A row is left alone, or it gets the columns of the latest outcome of its own job.
abbrev pub Refreshed : List JobHistory → String → JobRuns → JobRuns → Type 0
Refreshed table i j j' =
    (j' ≡ j)
    ⊎ ((h : JobHistory) × (latest_outcome table i j.job_uuid ≡ some h) × (j' ≡ set_last_run h j))

refresh_row-Refreshed :
    (table : List JobHistory) (i u : String) (j : JobRuns)
    → Refreshed table i j (refresh_row table i u j)
unfolding refresh_row
refresh_row-Refreshed table i u j = elim (Option-cases (latest_outcome table i u)) [
  | inl e ↦ inl (rw (e, refresh_row))
  | inr (h, e) ↦ elim (Bool-cases (is_runs_of i u j)) [
    | inl mine ↦
        let same : j.job_uuid ≡ u =
          ground (arith, mine, eq_iff j.instance_id i, eq_iff j.job_uuid u) in
        inr (h, rw (same) e, rw (e, mine, refresh_row))
    | inr other ↦ inl (rw (e, other, refresh_row))
  ]
]

-- A row that is set again has the columns of the last time.
Refreshed-then :
    (table : List JobHistory) (i : String) (j k l : JobRuns)
    → Refreshed table i j k
    → Refreshed table i k l
    → Refreshed table i j l
Refreshed-then table i j k l first second = elim first [
  | inl e ↦ rw (sym e) second
  | inr (h, f, e) ↦ elim second [
    | inl e' ↦ inr (h, f, e' ∙ e)
    | inr (h', f', e') ↦
        let same : k.job_uuid ≡ j.job_uuid = ap (λ x. x.job_uuid) e in
        inr (h', (rw same at f'), e' ∙ ap (set_last_run h') e)
  ]
]

pub refresh_all-Refreshed :
    (table : List JobHistory) (i : String) (us : List String) (j : JobRuns)
    → Refreshed table i j (refresh_all table i us j)
refresh_all-Refreshed table i [] j = inl refl
refresh_all-Refreshed table i (u ∷ us) j =
    Refreshed-then table i j (refresh_row table i u j)
      (refresh_all table i us (refresh_row table i u j)) (refresh_row-Refreshed table i u j)
      (refresh_all-Refreshed table i us (refresh_row table i u j))

-- A second refresh against the same history changes nothing.
pub refresh_all-again :
    (table : List JobHistory) (i : String) (us : List String) (j : JobRuns)
    → refresh_all table i us (refresh_all table i us j) ≡ refresh_all table i us j
refresh_all-again table i us j =
    let k = refresh_all table i us j in
    elim (refresh_all-Refreshed table i us j) [
      | inl e ↦ ap (refresh_all table i us) e
      | inr (h, f, e) ↦ elim (refresh_all-Refreshed table i us k) [
        | inl same ↦ same
        | inr (h', f', e') ↦
            let uuid : k.job_uuid ≡ j.job_uuid = ap (λ x. x.job_uuid) e in
            let one : some h' ≡ some h = sym (rw uuid at f') ∙ f in
            let h-same : h' ≡ h = ground (arith, one) in
            e' ∙ ap (set_last_run h') e ∙ ap (λ x. set_last_run x j) h-same ∙ sym e
      ]
    ]

pub refresh_last_run_summary-again :
    (table : List JobHistory) (i : String) (us : List String) (jobs : List JobRuns)
    → refresh_last_run_summary table i us (refresh_last_run_summary table i us jobs)
      ≡ refresh_last_run_summary table i us jobs
refresh_last_run_summary-again table i us jobs =
    let f = refresh_all table i us in
    let once = refresh_last_run_summary-map table i us in
    once (refresh_last_run_summary table i us jobs)
    ∙ ap (map f) (once jobs)
    ∙ map-again f jobs (refresh_all-again table i us)
    ∙ sym (once jobs)

pub first_run-none : (hs : List JobHistory) → first_run hs ≡ none → hs ≡ []
unfolding first_run
first_run-none [] e = refl
first_run-none (x ∷ hs) e = elim (Option-cases (first_run hs)) [
  | inl f ↦ absurd (ground (arith, e, f))
  | inr (k, f) ↦ absurd (ground (arith, e, f))
]

not_before-itself : (a : JobHistory) → is_before a a ≡ false
not_before-itself a = ground arith

not_before-after : (a b : JobHistory) → is_before a b ≡ true → is_before b a ≡ false
not_before-after a b h = ground (arith, h)

not_before-not_before :
    (a b c : JobHistory) → is_before a b ≡ false → is_before b c ≡ false → is_before a c ≡ false
not_before-not_before a b c h k = ground (arith, h, k)

-- The first row in descending order is not before any other.
pub first_run-latest :
    (hs : List JobHistory) (h : JobHistory)
    → first_run hs ≡ some h
    → Elem h hs × ((k : JobHistory) → Elem k hs → is_before h k ≡ false)
unfolding first_run
first_run-latest [] h e = cc
first_run-latest (x ∷ hs) h e = elim (Option-cases (first_run hs)) [
  | inl f ↦
      let same : h ≡ x = ground (arith, e, f) in
      (
        inl same,
        λ k m. elim m [
          | inl m' ↦ rw (same, m') (not_before-itself x)
          | inr m' ↦ absurd (rw (first_run-none hs f) at m')
        ],
      )
  | inr (l, f) ↦
      let (there, top) = first_run-latest hs l f in
      elim (Bool-cases (is_before x l)) [
        | inl before ↦
            let same : h ≡ l = ground (arith, e, f, before) in
            (
              inr (subst (λ z. Elem z hs) (sym same) there),
              λ k m. elim m [
                | inl m' ↦ rw (same, m') (not_before-after x l before)
                | inr m' ↦ subst (λ z. is_before z k ≡ false) (sym same) (top k m')
              ],
            )
        | inr after ↦
            let same : h ≡ x = ground (arith, e, f, after) in
            (
              inl same,
              λ k m. elim m [
                | inl m' ↦ rw (same, m') (not_before-itself x)
                | inr m' ↦
                    subst (λ z. is_before z k ≡ false) (sym same)
                      (not_before-not_before x l k after (top k m'))
              ],
            )
      ]
]
