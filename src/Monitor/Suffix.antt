-- ===== src/Monitor/Suffix.antt =====
-- packages/worker/src/sql/agent-repo.ts: batches of a table in the order of its identity, as suffixes of it.
use remote_sql_agent.Prelude.{
  ℕ, zero, suc, ◌≤◌, ◌<◌, ltb, max, ◌≡◌, refl, sym, ap, subst, ◌∙◌, inl, inr, Bool, Bool-cases,
  true, false, String, Option, Option-cases, none, some, is_some, List, [], ◌∷◌, ◌++◌, filter, take,
  drop, length, All, arith,
}
use remote_sql_agent.Monitor.Reading.{SysJobHistory, HistoryRecord, is_above, record_at, records}
use remote_sql_agent.Monitor.Polls.{max_id}

abbrev pub IsAscending : List SysJobHistory → Type 0
IsAscending [] = Unit
IsAscending (h ∷ hs) = All (λ k. h.instance_id < k.instance_id) hs × IsAscending hs

abbrev pub HasTimes : (ℕ → ℕ → Option ℕ) → List SysJobHistory → Type 0
HasTimes agent_datetime hs = All (λ h. is_some (agent_datetime h.run_date h.run_time) ≡ true) hs

-- The greatest identity of a list of rows.
abbrev pub top_id : List SysJobHistory → ℕ
top_id [] = 0
top_id (h ∷ hs) = max h.instance_id (top_id hs)

pub All-filter :
    {A : Type 0} (P : A → Type 0) (p : A → Bool) (xs : List A) → All P xs → All P (filter p xs)
All-filter P p [] h = tt
All-filter P p (x ∷ xs) (h, hs) = elim (Bool-cases (p x)) [
  | inl e ↦ rw (e) (h, All-filter P p xs hs)
  | inr e ↦ rw (e) (All-filter P p xs hs)
]

pub All-take : {A : Type 0} (P : A → Type 0) (n : ℕ) (xs : List A) → All P xs → All P (take n xs)
All-take P zero xs h = tt
All-take P (suc n) [] h = tt
All-take P (suc n) (x ∷ xs) (h, hs) = (h, All-take P n xs hs)

pub filter-IsAscending :
    (mark : ℕ) (hs : List SysJobHistory) → IsAscending hs → IsAscending (filter (is_above mark) hs)
filter-IsAscending mark [] a = tt
filter-IsAscending mark (h ∷ hs) (above, a) = elim (Bool-cases (is_above mark h)) [
  | inl e ↦ rw (e) (
    All-filter (λ k. h.instance_id < k.instance_id) (is_above mark) hs above,
    filter-IsAscending mark hs a,
  )
  | inr e ↦ rw (e) (filter-IsAscending mark hs a)
]

filter-kept :
    (mark : ℕ) (hs : List SysJobHistory)
    → All (λ k. mark < k.instance_id) hs
    → filter (is_above mark) hs ≡ hs
filter-kept mark [] h = refl
filter-kept mark (k ∷ hs) (lt, h) = ground (arith, lt, filter-kept mark hs h)

top-le :
    (mark n : ℕ) (h : SysJobHistory) (hs : List SysJobHistory)
    → mark < h.instance_id
    → mark < top_id (take (suc n) (h ∷ hs))
top-le mark n h hs lt = omega (arith, lt)

filter-own :
    (t : ℕ) (h : SysJobHistory) (hs : List SysJobHistory)
    → t ≡ h.instance_id
    → All (λ k. h.instance_id < k.instance_id) hs
    → filter (is_above t) (h ∷ hs) ≡ hs
filter-own t h hs e above =
    subst (λ m. filter (is_above m) (h ∷ hs) ≡ hs) (sym e)
      (ground (arith, filter-kept h.instance_id hs above))

-- What lies above the greatest identity of the first rows is what follows them.
filter-top :
    (n : ℕ) (h : SysJobHistory) (hs : List SysJobHistory)
    → IsAscending (h ∷ hs)
    → filter (is_above (top_id (take (suc n) (h ∷ hs)))) (h ∷ hs) ≡ drop n hs
filter-top zero h hs (above, a) = filter-own (max h.instance_id 0) h hs (omega arith) above
filter-top (suc n) h [] (above, a) = filter-own (max h.instance_id 0) h [] (omega arith) tt
filter-top (suc n) h (k ∷ hs) ((lt, above), a) =
    let t = top_id (take (suc n) (k ∷ hs)) in
    let over : max h.instance_id t ≡ t = omega (arith, lt) in
    let low : ltb t h.instance_id ≡ false = ground (arith, lt) in
    let below : filter (is_above t) (h ∷ k ∷ hs) ≡ filter (is_above t) (k ∷ hs) = rw (low) refl in
    subst (λ m. filter (is_above m) (h ∷ k ∷ hs) ≡ drop n hs) (sym over)
      (below ∙ filter-top n k hs a)

filter-filter :
    (mark mark' : ℕ) (hs : List SysJobHistory)
    → mark ≤ mark'
    → filter (is_above mark') hs ≡ filter (is_above mark') (filter (is_above mark) hs)
filter-filter mark mark' [] le = refl
filter-filter mark mark' (h ∷ hs) le = ground (arith, le, filter-filter mark mark' hs le)

-- After a batch that is not empty, what lies above its greatest identity is what lay above the mark, without the batch.
pub filter-batch :
    (mark n : ℕ) (table : List SysJobHistory) (h : SysJobHistory) (hs : List SysJobHistory)
    → IsAscending table
    → filter (is_above mark) table ≡ h ∷ hs
    → (mark < top_id (take (suc n) (h ∷ hs)))
      × (filter (is_above (top_id (take (suc n) (h ∷ hs)))) table ≡ drop n hs)
filter-batch mark n table h hs a e =
    let sorted : IsAscending (h ∷ hs) = subst IsAscending e (filter-IsAscending mark table a) in
    let low : mark < h.instance_id = above mark table h hs e in
    let lt = top-le mark n h hs low in
    let mark' = top_id (take (suc n) (h ∷ hs)) in
    (
      lt,
      filter-filter mark mark' table (omega (arith, lt))
          ∙ ap (filter (is_above mark')) e
          ∙ filter-top n h hs sorted,
    )
  where
    above :
        (mark : ℕ) (xs : List SysJobHistory) (h : SysJobHistory) (hs : List SysJobHistory)
        → filter (is_above mark) xs ≡ h ∷ hs
        → mark < h.instance_id
    above mark [] h hs e = absurd (cc)
    above mark (x ∷ xs) h hs e = elim (Bool-cases (is_above mark x)) [
      | inl k ↦ ground (arith, k, e)
      | inr k ↦ above mark xs h hs (ground (arith, k, e))
    ]

module _ (agent_datetime : ℕ → ℕ → Option ℕ) (to_lower_case : String → String) where
  abbrev recorded : List SysJobHistory → List HistoryRecord
  recorded hs = records agent_datetime to_lower_case hs

  recorded-some :
      (x : SysJobHistory) (hs : List SysJobHistory) (t : ℕ)
      → agent_datetime x.run_date x.run_time ≡ some t
      → recorded (x ∷ hs) ≡ record_at agent_datetime to_lower_case x t ∷ recorded hs
  unfolding records
  recorded-some x hs t e = rw (e, records)

  recorded-none :
      (x : SysJobHistory) (hs : List SysJobHistory)
      → agent_datetime x.run_date x.run_time ≡ none
      → recorded (x ∷ hs) ≡ recorded hs
  unfolding records
  recorded-none x hs e = rw (e, records)

  pub records-length :
      (hs : List SysJobHistory)
      → HasTimes agent_datetime hs
      → (length (recorded hs) ≡ length hs) × (max_id (recorded hs) ≡ top_id hs)
  unfolding records max_id
  records-length [] h = (refl, refl)
  records-length (x ∷ hs) (t, h) = elim (Option-cases (agent_datetime x.run_date x.run_time)) [
    | inl e ↦ absurd (ground (arith, e, t))
    | inr (a, e) ↦
        let (l, m) = records-length hs h in
        let one = recorded-some x hs a e in
        (ap length one ∙ ap suc l, ap max_id one ∙ ap (max x.instance_id) m)
  ]

  pub records-append :
      (xs ys : List SysJobHistory) → recorded (xs ++ ys) ≡ recorded xs ++ recorded ys
  unfolding records
  records-append [] ys = refl
  records-append (x ∷ xs) ys = elim (Option-cases (agent_datetime x.run_date x.run_time)) [
    | inl e ↦
        recorded-none x (xs ++ ys) e
        ∙ records-append xs ys
        ∙ ap (λ z. z ++ recorded ys) (sym (recorded-none x xs e))
    | inr (a, e) ↦
        recorded-some x (xs ++ ys) a e
        ∙ ap (λ z. record_at agent_datetime to_lower_case x a ∷ z) (records-append xs ys)
        ∙ ap (λ z. z ++ recorded ys) (sym (recorded-some x xs a e))
  ]
