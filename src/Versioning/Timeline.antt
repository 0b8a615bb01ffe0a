-- ===== src/Versioning/Timeline.antt =====
-- packages/server/src/domain/versioning.ts: the version timeline of a job, and the row that summarises it.
use remote_sql_agent.Prelude.{
  ℕ, zero, suc, ◌≡◌, refl, sym, ap, ◌∙◌, subst, ◌↔◌, if◌then◌else◌, Bool, true, false, String,
  str_eq, eq_iff, Option, none, some, List, [], ◌∷◌, ◌++◌, map, filter, find, arith,
}
use remote_sql_agent.Job.{JobDefinition}
use remote_sql_agent.Versioning.{
  JobVersionOrigin, JobRow, VersionRow, VersionStore, RecordVersionInput, is_job, is_version_of,
  version_row, set_columns,
}

-- 1 to n, in order.
abbrev pub upto : ℕ → List ℕ
upto zero = []
upto (suc n) = upto n ++ suc n ∷ []

abbrev pub last_hash : List VersionRow → Option String
last_hash [] = none
last_hash (v ∷ vs) = elim (last_hash vs) [ none ↦ some v.definition_hash | some h ↦ some h ]

abbrev pub history : VersionStore → String → String → List VersionRow
history st instance_id job_uuid = filter (is_version_of instance_id job_uuid) st.job_versions

-- A job without a row has no version; the versions of a job with a row are numbered from 1 to its current number
-- without a gap, and the newest has the current hash.
abbrev pub Tracks : Option JobRow → List VersionRow → Type 0
Tracks none vs = vs ≡ []
Tracks (some j) vs =
    (map (λ v. v.version_no) vs ≡ upto j.current_version_no)
    × (last_hash vs ≡ j.current_definition_hash)

-- This holds of each job of each instance.
abbrev pub Inv : VersionStore → Type 0
Inv st =
    (instance_id job_uuid : String)
    → Tracks (find (is_job instance_id job_uuid) st.jobs) (history st instance_id job_uuid)

pub filter-concat :
    {A : Type 0} (p : A → Bool) (xs : List A) (x : A)
    → filter p (xs ++ x ∷ []) ≡ filter p xs ++ (if p x then x ∷ [] else [])
filter-concat p [] x = ground arith
filter-concat p (y ∷ xs) x = ground (arith, filter-concat p xs x)

pub filter-concat-other :
    {A : Type 0} (p : A → Bool) (xs : List A) (x : A)
    → p x ≡ false
    → filter p (xs ++ x ∷ []) ≡ filter p xs
filter-concat-other p [] x h = ground (arith, h)
filter-concat-other p (y ∷ xs) x h = ground (arith, filter-concat-other p xs x h)

pub find-concat-other :
    {A : Type 0} (p : A → Bool) (xs : List A) (x : A)
    → p x ≡ false
    → find p (xs ++ x ∷ []) ≡ find p xs
find-concat-other p [] x h = ground (arith, h)
find-concat-other p (y ∷ xs) x h = ground (arith, find-concat-other p xs x h)

pub is_job_iff :
    (i u : String) (j : JobRow) → (is_job i u j ≡ true) ↔ ((j.instance_id ≡ i) × (j.job_uuid ≡ u))
is_job_iff i u j = ground (arith, eq_iff j.instance_id i, eq_iff j.job_uuid u)

pub numbers-concat :
    (vs : List VersionRow) (v : VersionRow)
    → map (λ x. x.version_no) (vs ++ v ∷ []) ≡ map (λ x. x.version_no) vs ++ v.version_no ∷ []
numbers-concat [] v = refl
numbers-concat (x ∷ vs) v = rw (numbers-concat vs v)

pub last_hash-concat :
    (vs : List VersionRow) (v : VersionRow) → last_hash (vs ++ v ∷ []) ≡ some v.definition_hash
last_hash-concat [] v = refl
last_hash-concat (x ∷ vs) v = rw (last_hash-concat vs v)

pub same_text : (s : String) → str_eq s s ≡ true
same_text s = (eq_iff s s).1 refl

-- The next version on top of a tracked history.
pub Tracks-concat :
    (j : JobRow) (vs : List VersionRow) (input : RecordVersionInput) (d : JobDefinition)
    (origin : JobVersionOrigin) (drift : Bool) (n : ℕ)
    → map (λ v. v.version_no) vs ≡ upto n
    → Tracks
        (some (set_columns input d (suc n) drift j))
        (vs ++ version_row input d (suc n) origin ∷ [])
Tracks-concat j vs input d origin drift n h = (
  numbers-concat vs (version_row input d (suc n) origin) ∙ ap (λ l. l ++ suc n ∷ []) h,
  last_hash-concat vs (version_row input d (suc n) origin),
)

pub Tracks-eq :
    {o o' : Option JobRow} {vs vs' : List VersionRow}
    → o ≡ o'
    → vs ≡ vs'
    → Tracks o' vs'
    → Tracks o vs
Tracks-eq {o' = o'} {vs = vs} e f t =
    subst (λ x. Tracks x vs) (sym e) (subst (λ x. Tracks o' x) (sym f) t)
