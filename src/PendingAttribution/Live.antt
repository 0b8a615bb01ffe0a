-- ===== src/PendingAttribution/Live.antt =====
-- packages/worker/src/pending-attribution.ts: which entries are found, and how long one can stay.
use remote_sql_agent.Prelude.{
  ℕ, ◌+◌, ◌<◌, ltb, ◌≡◌, refl, sym, ap, ◌∙◌, ◌⊎◌, inl, inr, if◌then◌else◌, Bool, Bool-cases, true,
  false, String, str_eq, eq_iff, Option, Option-cases, none, some, List, [], ◌∷◌, ◌++◌, filter,
  find, Elem-filter, All, All-of, All-concat, All-update_where, any, any-append, any-find,
  update_where, find-update_where-other, find-concat, arith,
}
use remote_sql_agent.PendingAttribution.{
  Entry, PendingAttributionMap, is_of, is_live, sweep, put, set, get,
}

-- No two entries are of one job.
abbrev pub AreDistinct : List Entry → Type 0
AreDistinct [] = Unit
AreDistinct (e ∷ es) = (any (is_of e.job_uuid) es ≡ false) × AreDistinct es

get-put : (e : Entry) (es : List Entry) → find (is_of e.job_uuid) (put e es) ≡ some e
get-put e es = elim (Option-cases (find (is_of e.job_uuid) es)) [
  | inl f ↦
      let there : any (is_of e.job_uuid) es ≡ false = any-find (is_of e.job_uuid) es ∙ (rw f) in
      rw (there)
        (find-concat (is_of e.job_uuid) es e ∙ ground (arith, f, eq_iff e.job_uuid e.job_uuid))
  | inr (x, f) ↦
      let there : any (is_of e.job_uuid) es ≡ true = any-find (is_of e.job_uuid) es ∙ (rw f) in
      rw (there) (find-updated e es x f)
]
  where
    find-updated :
        (e : Entry) (es : List Entry) (x : Entry)
        → find (is_of e.job_uuid) es ≡ some x
        → find (is_of e.job_uuid) (update_where (is_of e.job_uuid) (λ y. e) es) ≡ some e
    find-updated e [] x f = absurd (cc)
    find-updated e (y ∷ es) x f = elim (Bool-cases (is_of e.job_uuid y)) [
      | inl hit ↦ ground (arith, hit, eq_iff e.job_uuid e.job_uuid)
      | inr miss ↦ ground (arith, miss, find-updated e es x (ground (arith, miss, f)))
    ]

find-put-other :
    (e : Entry) (u : String) (es : List Entry)
    → str_eq e.job_uuid u ≡ false
    → find (is_of u) (put e es) ≡ find (is_of u) es
find-put-other e u es ne = elim (Bool-cases (any (is_of e.job_uuid) es)) [
  | inl there ↦ rw (there) (
      find-update_where-other (is_of e.job_uuid) (is_of u) (λ x. e) es
        (λ x h.
          ground
            (arith, ne, eq_iff x.job_uuid e.job_uuid, eq_iff x.job_uuid u, eq_iff e.job_uuid u))
        (λ x h. ne))
  | inr fresh ↦ elim (Option-cases (find (is_of u) es)) [
    | inl f ↦ rw (fresh) (find-concat (is_of u) es e ∙ ground (arith, f, ne))
    | inr (x, f) ↦ rw (fresh) (find-concat (is_of u) es e ∙ ground (arith, f))
  ]
]

find-none : (u : String) (es : List Entry) → any (is_of u) es ≡ false → find (is_of u) es ≡ none
find-none u es h = elim (Option-cases (find (is_of u) es)) [
  | inl f ↦ f
  | inr (x, f) ↦ absurd (ground (arith, any-find (is_of u) es, f, h))
]

-- An entry that is found in what a filter keeps was found before; in a map without two entries of one job the filter decides
-- on that entry alone.
find-filter :
    (p : Entry → Bool) (u : String) (es : List Entry)
    → AreDistinct es
    → find (is_of u) (filter p es)
      ≡ elim (find (is_of u) es) [ none ↦ none | some e ↦ if p e then some e else none ]
find-filter p u [] d = refl
find-filter p u (x ∷ es) (apart, d) = elim (Bool-cases (is_of u x)) [
  | inl hit ↦
      let same : x.job_uuid ≡ u = (eq_iff x.job_uuid u).0 hit in
      let alone : any (is_of u) es ≡ false = rw (sym same) apart in
      ground (arith, hit, find-filter p u es d, find-none u es alone)
  | inr miss ↦ ground (arith, miss, find-filter p u es d)
]

any-filter : (p q : Entry → Bool) (es : List Entry) → any q es ≡ false → any q (filter p es) ≡ false
any-filter p q [] h = h
any-filter p q (x ∷ es) h = ground (arith, h, any-filter p q es)

AreDistinct-filter :
    (p : Entry → Bool) (es : List Entry) → AreDistinct es → AreDistinct (filter p es)
AreDistinct-filter p [] d = d
AreDistinct-filter p (x ∷ es) (apart, d) =
    ground (arith, any-filter p (is_of x.job_uuid) es apart, AreDistinct-filter p es d)

-- What is found of a job after another job's entry is set: its entry, unless its time is over by then.
abbrev pub live_command : ℕ → ℕ → Option Entry → Option String
live_command ttl now none = none
live_command ttl now (some e) = if ltb now (e.set_at + ttl) then some e.command_id else none

-- In a map with one entry to a job: after `set`, the job has the new command, and another job has what it had, unless
-- that was set longer ago than the time to live.
pub get-set :
    (job_uuid command_id u : String) (now : ℕ) (m : PendingAttributionMap)
    → AreDistinct m.entries
    → get u (set job_uuid command_id now m) ≡ (
        if str_eq job_uuid u
        then some command_id
        else live_command m.ttl_ms now (find (is_of u) m.entries))
unfolding get set sweep
get-set job_uuid command_id u now m d =
    let e : Entry = record { job_uuid = job_uuid; command_id = command_id; set_at = now } in
    let swept = filter (is_live m.ttl_ms now) m.entries in
    elim (Bool-cases (str_eq job_uuid u)) [
      | inl same ↦
          let e' : job_uuid ≡ u = (eq_iff job_uuid u).0 same in
          let found : find (is_of u) (put e swept) ≡ some e = rw (sym e') (get-put e swept) in
          rw (same, found)
      | inr other ↦ elim (Option-cases (find (is_of u) m.entries)) [
        | inl f ↦ rw (
          other,
          find-put-other e u swept other,
          find-filter (is_live m.ttl_ms now) u m.entries d,
          f,
        )
        | inr (x, f) ↦ elim (Bool-cases (is_live m.ttl_ms now x)) [
          | inl live ↦ rw (
            other,
            find-put-other e u swept other,
            find-filter (is_live m.ttl_ms now) u m.entries d,
            f,
            live,
          )
          | inr over ↦ rw (
            other,
            find-put-other e u swept other,
            find-filter (is_live m.ttl_ms now) u m.entries d,
            f,
            over,
          )
        ]
      ]
    ]

-- Each entry is younger than the time to live, or was set just now.
abbrev pub IsRecent : ℕ → ℕ → Entry → Type 0
IsRecent ttl now e = (now < e.set_at + ttl) ⊎ (e.set_at ≡ now)

live-recent : (ttl now : ℕ) (e : Entry) → is_live ttl now e ≡ true → now < e.set_at + ttl
live-recent ttl now e h = ground (arith, h)

All-put : (P : Entry → Type 0) (e : Entry) (es : List Entry) → P e → All P es → All P (put e es)
All-put P e es p a = elim (Bool-cases (any (is_of e.job_uuid) es)) [
  | inl there ↦ rw (there) (All-update_where P (is_of e.job_uuid) (λ x. e) es (λ x f q. p) a)
  | inr fresh ↦ rw (fresh) (All-concat P es e a p)
]

any-updated :
    (e : Entry) (u : String) (es : List Entry)
    → any (is_of u) (update_where (is_of e.job_uuid) (λ x. e) es) ≡ any (is_of u) es
any-updated e u [] = refl
any-updated e u (x ∷ es) = elim (Bool-cases (is_of e.job_uuid x)) [
  | inl hit ↦
      let same : x.job_uuid ≡ e.job_uuid = (eq_iff x.job_uuid e.job_uuid).0 hit in
      let both : is_of u x ≡ is_of u e = ap (λ w. str_eq w u) same in ground (arith, hit, both)
  | inr miss ↦ ground (arith, miss, any-updated e u es)
]

AreDistinct-updated :
    (e : Entry) (es : List Entry)
    → AreDistinct es
    → AreDistinct (update_where (is_of e.job_uuid) (λ x. e) es)
AreDistinct-updated e [] d = d
AreDistinct-updated e (x ∷ es) (apart, d) = elim (Bool-cases (is_of e.job_uuid x)) [
  | inl hit ↦
      let same : x.job_uuid ≡ e.job_uuid = (eq_iff x.job_uuid e.job_uuid).0 hit in
      rw (hit) (ap (λ w. any (is_of w) es) (sym same) ∙ apart, d)
  | inr miss ↦ rw (miss) (any-updated e x.job_uuid es ∙ apart, AreDistinct-updated e es d)
]

AreDistinct-concat :
    (e : Entry) (es : List Entry)
    → any (is_of e.job_uuid) es ≡ false
    → AreDistinct es
    → AreDistinct (es ++ e ∷ [])
AreDistinct-concat e [] fresh d = (refl, tt)
AreDistinct-concat e (x ∷ es) fresh (apart, d) =
    let ih = AreDistinct-concat e es (ground (arith, fresh)) d in
    let other : is_of x.job_uuid e ≡ false =
      ground (arith, fresh, eq_iff x.job_uuid e.job_uuid, eq_iff e.job_uuid x.job_uuid) in
    (any-append (is_of x.job_uuid) es (e ∷ []) ∙ ground (arith, apart, other), ih)

AreDistinct-put : (e : Entry) (es : List Entry) → AreDistinct es → AreDistinct (put e es)
AreDistinct-put e es d = elim (Bool-cases (any (is_of e.job_uuid) es)) [
  | inl there ↦ rw (there) (AreDistinct-updated e es d)
  | inr fresh ↦ rw (fresh) (AreDistinct-concat e es fresh d)
]

-- After `set` nothing is left whose time is over: each entry is younger than the time to live, or is the new one; and there
-- is still one entry to a job.
pub set_bounded :
    (job_uuid command_id : String) (now : ℕ) (m : PendingAttributionMap)
    → AreDistinct m.entries
    → AreDistinct (set job_uuid command_id now m).entries
      × All (IsRecent m.ttl_ms now) (set job_uuid command_id now m).entries
unfolding set sweep
set_bounded job_uuid command_id now m d =
    let e : Entry = record { job_uuid = job_uuid; command_id = command_id; set_at = now } in
    let swept = filter (is_live m.ttl_ms now) m.entries in
    (
      AreDistinct-put e swept (AreDistinct-filter (is_live m.ttl_ms now) m.entries d),
      All-put (IsRecent m.ttl_ms now) e swept (inr refl) (
          All-of (IsRecent m.ttl_ms now) swept (λ x h.
            inl (
              live-recent m.ttl_ms now x
                ((Elem-filter (is_live m.ttl_ms now) x m.entries).0 h).1))),
    )
