-- ===== src/Outbox/Hashes.antt =====
-- packages/worker/src/outbox.ts: the hash cache of an instance's definitions, a `Map<string, string>`, and its column
-- of the table of bookmarks. `JSON.stringify` of the entries and `JSON.parse` are parameters.
use remote_sql_agent.Prelude.{
  ◌≡◌, ◌≢◌, refl, ap, ◌∙◌, inl, inr, if◌then◌else◌, Bool, Bool-cases, true, false, String, str_eq,
  eq_iff, Option, Option-cases, none, some, List, [], ◌∷◌, ◌++◌, any, any-find, find, find-concat,
  find-update_where-other, update_where, arith,
}
use remote_sql_agent.Outbox.{Outbox, SyncState, sync_row, blank_sync, upsert_sync}

pub record HashEntry : Type 0 where
  pub job_uuid : String
  pub definition_hash : String

abbrev pub is_hash_of : String → HashEntry → Bool
is_hash_of job_uuid e = str_eq e.job_uuid job_uuid

abbrev hash_in : Option HashEntry → Option String
hash_in none = none
hash_in (some e) = some e.definition_hash

-- `Map.prototype.get` and `set`.
unfoldable pub get_hash : List HashEntry → String → Option String
get_hash hashes job_uuid = hash_in (find (is_hash_of job_uuid) hashes)

unfoldable pub set_hash : String → String → List HashEntry → List HashEntry
set_hash job_uuid hash hashes =
    let e : HashEntry = record { job_uuid = job_uuid; definition_hash = hash } in
    if any (is_hash_of job_uuid) hashes
    then update_where (is_hash_of job_uuid) (λ x. e) hashes
    else hashes ++ e ∷ []

module _ (stringify : List HashEntry → String) (parse : String → Option (List HashEntry)) where
  abbrev hashes_of : Option SyncState → List HashEntry
  hashes_of none = []
  hashes_of (some s) = elim s.definition_hashes [
    | none ↦ []
    | some json ↦
        if str_eq json "" then [] else elim (parse json) [ none ↦ [] | some hashes ↦ hashes ]
  ]

  unfoldable pub get_definition_hashes : Outbox → String → List HashEntry
  get_definition_hashes o name = hashes_of (sync_row o name)

  abbrev with_hashes : List HashEntry → SyncState → SyncState
  with_hashes hashes s = record s { definition_hashes = some (stringify hashes) }

  unfoldable pub set_definition_hashes : Outbox → String → List HashEntry → Outbox
  set_definition_hashes o name hashes = record o {
    sync_state = upsert_sync (with_hashes hashes) name o.sync_state;
  }

find-upsert_sync :
    (change : SyncState → SyncState) (name : String) (rows : List SyncState)
    → ((s : SyncState) → (change s).instance_name ≡ s.instance_name)
    → (s : SyncState) × (find (λ x. str_eq x.instance_name name) (upsert_sync change name rows)
        ≡ some (change s))
find-upsert_sync change name [] same =
    (blank_sync name, ground (arith, same (blank_sync name), eq_iff name name))
find-upsert_sync change name (x ∷ rows) same = elim (Bool-cases (str_eq x.instance_name name)) [
  | inl hit ↦ (x, ground (arith, hit, same x))
  | inr miss ↦ let (s, f) = find-upsert_sync change name rows same in (s, ground (arith, miss, f))
]

find-upsert_sync-other :
    (change : SyncState → SyncState) (name other : String) (rows : List SyncState)
    → ((s : SyncState) → (change s).instance_name ≡ s.instance_name)
    → name ≢ other
    → find (λ x. str_eq x.instance_name other) (upsert_sync change name rows)
      ≡ find (λ x. str_eq x.instance_name other) rows
find-upsert_sync-other change name other [] same ne =
    ground (arith, same (blank_sync name), eq_iff name other)
find-upsert_sync-other change name other (x ∷ rows) same ne =
    elim (Bool-cases (str_eq x.instance_name name)) [
      | inl hit ↦
          let apart : str_eq x.instance_name other ≡ false =
            ground (arith, hit, eq_iff x.instance_name name, eq_iff x.instance_name other) in
          ground (arith, hit, same x, apart)
      | inr miss ↦ ground (arith, miss, find-upsert_sync-other change name other rows same ne)
    ]

-- A hash cache that was stored is the one read back for the instance, where parsing gives back what was written and no
-- cache is written as the empty text; the caches of other instances stay as they were.
pub get-set_definition_hashes :
    (stringify : List HashEntry → String) (parse : String → Option (List HashEntry)) (o : Outbox)
    (name : String) (hashes : List HashEntry)
    → parse (stringify hashes) ≡ some hashes
    → stringify hashes ≢ ""
    → let o' = set_definition_hashes stringify parse o name hashes in
      (get_definition_hashes stringify parse o' name ≡ hashes)
      × ((other : String)
          → name ≢ other
          → get_definition_hashes stringify parse o' other
            ≡ get_definition_hashes stringify parse o other)
unfolding get_definition_hashes set_definition_hashes
get-set_definition_hashes stringify parse o name hashes read filled =
    let change = with_hashes stringify parse hashes in
    let (s, f) = find-upsert_sync change name o.sync_state (λ x. refl) in
    let text : str_eq (stringify hashes) "" ≡ false =
      ground (arith, filled, eq_iff (stringify hashes) "") in
    (
      rw (f, text, read),
      λ other ne.
          ap (hashes_of stringify parse)
            (find-upsert_sync-other change name other o.sync_state (λ x. refl) ne),
    )

-- The cache reads back what was set, and has what it had of other jobs.
pub get-set_hash :
    (u hash : String) (hashes : List HashEntry) → get_hash (set_hash u hash hashes) u ≡ some hash
unfolding get_hash set_hash
get-set_hash u hash hashes = elim (Option-cases (find (is_hash_of u) hashes)) [
  | inl f ↦
      let there : any (is_hash_of u) hashes ≡ false = any-find (is_hash_of u) hashes ∙ (rw f) in
      rw (
        there,
        find-concat (is_hash_of u) hashes (record { job_uuid = u; definition_hash = hash }),
        f,
        (eq_iff u u).1 refl,
      )
  | inr (x, f) ↦
      let there : any (is_hash_of u) hashes ≡ true = any-find (is_hash_of u) hashes ∙ (rw f) in
      rw (there) (ap hash_in (found hashes x f))
]
  where
    found :
        (hs : List HashEntry) (x : HashEntry)
        → find (is_hash_of u) hs ≡ some x
        → find
            (is_hash_of u)
            (update_where (is_hash_of u) (λ y. record { job_uuid = u; definition_hash = hash }) hs)
          ≡ some (record { job_uuid = u; definition_hash = hash })
    found [] x f = absurd (cc)
    found (y ∷ hs) x f = elim (Bool-cases (is_hash_of u y)) [
      | inl hit ↦ ground (arith, hit, eq_iff u u)
      | inr miss ↦ ground (arith, miss, found hs x (ground (arith, miss, f)))
    ]

pub get-set_hash-other :
    (u v hash : String) (hashes : List HashEntry)
    → u ≢ v
    → get_hash (set_hash u hash hashes) v ≡ get_hash hashes v
unfolding get_hash set_hash
get-set_hash-other u v hash hashes ne =
    let e : HashEntry = record { job_uuid = u; definition_hash = hash } in
    let apart : (x : HashEntry) → is_hash_of u x ≡ true → is_hash_of v x ≡ false =
      λ x h. ground (arith, h, eq_iff x.job_uuid u, eq_iff x.job_uuid v) in
    let off : is_hash_of v e ≡ false = ground (arith, eq_iff u v) in
    elim (Bool-cases (any (is_hash_of u) hashes)) [
      | inl there ↦ rw (there) (
          ap hash_in (
            find-update_where-other (is_hash_of u) (is_hash_of v) (λ x. e) hashes apart
              (λ x h. off)))
      | inr free ↦
          rw (free) (ap hash_in (find-concat (is_hash_of v) hashes e ∙ ground (arith, off)))
    ]
