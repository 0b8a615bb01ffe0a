-- ===== src/Monitor/Polled.antt =====
-- packages/worker/src/instance-monitor.ts: a whole `pollDefinitions`, and the poll after it.
use remote_sql_agent.Prelude.{
  ℕ, ◌≡◌, ◌≢◌, refl, sym, ap, subst, ◌∙◌, inl, inr, if◌then◌else◌, Bool, Bool-cases, true, false,
  not, String, str_eq, eq_iff, Option, some, List, [], ◌∷◌, ◌++◌, Elem, any, filter, update_where,
  arith,
}
use remote_sql_agent.Outbox.Hashes.{
  HashEntry, is_hash_of, get_hash, set_hash, get_definition_hashes, set_definition_hashes,
  get-set_definition_hashes,
}
use remote_sql_agent.Worker.Msdb.{JobDefinitionBlob}
use remote_sql_agent.Snapshots.Chunks.{Blobs}
use remote_sql_agent.Monitor.Emit.{WorkerMessage, Call, Shared, emit}
use remote_sql_agent.Monitor.Definitions.{
  Monitor, Reads, is_known, is_unchanged, delta_of, told, tell_changes, vanished, stored,
  poll_definitions,
}
use remote_sql_agent.Monitor.Told.{AreDistinct, Told, tell_changes-Told}

abbrev is_seen : Blobs → HashEntry → Bool
is_seen blobs e = any (λ b. str_eq b.job_uuid e.job_uuid) blobs

filter-concat-nil :
    {A : Type 0} (p : A → Bool) (xs : List A) (a : A)
    → filter p xs ≡ []
    → p a ≡ false
    → filter p (xs ++ a ∷ []) ≡ []
filter-concat-nil p [] a h k = ground (arith, k)
filter-concat-nil p (x ∷ xs) a h k = ground (arith, h, k, filter-concat-nil p xs a)

filter-update-nil :
    {A : Type 0} (p q : A → Bool) (xs : List A) (a : A)
    → filter p xs ≡ []
    → p a ≡ false
    → filter p (update_where q (λ x. a) xs) ≡ []
filter-update-nil p q [] a h k = refl
filter-update-nil p q (x ∷ xs) a h k = ground (arith, h, k, filter-update-nil p q xs a)

-- What is set for a job that the poll saw has not vanished.
vanished-set_hash :
    (blobs : Blobs) (hashes : List HashEntry) (u h : String)
    → any (λ b. str_eq b.job_uuid u) blobs ≡ true
    → vanished hashes blobs ≡ []
    → vanished (set_hash u h hashes) blobs ≡ []
unfolding vanished set_hash
vanished-set_hash blobs hashes u h seen v =
    let e : HashEntry = record { job_uuid = u; definition_hash = h } in
    let lost : HashEntry → Bool = λ x. not (is_seen blobs x) in
    let there : lost e ≡ false = ap not seen in
    elim (Bool-cases (any (is_hash_of u) hashes)) [
      | inl k ↦ rw (k) (filter-update-nil lost (is_hash_of u) hashes e v there)
      | inr k ↦ rw (k) (filter-concat-nil lost hashes e v there)
    ]

seen-own :
    (b : JobDefinitionBlob) (blobs : Blobs)
    → Elem b blobs
    → any (λ c. str_eq c.job_uuid b.job_uuid) blobs ≡ true
seen-own b [] m = absurd m
seen-own b (c ∷ blobs) (inl e) =
    let same : str_eq c.job_uuid b.job_uuid ≡ true =
      (eq_iff c.job_uuid b.job_uuid).1 (ap (λ x. x.job_uuid) (sym e)) in
    ground (arith, same)
seen-own b (c ∷ blobs) (inr m) = ground (arith, seen-own b blobs m)

module _ (takes : List Call → WorkerMessage → Bool) (stringify : WorkerMessage → String)
    (to_json : List HashEntry → String) (of_json : String → Option (List HashEntry)) where
  abbrev tell : ℕ → Blobs → Monitor → Shared → Monitor × Shared
  tell now blobs m w = tell_changes takes stringify to_json of_json now blobs m w

  abbrev poll : ℕ → Reads → Monitor → Shared → Monitor × Shared
  poll now reads m w = poll_definitions takes stringify to_json of_json now reads m w

  marked-vanished :
      (accepted : Bool) (b : JobDefinitionBlob) (m : Monitor) (all : Blobs)
      → Elem b all
      → vanished m.definition_hashes all ≡ []
      → vanished (if accepted then told b m else m).definition_hashes all ≡ []
  marked-vanished true b m all here v =
      vanished-set_hash all m.definition_hashes b.job_uuid b.definition_hash (seen-own b all here) v
  marked-vanished false b m all here v = v

  marked-name :
      (accepted : Bool) (b : JobDefinitionBlob) (m : Monitor)
      → (if accepted then told b m else m).instance_name ≡ m.instance_name
  marked-name true b m = refl
  marked-name false b m = refl

  pub tell-vanished :
      (now : ℕ) (blobs all : Blobs) (m : Monitor) (w : Shared)
      → ((b : JobDefinitionBlob) → Elem b blobs → Elem b all)
      → vanished m.definition_hashes all ≡ []
      → (vanished (tell now blobs m w).0.definition_hashes all ≡ [])
        × ((tell now blobs m w).0.instance_name ≡ m.instance_name)
  unfolding tell_changes
  tell-vanished now [] all m w within v = (v, refl)
  tell-vanished now (b ∷ blobs) all m w within v =
      elim (Bool-cases (is_known m.definition_hashes b)) [
        | inl e ↦ rw (e, tell_changes) (tell-vanished now blobs all m w (λ c k. within c (inr k)) v)
        | inr e ↦
            let (accepted, w') =
              emit takes stringify now (delta_of m.instance_name m.pending_attribution b) w in
            let m1 : Monitor = if accepted then told b m else m in
            let (v', n) =
              tell-vanished now blobs all m1 w' (λ c k. within c (inr k))
                (marked-vanished accepted b m all (within b (inl refl)) v) in
            rw (e, tell_changes) (v', n ∙ marked-name accepted b m)
      ]

  -- A poll that looks at the jobs and misses none of the cache: told what changed, and remembered.
  pub poll-settled :
      (now : ℕ) (reads : Reads) (m : Monitor) (w : Shared)
      → is_unchanged m.last_fingerprint reads.fingerprint ≡ false
      → vanished m.definition_hashes reads.jobs ≡ []
      → let (m', w') = tell now reads.jobs m w in
        let m'' : Monitor = record m' { last_fingerprint = some reads.fingerprint } in
        poll now reads m w ≡ (m'', stored takes stringify to_json of_json m'' w')
  unfolding poll_definitions
  poll-settled now reads m w moved v =
      let (v', n) = tell-vanished now reads.jobs reads.jobs m w (λ b k. k) v in
      rw (moved, v', poll_definitions)

  -- A poll of definitions that finds a new fingerprint and no job gone, where no two jobs have an id in common and the
  -- cache that it leaves can be written and read back: there is one call for each job whose hash is not the one in the cache, in the
  -- order of the jobs, with the command that caused the change; the cache takes over exactly the hashes that were
  -- accepted, and is what the outbox reads back.
  pub poll_definitions-Told :
      (now : ℕ) (reads : Reads) (m : Monitor) (w : Shared)
      → is_unchanged m.last_fingerprint reads.fingerprint ≡ false
      → vanished m.definition_hashes reads.jobs ≡ []
      → AreDistinct reads.jobs
      → let (m', w') = poll_definitions takes stringify to_json of_json now reads m w in
        of_json (to_json m'.definition_hashes) ≡ some m'.definition_hashes
        → to_json m'.definition_hashes ≢ ""
        → (cs : List Call) × (w'.calls ≡ w.calls ++ cs)
          × Told
              (delta_of m.instance_name m.pending_attribution)
              (λ b. get_hash m.definition_hashes b.job_uuid)
              (λ b. get_hash m'.definition_hashes b.job_uuid)
              reads.jobs
              cs
          × (get_definition_hashes to_json of_json w'.outbox m.instance_name ≡ m'.definition_hashes)
  poll_definitions-Told now reads m w moved v distinct =
      let (m', w') = tell now reads.jobs m w in
      let (cs, all, t) =
        tell_changes-Told takes stringify to_json of_json now reads.jobs m w distinct in
      let (v', n) = tell-vanished now reads.jobs reads.jobs m w (λ b k. k) v in
      let R : Monitor × Shared → Type 0 = λ r.
        of_json (to_json r.0.definition_hashes) ≡ some r.0.definition_hashes
        → to_json r.0.definition_hashes ≢ ""
        → (cs : List Call) × (r.1.calls ≡ w.calls ++ cs)
          × Told (delta_of m.instance_name m.pending_attribution)
              (λ b. get_hash m.definition_hashes b.job_uuid)
              (λ b. get_hash r.0.definition_hashes b.job_uuid) reads.jobs cs
          × (get_definition_hashes to_json of_json r.1.outbox m.instance_name
              ≡ r.0.definition_hashes) in
      subst R (sym (poll-settled now reads m w moved v)) (λ read filled. (
        cs,
        all,
        t,
        subst
            (λ x.
              get_definition_hashes to_json of_json
                (set_definition_hashes to_json of_json w'.outbox m'.instance_name
                  m'.definition_hashes)
                x
              ≡ m'.definition_hashes)
            n
            (get-set_definition_hashes to_json of_json w'.outbox m'.instance_name
              m'.definition_hashes read filled).0,
      ))
