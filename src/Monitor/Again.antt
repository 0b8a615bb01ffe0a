-- ===== src/Monitor/Again.antt =====
-- packages/worker/src/instance-monitor.ts: two polls of the definitions in a row.
use remote_sql_agent.Prelude.{
  ℕ, ◌≡◌, refl, sym, ap, subst, ◌∙◌, inl, inr, if◌then◌else◌, Bool, Bool-cases, true, false, String,
  eq_iff, Option, none, some, List, [], ◌∷◌, All,
}
use remote_sql_agent.Outbox.Hashes.{HashEntry, get_hash}
use remote_sql_agent.Worker.Msdb.{JobDefinitionBlob}
use remote_sql_agent.Snapshots.Chunks.{Blobs}
use remote_sql_agent.Monitor.Emit.{WorkerMessage, Call, Shared, emit}
use remote_sql_agent.Monitor.Definitions.{
  Monitor, Reads, is_hash, is_known, is_unchanged, delta_of, told, tell_changes, vanished, stored,
  poll_definitions,
}
use remote_sql_agent.Monitor.Told.{AreDistinct, tell-untouched, marked-own}
use remote_sql_agent.Monitor.Polled.{tell-vanished, poll-settled}

is_hash_iff :
    (o : Option String) (b : JobDefinitionBlob) → is_hash o b ≡ true → o ≡ some b.definition_hash
is_hash_iff none b h = absurd (cc)
is_hash_iff (some x) b h = ap some ((eq_iff x b.definition_hash).0 h)

module _ (takes : List Call → WorkerMessage → Bool) (stringify : WorkerMessage → String)
    (to_json : List HashEntry → String) (of_json : String → Option (List HashEntry)) where
  abbrev tell : ℕ → Blobs → Monitor → Shared → Monitor × Shared
  tell now blobs m w = tell_changes takes stringify to_json of_json now blobs m w

  emit-taken :
      (now : ℕ) (message : WorkerMessage) (w : Shared)
      → ((cs : List Call) (x : WorkerMessage) → takes cs x ≡ true)
      → (emit takes stringify now message w).0 ≡ true
  unfolding emit
  emit-taken now message w taken = rw (taken w.calls message)

  -- With every call accepted, the cache has the hash of each job that was read.
  tell-known :
      (now : ℕ) (blobs : Blobs) (m : Monitor) (w : Shared)
      → ((cs : List Call) (x : WorkerMessage) → takes cs x ≡ true)
      → AreDistinct blobs
      → All
          (λ b.
            get_hash (tell now blobs m w).0.definition_hashes b.job_uuid ≡ some b.definition_hash)
          blobs
  unfolding tell_changes
  tell-known now [] m w taken distinct = tt
  tell-known now (b ∷ blobs) m w taken (apart, distinct) =
      let P : Monitor × Shared → Type 0 = λ r.
        All (λ c. get_hash r.0.definition_hashes c.job_uuid ≡ some c.definition_hash) (b ∷ blobs) in
      elim (Bool-cases (is_known m.definition_hashes b)) [
        | inl e ↦
            let same : tell now (b ∷ blobs) m w ≡ tell now blobs m w = rw (e, tell_changes) refl in
            let own =
              tell-untouched takes stringify to_json of_json now blobs m w b.job_uuid apart
              ∙ is_hash_iff (get_hash m.definition_hashes b.job_uuid) b e in
            subst P (sym same) (own, tell-known now blobs m w taken distinct)
        | inr e ↦
            let delta = delta_of m.instance_name m.pending_attribution b in
            let (accepted, w') = emit takes stringify now delta w in
            let m1 : Monitor = if accepted then told b m else m in
            let same : tell now (b ∷ blobs) m w ≡ tell now blobs m1 w' =
              rw (e, tell_changes) refl in
            let yes : accepted ≡ true = emit-taken now delta w taken in
            let own : get_hash (tell now blobs m1 w').0.definition_hashes b.job_uuid
                ≡ some b.definition_hash =
              tell-untouched takes stringify to_json of_json now blobs m1 w' b.job_uuid apart
              ∙ marked-own takes stringify to_json of_json now accepted b m
              ∙ ap
                  (λ x.
                    if x then some b.definition_hash else get_hash m.definition_hashes b.job_uuid)
                  yes in
            subst P (sym same) (own, tell-known now blobs m1 w' taken distinct)
      ]

  -- Jobs whose hashes the cache has are passed over.
  tell-silent :
      (now : ℕ) (blobs : Blobs) (m : Monitor) (w : Shared)
      → All (λ b. get_hash m.definition_hashes b.job_uuid ≡ some b.definition_hash) blobs
      → tell now blobs m w ≡ (m, w)
  unfolding tell_changes
  tell-silent now [] m w known = refl
  tell-silent now (b ∷ blobs) m w (k, known) =
      let e : is_known m.definition_hashes b ≡ true =
        rw (k) ((eq_iff b.definition_hash b.definition_hash).1 refl) in
      rw (e, tell_changes) (tell-silent now blobs m w known)

  -- With a session that takes every message a poll leaves nothing to tell: where it found a new fingerprint and no job gone, and no
  -- two jobs with an id in common, another poll that reads the same jobs, at any time and with any fingerprint, makes no
  -- call, and leaves the cache as it is.
  pub poll_definitions_again :
      (now later : ℕ) (reads reads' : Reads) (m : Monitor) (w : Shared)
      → ((cs : List Call) (x : WorkerMessage) → takes cs x ≡ true)
      → is_unchanged m.last_fingerprint reads.fingerprint ≡ false
      → vanished m.definition_hashes reads.jobs ≡ []
      → AreDistinct reads.jobs
      → reads'.jobs ≡ reads.jobs
      → let (m', w') = poll_definitions takes stringify to_json of_json now reads m w in
        let (m'', w'') = poll_definitions takes stringify to_json of_json later reads' m' w' in
        (w''.calls ≡ w'.calls) × (m''.definition_hashes ≡ m'.definition_hashes)
  unfolding poll_definitions
  poll_definitions_again now later reads reads' m w taken moved v distinct same =
      let (m1, w1) = tell now reads.jobs m w in
      let m' : Monitor = record m1 { last_fingerprint = some reads.fingerprint } in
      let w' = stored takes stringify to_json of_json m' w1 in
      let known = tell-known now reads.jobs m w taken distinct in
      let quiet : tell later reads'.jobs m' w' ≡ (m', w') =
        subst (λ js. tell later js m' w' ≡ (m', w')) (sym same)
          (tell-silent later reads.jobs m' w' known) in
      let (v1, _) =
        tell-vanished takes stringify to_json of_json now reads.jobs reads.jobs m w (λ b k. k) v in
      let v2 : vanished m'.definition_hashes reads'.jobs ≡ [] =
        subst (λ js. vanished m1.definition_hashes js ≡ []) (sym same) v1 in
      subst
        (λ r.
          let (m2, w2) = poll_definitions takes stringify to_json of_json later reads' r.0 r.1 in
          (w2.calls ≡ r.1.calls) × (m2.definition_hashes ≡ r.0.definition_hashes))
        (sym (poll-settled takes stringify to_json of_json now reads m w moved v))
        (second m' w' quiet v2)
    where
      second :
          (m' : Monitor) (w' : Shared)
          → tell later reads'.jobs m' w' ≡ (m', w')
          → vanished m'.definition_hashes reads'.jobs ≡ []
          → let (m2, w2) = poll_definitions takes stringify to_json of_json later reads' m' w' in
            (w2.calls ≡ w'.calls) × (m2.definition_hashes ≡ m'.definition_hashes)
      second m' w' quiet v2 =
          elim (Bool-cases (is_unchanged m'.last_fingerprint reads'.fingerprint)) [
            | inl e ↦ rw (e, poll_definitions) (refl, refl)
            | inr e ↦
                subst (λ r. (r.1.calls ≡ w'.calls) × (r.0.definition_hashes ≡ m'.definition_hashes))
                  (sym (poll-settled takes stringify to_json of_json later reads' m' w' e v2))
                  (ap (λ r. r.1.calls) quiet, ap (λ r. r.0.definition_hashes) quiet)
          ]
