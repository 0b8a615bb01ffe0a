-- ===== src/Monitor/Told.antt =====
-- packages/worker/src/instance-monitor.ts: what `pollDefinitions` tells the server, and what it remembers of it.
use remote_sql_agent.Prelude.{
  ℕ, ◌≡◌, ◌≢◌, refl, sym, ap, subst, ◌∙◌, ◌⊎◌, inl, inr, if◌then◌else◌, Bool, Bool-cases, true,
  false, not, String, eq_iff, Option, some, List, [], ◌∷◌, ◌++◌, append_assoc, append-nil, All,
  find, filter, arith,
}
use remote_sql_agent.Outbox.Hashes.{HashEntry, get_hash, get-set_hash, get-set_hash-other}
use remote_sql_agent.PendingAttribution.{
  PendingAttributionMap, Entry, is_of, get, delete, command_of,
}
use remote_sql_agent.Worker.Msdb.{JobDefinitionBlob}
use remote_sql_agent.Snapshots.Chunks.{Blobs}
use remote_sql_agent.Monitor.Emit.{WorkerMessage, Call, Shared, emit, emit-calls}
use remote_sql_agent.Monitor.Definitions.{Monitor, is_hash, is_known, delta_of, told, tell_changes}

abbrev pub AreDistinct : Blobs → Type 0
AreDistinct [] = Unit
AreDistinct (b ∷ blobs) = All (λ c. b.job_uuid ≢ c.job_uuid) blobs × AreDistinct blobs

-- The calls for the jobs of a poll, one for each that changed, in order, and what the cache has of each job afterwards.
abbrev pub Told :
    (JobDefinitionBlob → WorkerMessage)
    → (JobDefinitionBlob → Option String)
    → (JobDefinitionBlob → Option String)
    → Blobs
    → List Call
    → Type 0
Told delta old new [] cs = cs ≡ []
Told delta old new (b ∷ blobs) cs =
    ((is_hash (old b) b ≡ true) × (new b ≡ old b) × Told delta old new blobs cs)
    ⊎ ((answer : Bool) × (rest : List Call) × (is_hash (old b) b ≡ false)
        × (cs ≡ record { message = delta b; accepted = answer } ∷ rest)
        × (new b ≡ (if answer then some b.definition_hash else old b))
        × Told delta old new blobs rest)

find-delete :
    (u v : String) (es : List Entry)
    → u ≢ v
    → find (is_of v) (filter (λ e. not (is_of u e)) es) ≡ find (is_of v) es
find-delete u v [] ne = refl
find-delete u v (e ∷ es) ne =
    ground (arith, ne, eq_iff e.job_uuid u, eq_iff e.job_uuid v, find-delete u v es ne)

get-delete-other : (u v : String) (m : PendingAttributionMap) → u ≢ v → get v (delete u m) ≡ get v m
unfolding get delete
get-delete-other u v m ne = ap command_of (find-delete u v m.entries ne)

Told-eq :
    (delta delta' : JobDefinitionBlob → WorkerMessage)
    → (old old' new : JobDefinitionBlob → Option String) → (blobs : Blobs) → (cs : List Call)
    → All (λ b. (delta b ≡ delta' b) × (old b ≡ old' b)) blobs
    → Told delta old new blobs cs
    → Told delta' old' new blobs cs
Told-eq delta delta' old old' new [] cs same t = t
Told-eq delta delta' old old' new (b ∷ blobs) cs ((d, o), same) (inl (k, e, t)) =
    inl (rw (sym o) k, rw (sym o) e, Told-eq delta delta' old old' new blobs cs same t)
Told-eq delta delta' old old' new (b ∷ blobs) cs ((d, o), same) (inr (answer, rest, k, e, n, t)) =
    inr (
      answer,
      rest,
      rw (sym o) k,
      rw (sym d) e,
      rw (sym o) n,
      Told-eq delta delta' old old' new blobs rest same t,
    )

module _ (takes : List Call → WorkerMessage → Bool) (stringify : WorkerMessage → String)
    (to_json : List HashEntry → String) (of_json : String → Option (List HashEntry)) (now : ℕ) where
  abbrev tell : Blobs → Monitor → Shared → Monitor × Shared
  tell blobs m w = tell_changes takes stringify to_json of_json now blobs m w

  abbrev answered : JobDefinitionBlob → Monitor → Shared → Bool × Shared
  answered b m w = emit takes stringify now (delta_of m.instance_name m.pending_attribution b) w

  abbrev marked : Bool → JobDefinitionBlob → Monitor → Monitor
  marked accepted b m = if accepted then told b m else m

  marked-other :
      (accepted : Bool) (b : JobDefinitionBlob) (m : Monitor) (u : String)
      → b.job_uuid ≢ u
      → (get_hash (marked accepted b m).definition_hashes u ≡ get_hash m.definition_hashes u)
        × (get u (marked accepted b m).pending_attribution ≡ get u m.pending_attribution)
        × ((marked accepted b m).instance_name ≡ m.instance_name)
  marked-other true b m u ne = (
    get-set_hash-other b.job_uuid u b.definition_hash m.definition_hashes ne,
    get-delete-other b.job_uuid u m.pending_attribution ne,
    refl,
  )
  marked-other false b m u ne = (refl, refl, refl)

  pub marked-own :
      (accepted : Bool) (b : JobDefinitionBlob) (m : Monitor)
      → get_hash (marked accepted b m).definition_hashes b.job_uuid
        ≡ (if accepted then some b.definition_hash else get_hash m.definition_hashes b.job_uuid)
  marked-own true b m = get-set_hash b.job_uuid b.definition_hash m.definition_hashes
  marked-own false b m = refl

  pub tell-untouched :
      (blobs : Blobs) (m : Monitor) (w : Shared) (u : String)
      → All (λ c. u ≢ c.job_uuid) blobs
      → get_hash (tell blobs m w).0.definition_hashes u ≡ get_hash m.definition_hashes u
  unfolding tell_changes
  tell-untouched [] m w u apart = refl
  tell-untouched (b ∷ blobs) m w u (ne, apart) =
      elim (Bool-cases (is_known m.definition_hashes b)) [
        | inl e ↦ rw (e, tell_changes) (tell-untouched blobs m w u apart)
        | inr e ↦
            let (accepted, w') = answered b m w in
            rw (e, tell_changes)
              (tell-untouched blobs (marked accepted b m) w' u apart
                ∙ (marked-other accepted b m u (λ k. ne (sym k))).0)
      ]

  abbrev delta_in : Monitor → JobDefinitionBlob → WorkerMessage
  delta_in m b = delta_of m.instance_name m.pending_attribution b

  abbrev hash_in : Monitor → JobDefinitionBlob → Option String
  hash_in m b = get_hash m.definition_hashes b.job_uuid

  marked-same :
      (accepted : Bool) (b : JobDefinitionBlob) (m : Monitor) (blobs : Blobs)
      → All (λ c. b.job_uuid ≢ c.job_uuid) blobs
      → All
          (λ c.
            (delta_in (marked accepted b m) c ≡ delta_in m c)
            × (hash_in (marked accepted b m) c ≡ hash_in m c))
          blobs
  unfolding delta_of
  marked-same accepted b m [] apart = tt
  marked-same accepted b m (c ∷ blobs) (ne, apart) =
      let (h, p, n) = marked-other accepted b m c.job_uuid ne in
      ((rw (p, n, delta_of), h), marked-same accepted b m blobs apart)

  pub tell_changes-Told :
      (blobs : Blobs) (m : Monitor) (w : Shared)
      → AreDistinct blobs
      → (cs : List Call) × ((tell blobs m w).1.calls ≡ w.calls ++ cs)
        × Told (delta_in m) (hash_in m) (hash_in (tell blobs m w).0) blobs cs
  unfolding tell_changes
  tell_changes-Told [] m w distinct = ([], sym (append-nil w.calls), refl)
  tell_changes-Told (b ∷ blobs) m w (apart, distinct) =
      let R : Monitor × Shared → Type 0 = λ r.
        (cs : List Call) × (r.1.calls ≡ w.calls ++ cs)
        × Told (delta_in m) (hash_in m) (hash_in r.0) (b ∷ blobs) cs in
      elim (Bool-cases (is_known m.definition_hashes b)) [
        | inl e ↦
            let same : tell (b ∷ blobs) m w ≡ tell blobs m w = rw (e, tell_changes) refl in
            let (cs, all, t) = tell_changes-Told blobs m w distinct in
            subst R (sym same) (cs, all, inl (e, tell-untouched blobs m w b.job_uuid apart, t))
        | inr e ↦
            let (accepted, w') = answered b m w in
            let m1 = marked accepted b m in
            let same : tell (b ∷ blobs) m w ≡ tell blobs m1 w' = rw (e, tell_changes) refl in
            let (cs, all, t) = tell_changes-Told blobs m1 w' distinct in
            let c : Call = record { message = delta_in m b; accepted = accepted } in
            let calls : w'.calls ≡ w.calls ++ c ∷ [] =
              emit-calls takes stringify now (delta_in m b) w in
            let all' : (tell blobs m1 w').1.calls ≡ w.calls ++ (c ∷ cs) =
              all ∙ ap (λ x. x ++ cs) calls ∙ append_assoc w.calls (c ∷ []) cs in
            let own = tell-untouched blobs m1 w' b.job_uuid apart ∙ marked-own accepted b m in
            let t' =
              Told-eq (delta_in m1) (delta_in m) (hash_in m1) (hash_in m)
                (hash_in (tell blobs m1 w').0) blobs cs (marked-same accepted b m blobs apart) t in
            subst R (sym same) (c ∷ cs, all', inr (accepted, cs, e, refl, own, t'))
      ]
