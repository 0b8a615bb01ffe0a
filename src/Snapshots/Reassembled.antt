-- ===== src/Snapshots/Reassembled.antt =====
-- The chunks of packages/worker/src/instance-monitor.ts, handled one after another by packages/server/src/hub/hub.ts.
use remote_sql_agent.Prelude.{
  ℕ, suc, ◌+◌, ◌<◌, ◌≡◌, refl, sym, ap, subst, ◌∙◌, ◌⊎◌, inl, inr, Bool, Bool-cases, true, false,
  String, codes, codes_eq_iff, append-nil, append_assoc, drop, ◌-◌, Option-cases, none, some, List,
  [], ◌∷◌, ◌++◌, filter, find, find-concat, length, any, any-find, update_where, arith,
}
use remote_sql_agent.Snapshots.Chunks.{
  Blobs, Snapshot, chunks, or_one_chunk, slices, to_messages, snapshot_messages, concat,
  concat-chunks,
}
use remote_sql_agent.Snapshots.Pending.{
  PendingSnapshot, Deps, Hub, is_live, sweep_abandoned_snapshots, key_of, is_key, put, extended,
  apply_snapshot, Outcome, waiting, applied, handle_snapshot_chunk,
}

find-filter :
    (p q : PendingSnapshot → Bool) (es : List PendingSnapshot) (e : PendingSnapshot)
    → find q es ≡ some e
    → p e ≡ true
    → find q (filter p es) ≡ some e
find-filter p q [] e f h = cc
find-filter p q (x ∷ es) e f h = elim (Bool-cases (q x)) [
  | inl hit ↦
      let same : x ≡ e = ground (arith, f, hit) in
      let kept : p x ≡ true = rw (same) h in ground (arith, hit, kept, same)
  | inr miss ↦ ground (arith, miss, f, find-filter p q es e)
]

find-filter-none :
    (p q : PendingSnapshot → Bool) (es : List PendingSnapshot)
    → find q es ≡ none
    → find q (filter p es) ≡ none
find-filter-none p q [] f = refl
find-filter-none p q (x ∷ es) f = ground (arith, f, find-filter-none p q es)

is_key-own : (acc : PendingSnapshot) → is_key acc.key acc ≡ true
is_key-own acc = (codes_eq_iff acc.key acc.key).1 refl

find-updated :
    (acc : PendingSnapshot) (es : List PendingSnapshot) (x : PendingSnapshot)
    → find (is_key acc.key) es ≡ some x
    → find (is_key acc.key) (update_where (is_key acc.key) (λ y. acc) es) ≡ some acc
find-updated acc [] x f = absurd (cc)
find-updated acc (y ∷ es) x f = elim (Bool-cases (is_key acc.key y)) [
  | inl hit ↦ ground (arith, hit, is_key-own acc)
  | inr miss ↦ ground (arith, miss, find-updated acc es x (ground (arith, miss, f)))
]

find-put :
    (acc : PendingSnapshot) (es : List PendingSnapshot)
    → find (is_key acc.key) (put acc es) ≡ some acc
find-put acc es = elim (Option-cases (find (is_key acc.key) es)) [
  | inl f ↦
      let there : any (is_key acc.key) es ≡ false = any-find (is_key acc.key) es ∙ (rw f) in
      rw (there) (find-concat (is_key acc.key) es acc ∙ ground (arith, f, is_key-own acc))
  | inr (x, f) ↦
      let there : any (is_key acc.key) es ≡ true = any-find (is_key acc.key) es ∙ (rw f) in
      rw (there) (find-updated acc es x f)
]

chunks-cons : (blobs : Blobs) → (c : Blobs) × (cs : List Blobs) × (chunks blobs ≡ c ∷ cs)
unfolding chunks
chunks-cons blobs = cons_of (slices (length blobs) blobs)
  where
    cons_of : (xs : List Blobs) → (c : Blobs) × (cs : List Blobs) × (or_one_chunk xs ≡ c ∷ cs)
    cons_of [] = ([], [], refl)
    cons_of (x ∷ xs) = (x, xs, refl)

length-to_messages :
    (id name : String) (cs : List Blobs) → length (to_messages id name cs) ≡ length cs
unfolding to_messages
length-to_messages id name [] = refl
length-to_messages id name (c ∷ []) = refl
length-to_messages id name (c ∷ d ∷ cs) = ap suc (length-to_messages id name (d ∷ cs))

-- Each chunk but the last is only kept.
abbrev pub waits : List Blobs → List Outcome
waits [] = []
waits (c ∷ cs) = waiting ∷ waits cs

module _ (deps : Deps) (instance_id : String) (clock : ℕ → ℕ) where
  -- The messages handled in order, the n-th at `clock n`.
  unfoldable pub deliver : ℕ → List Snapshot → Hub → List Outcome × Hub
  deliver n [] hub = ([], hub)
  deliver n (s ∷ ss) hub =
      let (o, hub') = handle_snapshot_chunk deps instance_id (clock n) s hub in
      let (os, hub'') = deliver (suc n) ss hub' in (o ∷ os, hub'')

  module _ (id name : String) (started : ℕ) where
    abbrev key : List ℕ
    key = codes name ++ (b':' ∷ codes id)

    -- What waits for this snapshot at a time: nothing before the first chunk, and then the jobs so far.
    abbrev Gathered : Blobs → ℕ → List PendingSnapshot → Type 0
    Gathered jobs now pending =
        ((find (is_key key) pending ≡ none) × (jobs ≡ []) × (now ≡ started))
        ⊎ ((acc : PendingSnapshot) × (find (is_key key) pending ≡ some acc)
            × (acc.key ≡ key)
            × (acc.jobs ≡ jobs)
            × (acc.started_at ≡ started))

    abbrev chunk : Blobs → Bool → Snapshot
    chunk c more = record { snapshot_id = id; instance_name = name; more_chunks = more; jobs = c }

    abbrev grown : Blobs → Bool → ℕ → List PendingSnapshot → PendingSnapshot
    grown c more now pending =
        extended (chunk c more) key now (find (is_key key) (sweep_abandoned_snapshots now pending))

    grown-Gathered :
        (c : Blobs) (more : Bool) (now : ℕ) (jobs : Blobs) (pending : List PendingSnapshot)
        → now < started + 600000
        → Gathered jobs now pending
        → ((grown c more now pending).key ≡ key)
          × ((grown c more now pending).jobs ≡ jobs ++ c)
          × ((grown c more now pending).started_at ≡ started)
    unfolding sweep_abandoned_snapshots
    grown-Gathered c more now jobs pending early (inl (f, e, first)) =
        let gone = find-filter-none (is_live now) (is_key key) pending f in
        rw (gone, e) (refl, refl, first)
    grown-Gathered c more now jobs pending early (inr (acc, f, k, e, begun)) =
        let live : is_live now acc ≡ true = ground (arith, early, begun) in
        let kept = find-filter (is_live now) (is_key key) pending acc f live in
        rw (kept) (k, ap (λ x. x ++ c) e, begun)

    last_time : ℕ → List Blobs → ℕ
    last_time n [] = clock n
    last_time n (d ∷ cs) = last_time (suc n) cs

    deliver-Gathered :
        (n total : ℕ) (c : Blobs) (cs : List Blobs) (jobs : Blobs) (hub : Hub)
        → n + length cs < total
        → ((k : ℕ) → k < total → clock k < started + 600000)
        → Gathered jobs (clock n) hub.pending
        → let all =
            apply_snapshot deps instance_id (last_time n cs) (jobs ++ concat (c ∷ cs)) hub.store in
          ((deliver n (to_messages id name (c ∷ cs)) hub).0 ≡ waits cs ++ applied all.0 ∷ [])
          × ((deliver n (to_messages id name (c ∷ cs)) hub).1.store ≡ all.1)
    unfolding deliver to_messages handle_snapshot_chunk key_of last_time
    deliver-Gathered n total c [] jobs hub short early g =
        let (k, e, begun) =
          grown-Gathered c false (clock n) jobs hub.pending (early n (omega (arith, short))) g in
        let all : jobs ++ (c ++ []) ≡ (grown c false (clock n) hub.pending).jobs =
          ap (λ x. jobs ++ x) (append-nil c) ∙ sym e in
        rw (all) (refl, refl)
    deliver-Gathered n total c (d ∷ cs) jobs hub short early g =
        let acc = grown c true (clock n) hub.pending in
        let live = sweep_abandoned_snapshots (clock n) hub.pending in
        let hub' : Hub = record hub { pending = put acc live } in
        let (k, e, begun) =
          grown-Gathered c true (clock n) jobs hub.pending (early n (omega (arith, short))) g in
        let found : find (is_key key) (put acc live) ≡ some acc =
          subst (λ w. find (is_key w) (put acc live) ≡ some acc) k (find-put acc live) in
        let (os, store) =
          deliver-Gathered (suc n) total d cs (jobs ++ c) hub' (omega (arith, short)) early
            (inr (acc, found, k, e, begun)) in
        let all : jobs ++ (c ++ concat (d ∷ cs)) ≡ (jobs ++ c) ++ concat (d ∷ cs) =
          sym (append_assoc jobs c (concat (d ∷ cs))) in
        rw (all) (ap (λ x. waiting ∷ x) os, store)

    last_time-clock : (n : ℕ) (cs : List Blobs) → last_time n cs ≡ clock (n + length cs)
    unfolding last_time
    last_time-clock n [] = ap clock (omega arith)
    last_time-clock n (d ∷ cs) = last_time-clock (suc n) cs ∙ ap clock (omega arith)

  applied_once :
      (id name : String) (c : Blobs) (cs : List Blobs) (hub : Hub)
      → let ms = to_messages id name (c ∷ cs) in
        find (is_key (codes name ++ (b':' ∷ codes id))) hub.pending ≡ none
        → ((k : ℕ) → k < length ms → clock k < clock 0 + 600000)
        → let all =
            apply_snapshot deps instance_id (clock (length ms - 1)) (concat (c ∷ cs)) hub.store in
          ((deliver 0 ms hub).0 ≡ waits cs ++ applied all.0 ∷ [])
          × ((deliver 0 ms hub).1.store ≡ all.1)
  applied_once id name c cs hub unknown early =
      let n : length (to_messages id name (c ∷ cs)) ≡ suc (length cs) =
        length-to_messages id name (c ∷ cs) in
      let early' : (k : ℕ) → k < suc (length cs) → clock k < clock 0 + 600000 =
        λ k lt. early k (omega (arith, lt, n)) in
      let both =
        deliver-Gathered id name (clock 0) 0 (suc (length cs)) c cs [] hub (omega arith) early'
          (inl (unknown, refl, refl)) in
      let when : clock (length (to_messages id name (c ∷ cs)) - 1)
          ≡ last_time id name (clock 0) 0 cs =
        ap clock (omega (arith, n)) ∙ sym (last_time-clock id name (clock 0) 0 cs) in
      rw (when) both

  -- The chunks of a snapshot that the server does not know yet, all handled within the time after which it is given up:
  -- every chunk but the last only waits, and with the last the server applies, once, exactly the jobs that the worker
  -- read, in their order.
  pub snapshot_applied_once :
      (id name : String) (blobs : Blobs) (hub : Hub)
      → let ms = snapshot_messages id name blobs in
        find (is_key (codes name ++ (b':' ∷ codes id))) hub.pending ≡ none
        → ((k : ℕ) → k < length ms → clock k < clock 0 + 600000)
        → let all = apply_snapshot deps instance_id (clock (length ms - 1)) blobs hub.store in
          ((deliver 0 ms hub).0 ≡ waits (drop 1 (chunks blobs)) ++ applied all.0 ∷ [])
          × ((deliver 0 ms hub).1.store ≡ all.1)
  unfolding snapshot_messages
  snapshot_applied_once id name blobs hub unknown =
      let (c, cs, e) = chunks-cons blobs in
      let P : List Blobs → Blobs → Type 0 = λ xs b.
        let ms = to_messages id name xs in
        ((k : ℕ) → k < length ms → clock k < clock 0 + 600000)
        → let all = apply_snapshot deps instance_id (clock (length ms - 1)) b hub.store in
          ((deliver 0 ms hub).0 ≡ waits (drop 1 xs) ++ applied all.0 ∷ [])
          × ((deliver 0 ms hub).1.store ≡ all.1) in
      let whole : P (c ∷ cs) (concat (c ∷ cs)) = applied_once id name c cs hub unknown in
      let cut : P (chunks blobs) (concat (chunks blobs)) =
        subst (λ xs. P xs (concat xs)) (sym e) whole in
      subst (λ b. P (chunks blobs) b) (concat-chunks blobs) cut
