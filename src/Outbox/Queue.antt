-- ===== src/Outbox/Queue.antt =====
-- packages/worker/src/outbox.ts: the queue that the class Outbox presents to the session, as a bounded first-in first-out
-- queue, and runs of its operations.
use remote_sql_agent.Prelude.{
  ℕ, suc, ◌+◌, ◌-◌, ◌==◌, ◌≡◌, refl, sym, ap, subst, ◌∙◌, if◌then◌else◌, Bool, Bool-cases, true,
  false, not, String, List, [], ◌∷◌, ◌++◌, length, length-append, length-drop, drop, take, filter,
  includes, arith, leb, inl, inr,
}
use remote_sql_agent.Outbox.{
  Outbox, OutboxRow, OutboxKind, evict_if_needed, enqueue, delete_ids, delete_id, acknowledge, peek,
  stats,
}
use remote_sql_agent.Outbox.Bounded.{Inv, new_row, enqueue-Inv, enqueue_bounded, acknowledge-Inv}

-- What waits, oldest first; the number of the next message; how many were lost.
pub record Queue : Type 0 where
  pub waiting : List OutboxRow
  pub next : ℕ
  pub lost : ℕ

pub data Op : Type 0 where
  queues : OutboxKind → String → String → ℕ → Op
  acknowledges : List ℕ → Op

-- The newest of a list, at most so many.
abbrev pub newest : ℕ → List OutboxRow → List OutboxRow
newest n rows = drop (length rows - n) rows

abbrev pub numbered : ℕ → OutboxKind → String → String → ℕ → OutboxRow
numbered id kind name payload now = record {
  id = id;
  kind = kind;
  instance_name = name;
  payload = payload;
  created_at = now;
}

abbrev pub queue_step : ℕ → Op → Queue → Queue
queue_step capacity (queues kind name payload now) q =
    let all = q.waiting ++ numbered q.next kind name payload now ∷ [] in
    record {
      waiting = newest capacity all;
      next = suc q.next;
      lost = q.lost + (length all - capacity);
    }
queue_step capacity (acknowledges ids) q = record q {
  waiting = filter (λ r. not (includes ids r.id)) q.waiting;
}

abbrev pub queue_run : ℕ → List Op → Queue → Queue
queue_run capacity [] q = q
queue_run capacity (op ∷ ops) q = queue_run capacity ops (queue_step capacity op q)

-- The operations of the code.
unfoldable pub step : Op → Outbox → Outbox
step (queues kind name payload now) o = enqueue o kind name payload now
step (acknowledges ids) o = acknowledge o ids

unfoldable pub run : List Op → Outbox → Outbox
run [] o = o
run (op ∷ ops) o = run ops (step op o)

abbrev pub view : Outbox → Queue
view o = record { waiting = o.rows; next = o.next_id; lost = o.evicted }

filter-filter :
    {A : Type 0} (p q r : A → Bool) (xs : List A)
    → ((x : A) → r x ≡ (if p x then q x else false))
    → filter q (filter p xs) ≡ filter r xs
filter-filter p q r [] h = refl
filter-filter p q r (x ∷ xs) h = ground (arith, h x, filter-filter p q r xs h)

filter-all : {A : Type 0} (p : A → Bool) (xs : List A) → ((x : A) → p x ≡ true) → filter p xs ≡ xs
filter-all p [] h = refl
filter-all p (x ∷ xs) h = ground (arith, h x, filter-all p xs h)

delete_ids-filter :
    (ids : List ℕ) (rows : List OutboxRow) (k : ℕ)
    → (delete_ids ids rows k).0 ≡ filter (λ r. not (includes ids r.id)) rows
unfolding delete_ids
delete_ids-filter [] rows k = sym (filter-all (λ r. not (includes [] r.id)) rows (λ r. refl))
delete_ids-filter (i ∷ ids) rows k =
    delete_ids-filter ids (delete_id i rows) (k + (length rows - length (delete_id i rows)))
    ∙ filter-filter (λ r. not (r.id == i)) (λ r. not (includes ids r.id))
        (λ r. not (includes (i ∷ ids) r.id)) rows (λ r. ground arith)

evict-kept :
    (o : Outbox)
    → ((evict_if_needed o).next_id ≡ o.next_id) × ((evict_if_needed o).max_rows ≡ o.max_rows)
unfolding evict_if_needed
evict-kept o = elim (Bool-cases (leb o.depth o.max_rows)) [
  | inl fits ↦ rw (fits, evict_if_needed) (refl, refl)
  | inr over ↦ rw (over, evict_if_needed) (refl, refl)
]

enqueue-kept :
    (o : Outbox) (kind : OutboxKind) (name payload : String) (now : ℕ)
    → ((enqueue o kind name payload now).next_id ≡ suc o.next_id)
      × ((enqueue o kind name payload now).max_rows ≡ o.max_rows)
unfolding enqueue
enqueue-kept o kind name payload now = evict-kept (record o {
  rows = o.rows ++ new_row o kind name payload now ∷ [];
  next_id = suc o.next_id;
  depth = o.depth + 1;
})

enqueue-view :
    (o : Outbox) (kind : OutboxKind) (name payload : String) (now : ℕ)
    → Inv o
    → view (enqueue o kind name payload now)
      ≡ queue_step o.max_rows (queues kind name payload now) (view o)
enqueue-view o kind name payload now v =
    let o' = enqueue o kind name payload now in
    let all = o.rows ++ new_row o kind name payload now ∷ [] in
    let grown : length all ≡ length o.rows + 1 =
      omega (arith, length-append o.rows (new_row o kind name payload now ∷ [])) in
    let (bounded, kept, counted) = enqueue_bounded o kind name payload now v in
    let waiting : o'.rows ≡ newest o.max_rows all =
      kept ∙ ap (λ (n : ℕ). drop (n - o.max_rows) all) (sym grown) in
    let lost : o'.evicted ≡ o.evicted + (length all - o.max_rows) =
      omega (arith, counted, grown, ap length waiting, length-drop (length all - o.max_rows) all) in
    let next = (enqueue-kept o kind name payload now).0 in
    λ i. record { waiting = waiting i; next = next i; lost = lost i }

step-view : (op : Op) (o : Outbox) → Inv o → view (step op o) ≡ queue_step o.max_rows op (view o)
unfolding step acknowledge
step-view (queues kind name payload now) o v = enqueue-view o kind name payload now v
step-view (acknowledges []) o v =
    let all = filter-all (λ r. not (includes [] r.id)) o.rows (λ r. refl) in
    λ i. record { waiting = sym all i; next = o.next_id; lost = o.evicted }
step-view (acknowledges (i ∷ ids)) o v =
    let left = delete_ids-filter (i ∷ ids) o.rows 0 in
    λ j. record { waiting = left j; next = o.next_id; lost = o.evicted }

step-Inv : (op : Op) (o : Outbox) → Inv o → Inv (step op o)
unfolding step
step-Inv (queues kind name payload now) o v = enqueue-Inv o kind name payload now v
step-Inv (acknowledges ids) o v = (acknowledge-Inv o ids v).0

step-capacity : (op : Op) (o : Outbox) → (step op o).max_rows ≡ o.max_rows
unfolding step acknowledge
step-capacity (queues kind name payload now) o = (enqueue-kept o kind name payload now).1
step-capacity (acknowledges []) o = refl
step-capacity (acknowledges (i ∷ ids)) o = refl

-- The outbox shows the queue: its rows are those that wait, `peek` gives the oldest of them, and `stats` gives the length
-- and the losses.
abbrev pub Shows : Outbox → Queue → Type 0
Shows o q =
    (view o ≡ q)
    × ((limit : ℕ) → peek o limit ≡ take limit q.waiting)
    × (stats o ≡ record { depth = length q.waiting; evicted = q.lost })

-- From an outbox that holds its invariant, any run of `enqueue` and `acknowledge` shows the bounded queue after the same
-- run.
pub run_refines :
    (ops : List Op) (o : Outbox) → Inv o → Shows (run ops o) (queue_run o.max_rows ops (view o))
unfolding run peek stats
run_refines [] o v = (refl, λ limit. refl, λ i. record { depth = v.counted i; evicted = o.evicted })
run_refines (op ∷ ops) o v =
    let same : queue_run (step op o).max_rows ops (view (step op o))
        ≡ queue_run o.max_rows ops (queue_step o.max_rows op (view o)) =
      λ i. queue_run (step-capacity op o i) ops (step-view op o v i) in
    subst (Shows (run ops (step op o))) same (run_refines ops (step op o) (step-Inv op o v))
