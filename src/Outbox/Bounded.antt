-- ===== src/Outbox/Bounded.antt =====
-- packages/worker/src/outbox.ts: the depth counter, the bound and the order of the queue, and acknowledgements.
use remote_sql_agent.Prelude.{
  ℕ, zero, suc, ◌+◌, ◌-◌, ◌≤◌, ◌≡◌, refl, ap, ◌∙◌, inl, inr, ◌↔◌, ◌==◌, leb, not, Bool, String,
  List, [], ◌∷◌, ◌++◌, arith, length, drop, filter, length-append, length-drop, length-filter-le,
  Elem, Elem-filter, Bool-cases,
}
use remote_sql_agent.Outbox.{
  Outbox, OutboxRow, OutboxKind, enqueue, evict_if_needed, acknowledge, delete_id, delete_ids,
}

-- The ids ascend strictly, from `lo` on and below `hi`.
abbrev pub Ascends : ℕ → ℕ → List OutboxRow → Type 0
Ascends lo hi [] = lo ≤ hi
Ascends lo hi (r ∷ rs) = (lo ≤ r.id) × Ascends (suc r.id) hi rs

-- The depth counter is the number of rows, and rows are numbered in the order of their arrival.
pub record Inv (o : Outbox) : Type 0 where
  pub counted : o.depth ≡ length o.rows
  pub ordered : Ascends 0 o.next_id o.rows

Ascends-weaken : (a b hi : ℕ) (rs : List OutboxRow) → a ≤ b → Ascends b hi rs → Ascends a hi rs
Ascends-weaken a b hi [] h p = omega arith
Ascends-weaken a b hi (r ∷ rs) h p = (omega arith, p.1)

Ascends-concat :
    (lo hi : ℕ) (rs : List OutboxRow) (r : OutboxRow)
    → r.id ≡ hi
    → Ascends lo hi rs
    → Ascends lo (suc hi) (rs ++ r ∷ [])
Ascends-concat lo hi [] r e p = omega arith
Ascends-concat lo hi (x ∷ rs) r e p = (p.0, Ascends-concat (suc x.id) hi rs r e p.1)

Ascends-drop : (n lo hi : ℕ) (rs : List OutboxRow) → Ascends lo hi rs → Ascends lo hi (drop n rs)
Ascends-drop zero lo hi rs p = p
Ascends-drop (suc n) lo hi [] p = p
Ascends-drop (suc n) lo hi (r ∷ rs) p =
    Ascends-weaken lo (suc r.id) hi (drop n rs) (omega arith) (Ascends-drop n (suc r.id) hi rs p.1)

Ascends-filter :
    (p : OutboxRow → Bool) (lo hi : ℕ) (rs : List OutboxRow)
    → Ascends lo hi rs
    → Ascends lo hi (filter p rs)
Ascends-filter p lo hi [] h = h
Ascends-filter p lo hi (r ∷ rs) h =
    let rest = Ascends-filter p (suc r.id) hi rs h.1 in
    ground (arith, rest, Ascends-weaken lo (suc r.id) hi (filter p rs) (omega arith) rest)

evict-Inv : (o : Outbox) → Inv o → Inv (evict_if_needed o)
unfolding evict_if_needed
evict-Inv o v = elim (Bool-cases (leb o.depth o.max_rows)) [
  | inl fits ↦ rw (fits, evict_if_needed) v
  | inr over ↦
      rw (over, evict_if_needed)
        (record {
          counted = omega (arith, length-drop (o.depth - o.max_rows) o.rows, v.counted);
          ordered = Ascends-drop (o.depth - o.max_rows) 0 o.next_id o.rows v.ordered;
        })
]

-- Queueing a row keeps the invariant: the counter is exact and the rows are in order.
pub enqueue-Inv :
    (o : Outbox) (kind : OutboxKind) (name payload : String) (now : ℕ)
    → Inv o
    → Inv (enqueue o kind name payload now)
unfolding enqueue
enqueue-Inv o kind name payload now v = evict-Inv _ (record {
  counted = omega (arith, v.counted, length-append o.rows (new ∷ []));
  ordered = Ascends-concat 0 o.next_id o.rows new refl v.ordered;
})
  where
    new : OutboxRow
    new = record {
      id = o.next_id;
      kind = kind;
      instance_name = name;
      payload = payload;
      created_at = now;
    }

evict_lem :
    (o : Outbox)
    → o.depth ≡ length o.rows
    → ((evict_if_needed o).rows ≡ drop (length o.rows - o.max_rows) o.rows)
      × ((evict_if_needed o).evicted
          ≡ o.evicted + (length o.rows - length (drop (length o.rows - o.max_rows) o.rows)))
unfolding evict_if_needed
evict_lem o h = elim (Bool-cases (leb o.depth o.max_rows)) [
  | inl fits ↦
      let none_over : length o.rows - o.max_rows ≡ 0 = ground arith in
      rw (fits, evict_if_needed, none_over) (refl, omega arith)
  | inr over ↦ rw (over, evict_if_needed, h) (refl, refl)
]

-- The row that `enqueue` inserts.
abbrev pub new_row : Outbox → OutboxKind → String → String → ℕ → OutboxRow
new_row o kind name payload now = record {
  id = o.next_id;
  kind = kind;
  instance_name = name;
  payload = payload;
  created_at = now;
}

-- From an outbox that holds its invariant, after `enqueue` at most `max_rows` rows are held: the newest of the old rows and the new one, oldest first
-- out; and each row that went is counted as evicted.
pub enqueue_bounded :
    (o : Outbox) (kind : OutboxKind) (name payload : String) (now : ℕ)
    → Inv o
    → let o' = enqueue o kind name payload now in
      (length o'.rows ≤ o.max_rows)
      × (o'.rows
          ≡ drop (length o.rows + 1 - o.max_rows) (o.rows ++ new_row o kind name payload now ∷ []))
      × (o'.evicted + length o'.rows ≡ o.evicted + length o.rows + 1)
unfolding enqueue
enqueue_bounded o kind name payload now v =
    let row = new_row o kind name payload now in
    let grown = length-append o.rows (row ∷ []) in
    let e =
      evict_lem
        (record o { rows = o.rows ++ row ∷ []; next_id = suc o.next_id; depth = o.depth + 1 })
        (omega (arith, v.counted, grown)) in
    let same : length (o.rows ++ row ∷ []) ≡ length o.rows + 1 = omega (arith, grown) in
    (
      omega (
        arith,
        ap length e.0,
        length-drop (length (o.rows ++ row ∷ []) - o.max_rows) (o.rows ++ row ∷ []),
        same,
      ),
      e.0 ∙ ap (λ (n : ℕ). drop (n - o.max_rows) (o.rows ++ row ∷ [])) same,
      omega (
        arith,
        e.1,
        same,
        ap length e.0,
        length-drop (length (o.rows ++ row ∷ []) - o.max_rows) (o.rows ++ row ∷ []),
      ),
    )

delete_ids-Elem :
    (ids : List ℕ) (rows : List OutboxRow) (k : ℕ) (r : OutboxRow)
    → Elem r (delete_ids ids rows k).0 ↔ (Elem r rows × (¬ Elem r.id ids))
unfolding delete_ids
delete_ids-Elem [] rows k r = (λ h. (h, λ e. e), λ h. h.0)
delete_ids-Elem (i ∷ ids) rows k r = ground (
  arith,
  delete_ids-Elem ids (delete_id i rows) (k + (length rows - length (delete_id i rows))) r,
  Elem-filter (λ (x : OutboxRow). not (x.id == i)) r rows,
)

delete_ids-count :
    (ids : List ℕ) (rows : List OutboxRow) (k : ℕ)
    → (delete_ids ids rows k).1 + length (delete_ids ids rows k).0 ≡ k + length rows
unfolding delete_ids
delete_ids-count [] rows k = refl
delete_ids-count (i ∷ ids) rows k = omega (
  arith,
  delete_ids-count ids (delete_id i rows) (k + (length rows - length (delete_id i rows))),
  length-filter-le (λ (x : OutboxRow). not (x.id == i)) rows,
)

delete_ids-Ascends :
    (ids : List ℕ) (rows : List OutboxRow) (k lo hi : ℕ)
    → Ascends lo hi rows
    → Ascends lo hi (delete_ids ids rows k).0
unfolding delete_ids
delete_ids-Ascends [] rows k lo hi h = h
delete_ids-Ascends (i ∷ ids) rows k lo hi h =
    delete_ids-Ascends ids (delete_id i rows) _ lo hi
      (Ascends-filter (λ x. not (x.id == i)) lo hi rows h)

-- From an outbox that holds its invariant, an acknowledgement removes exactly the rows of the ids named, also when some of them are gone already,
-- and keeps the invariant.
pub acknowledge-Inv :
    (o : Outbox) (ids : List ℕ)
    → Inv o
    → Inv (acknowledge o ids)
      × ((r : OutboxRow) → Elem r (acknowledge o ids).rows ↔ (Elem r o.rows × (¬ Elem r.id ids)))
unfolding acknowledge
acknowledge-Inv o [] v = (v, λ r. (λ h. (h, λ e. e), λ h. h.0))
acknowledge-Inv o (i ∷ ids) v = (
  record {
    counted = omega (arith, delete_ids-count (i ∷ ids) o.rows 0, v.counted);
    ordered = delete_ids-Ascends (i ∷ ids) o.rows 0 0 o.next_id v.ordered;
  },
  delete_ids-Elem (i ∷ ids) o.rows 0,
)
