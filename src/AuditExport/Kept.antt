-- ===== src/AuditExport/Kept.antt =====
-- packages/server/src/domain/audit-export.ts: what becomes of the rows of the queue in a `drain`.
use remote_sql_agent.Prelude.{
  ℕ, zero, suc, ◌+◌, ◌≤◌, leb, ◌≡◌, ◌≢◌, refl, sym, ap, subst, ◌∙◌, ◌⊎◌, inl, inr, Bool, Bool-cases,
  true, false, not, ◌||◌, String, str_eq, eq_iff, Option, Option-cases, none, List, [], ◌∷◌, Elem,
  Elem-filter, filter, find, find-some, any, take, insert_by, sort_by, Elem-update_where, arith,
}
use remote_sql_agent.AuditExport.{
  AuditLogRow, QueueRow, AuditStore, LogRecord, AuditConfig, Failure, log_record, joined, pending,
  export_rows, delete_rows, retried, settle_failures, drain,
}

Elem-take : {A : Type 0} (a : A) (n : ℕ) (xs : List A) → Elem a (take n xs) → Elem a xs
Elem-take a zero xs h = absurd h
Elem-take a (suc n) [] h = absurd h
Elem-take a (suc n) (x ∷ xs) (inl e) = inl e
Elem-take a (suc n) (x ∷ xs) (inr m) = inr (Elem-take a n xs m)

Elem-insert_by :
    {A : Type 0} (key : A → ℕ) (a x : A) (xs : List A)
    → Elem a (insert_by key x xs)
    → (a ≡ x) ⊎ Elem a xs
Elem-insert_by key a x [] h = h
Elem-insert_by key a x (y ∷ xs) h = elim (Bool-cases (leb (key x) (key y))) [
  | inl le ↦ ground (arith, le, h)
  | inr gt ↦ ground (arith, gt, h, Elem-insert_by key a x xs)
]

Elem-sort_by :
    {A : Type 0} (key : A → ℕ) (a : A) (xs : List A) → Elem a (sort_by key xs) → Elem a xs
Elem-sort_by key a [] h = h
Elem-sort_by key a (x ∷ xs) h = elim (Elem-insert_by key a x (sort_by key xs) h) [
  | inl e ↦ inl e
  | inr m ↦ inr (Elem-sort_by key a xs m)
]

-- A joined row is a row of the queue with the entry it refers to.
joined-Elem :
    (log : List AuditLogRow) (queue : List QueueRow) (p : QueueRow × AuditLogRow)
    → Elem p (joined log queue)
    → Elem p.0 queue × Elem p.1 log × (p.1.id ≡ p.0.audit_log_id)
unfolding joined
joined-Elem log [] p h = absurd h
joined-Elem log (q ∷ queue) p h = elim (Option-cases (find (λ a. str_eq a.id q.audit_log_id) log)) [
  | inl e ↦ let (m, k, i) = joined-Elem log queue p (rw (e, joined) at h) in (inr m, k, i)
  | inr (a, e) ↦ elim (rw (e, joined) at h) [
    | inl same ↦
        let (m, hit) = find-some (λ x. str_eq x.id q.audit_log_id) a log e in
        rw (same) (inl refl, m, (eq_iff a.id q.audit_log_id).0 hit)
    | inr m' ↦ let (m, k, i) = joined-Elem log queue p m' in (inr m, k, i)
  ]
]

pending-Elem :
    (now limit : ℕ) (st : AuditStore) (p : QueueRow × AuditLogRow)
    → Elem p (pending now limit st)
    → Elem p.0 st.audit_export_queue × Elem p.1 st.audit_log × (p.1.id ≡ p.0.audit_log_id)
unfolding pending
pending-Elem now limit st p h =
    let due = filter (λ q. leb q.next_attempt_at now) st.audit_export_queue in
    let (m, k, i) =
      joined-Elem st.audit_log due p
        (Elem-sort_by (λ x. x.0.created_at) p _ (Elem-take p limit _ h)) in
    (((Elem-filter (λ q. leb q.next_attempt_at now) p.0 st.audit_export_queue).0 m).0, k, i)

module _ (emit : LogRecord → Option (List ℕ)) where
  abbrev Delivered : List (QueueRow × AuditLogRow) → String → Type 0
  Delivered ps id =
      (p : QueueRow × AuditLogRow) × Elem p ps
      × (p.0.id ≡ id)
      × (emit (log_record p.1) ≡ none)
      × Elem (log_record p.1) (export_rows emit ps).emitted

  export_rows-delivered :
      (ps : List (QueueRow × AuditLogRow)) (id : String)
      → any (λ i. str_eq i id) (export_rows emit ps).delivered ≡ true
      → Delivered ps id
  unfolding export_rows
  export_rows-delivered [] id h = absurd (cc)
  export_rows-delivered (p ∷ ps) id h = elim (Option-cases (emit (log_record p.1))) [
    | inl e ↦ elim (Bool-cases (str_eq p.0.id id)) [
      | inl hit ↦ (p, inl refl, (eq_iff p.0.id id).0 hit, e, rw (e, export_rows) (inl refl))
      | inr miss ↦
          let rest : any (λ i. str_eq i id) (export_rows emit ps).delivered ≡ true =
            ground (arith, miss, rw (e, export_rows) at h) in
          let (r, m, k, o, sent) = export_rows-delivered ps id rest in
          (r, inr m, k, o, rw (e, export_rows) (inr sent))
    ]
    | inr (error, e) ↦
        let (r, m, k, o, sent) = export_rows-delivered ps id (rw (e, export_rows) at h) in
        (r, inr m, k, o, rw (e, export_rows) sent)
  ]

  export_rows-failed :
      (ps : List (QueueRow × AuditLogRow)) (f : Failure)
      → Elem f (export_rows emit ps).failed
      → (p : QueueRow × AuditLogRow) × Elem p ps
        × (p.0.id ≡ f.queue_id)
        × (f.attempts ≡ p.0.attempts + 1)
        × (emit (log_record p.1) ≢ none)
  unfolding export_rows
  export_rows-failed [] f h = absurd h
  export_rows-failed (p ∷ ps) f h = elim (Option-cases (emit (log_record p.1))) [
    | inl e ↦
        let (r, m, k, a, o) = export_rows-failed ps f (rw (e, export_rows) at h) in
        (r, inr m, k, a, o)
    | inr (error, e) ↦ elim (rw (e, export_rows) at h) [
      | inl same ↦ (
        p,
        inl refl,
        ap (λ x. x.queue_id) (sym same),
        ap (λ x. x.attempts) same,
        λ z. ground (arith, z, e),
      )
      | inr m' ↦ let (r, m, k, a, o) = export_rows-failed ps f m' in (r, inr m, k, a, o)
    ]
  ]

  -- The row is still in a queue, perhaps with another attempt counted.
  abbrev pub Remains : QueueRow → List QueueRow → Type 0
  Remains q queue =
      (r : QueueRow) × Elem r queue × (r.id ≡ q.id) × (r.audit_log_id ≡ q.audit_log_id)

  kept-Remains :
      (ids : List String) (q r : QueueRow) (queue : List QueueRow)
      → Elem r queue
      → any (λ i. str_eq i r.id) ids ≡ false
      → Elem r (delete_rows emit ids queue)
  kept-Remains ids q r queue m free =
      (Elem-filter (λ x. not (any (λ i. str_eq i x.id) ids)) r queue).1 (m, ap not free)

  settle_failures-Remains :
      (now max_attempts : ℕ) (fs : List Failure) (queue : List QueueRow) (q : QueueRow)
      → Remains q queue
      → Remains q (settle_failures emit now max_attempts fs queue)
        ⊎ ((f : Failure) × Elem f fs × (f.queue_id ≡ q.id) × (max_attempts ≤ f.attempts))
  unfolding settle_failures
  settle_failures-Remains now max_attempts [] queue q h = inl h
  settle_failures-Remains now max_attempts (f ∷ fs) queue q (r, m, i, a) =
      let more : (queue' : List QueueRow)
          → Remains q queue'
          → Remains q (settle_failures emit now max_attempts fs queue')
            ⊎ ((g : Failure) × Elem g (f ∷ fs)
                × (g.queue_id ≡ q.id)
                × (max_attempts ≤ g.attempts)) =
        λ queue' h. elim (settle_failures-Remains now max_attempts fs queue' q h) [
          | inl k ↦ inl k
          | inr (g, n, j, b) ↦ inr (g, inr n, j, b)
        ] in
      elim (Bool-cases (leb max_attempts f.attempts)) [
        | inl over ↦ elim (Bool-cases (str_eq f.queue_id r.id)) [
          | inl hit ↦ inr (f, inl refl, (eq_iff f.queue_id r.id).0 hit ∙ i, ground (arith, over))
          | inr miss ↦
              rw (over, settle_failures)
                (more _
                  (r, kept-Remains (f.queue_id ∷ []) q r queue m (ground (arith, miss)), i, a))
        ]
        | inr under ↦
            rw (under, settle_failures)
              (more _
                (elim (Elem-update_where (λ x. str_eq x.id f.queue_id) (retried emit now f) queue r
                  m) [ inl n ↦ (r, n, i, a) | inr (_, n) ↦ (retried emit now f r, n, i, a) ]))
      ]

  -- What may become of a row of the queue: it remains, or its entry was handed over, or its attempts are used up.
  abbrev pub Fate : AuditConfig → AuditStore → QueueRow → List QueueRow → List LogRecord → Type 0
  Fate config st q queue' sent =
      Remains q queue'
      ⊎ ((a : AuditLogRow) × Elem a st.audit_log
          × (a.id ≡ q.audit_log_id)
          × (Elem (log_record a) sent
              ⊎ ((config.max_attempts ≤ q.attempts + 1) × (emit (log_record a) ≢ none))))

  drained-Fate :
      (config : AuditConfig) (now : ℕ) (st : AuditStore)
      → ((q r : QueueRow)
          → Elem q st.audit_export_queue
          → Elem r st.audit_export_queue
          → q.id ≡ r.id
          → q ≡ r)
      → (q : QueueRow) → Elem q st.audit_export_queue
      → let g = export_rows emit (pending now config.export_batch_size st) in
        Fate config st q
          (settle_failures emit now config.max_attempts g.failed
            (delete_rows emit g.delivered st.audit_export_queue))
          g.emitted
  drained-Fate config now st keyed q m =
      let ps = pending now config.export_batch_size st in
      let g = export_rows emit ps in
      elim (Bool-cases (any (λ i. str_eq i q.id) g.delivered)) [
        | inl out ↦
            let (p, n, id, ok, sent) = export_rows-delivered ps q.id out in
            let (mq, ma, ref) = pending-Elem now config.export_batch_size st p n in
            let same : p.0 ≡ q = keyed p.0 q mq m id in
            inr (p.1, ma, ref ∙ ap (λ x. x.audit_log_id) same, inl sent)
        | inr stays ↦
            elim (settle_failures-Remains now config.max_attempts g.failed
              (delete_rows emit g.delivered st.audit_export_queue) q
              (q, kept-Remains g.delivered q q st.audit_export_queue m stays, refl, refl)) [
                | inl k ↦ inl k
                | inr (f, n, id, over) ↦
                    let (p, np, idp, att, bad) = export_rows-failed ps f n in
                    let (mq, ma, ref) = pending-Elem now config.export_batch_size st p np in
                    let same : p.0 ≡ q = keyed p.0 q mq m (idp ∙ id) in
                    let used : config.max_attempts ≤ q.attempts + 1 =
                      subst (λ x. config.max_attempts ≤ x.attempts + 1) same
                        (subst (λ x. config.max_attempts ≤ x) att over) in
                    inr (p.1, ma, ref ∙ ap (λ x. x.audit_log_id) same, inr (used, bad))
              ]
      ]

  -- No audit event is lost on the way out, where the ids of the queue are distinct: after a drain each row of the queue is
  -- still in it, or the record of its entry was handed to the exporter, or the exporter refused it and its attempts are used
  -- up; and the audit log is as it was.
  pub drain_keeps :
      (config : AuditConfig) (running : Bool) (now : ℕ) (st : AuditStore)
      → ((q r : QueueRow)
          → Elem q st.audit_export_queue
          → Elem r st.audit_export_queue
          → q.id ≡ r.id
          → q ≡ r)
      → let (_, sent, st') = drain emit config running now st in
        (st'.audit_log ≡ st.audit_log)
        × ((q : QueueRow)
            → Elem q st.audit_export_queue
            → Fate config st q st'.audit_export_queue sent)
  unfolding drain
  drain_keeps config running now st keyed = elim (Bool-cases (not config.enabled || running)) [
    | inl off ↦ rw (off, drain) (refl, λ q m. inl (q, m, refl, refl))
    | inr on ↦ rw (on, drain) (refl, λ q m. drained-Fate config now st keyed q m)
  ]
