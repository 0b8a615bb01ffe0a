-- ===== src/AuditExport/Examples.antt =====
-- Instances for the export of the audit log: an event that the exporter takes, and one that it refuses.
use remote_sql_agent.Prelude.{
  ℕ, ◌≡◌, refl, sym, ◌∙◌, inl, inr, true, false, String, str_eq, eq_iff, if◌then◌else◌, Option,
  none, some, List, [], ◌∷◌, Elem, map, codes, arith,
}
use remote_sql_agent.AuditExport.{
  AuditEntry, QueueRow, AuditStore, LogRecord, AuditConfig, write_audit, log_record, joined,
  pending, export_rows, settle_failures, drain,
}
use remote_sql_agent.AuditExport.Kept.{Fate, drain_keeps}

abbrev entry : String → AuditEntry
entry action = record {
  actor_type = "user";
  actor = "ann";
  action = action;
  target = none;
  detail = none;
  remote_address = none;
}

abbrev store : AuditStore
store = write_audit "a2" "q2" 20 (entry "command.rejected") (
    write_audit "a1" "q1" 10 (entry "command.approved")
      (record { audit_log = []; audit_export_queue = [] }))

-- The exporter refuses rejections.
abbrev emit : LogRecord → Option (List ℕ)
emit r = if str_eq r.event_name "command.rejected" then some (codes "down") else none

abbrev config : AuditConfig
config = record { enabled = true; export_batch_size = 10; max_attempts = 5 }

drained : map (λ q. q.id) (drain emit config false 30 store).2.audit_export_queue ≡ "q2" ∷ []
unfolding drain pending joined export_rows settle_failures write_audit log_record
drained = refl

-- 30 s and the first backoff of two seconds.
backed_off :
    map (λ q. q.next_attempt_at) (drain emit config false 30 store).2.audit_export_queue ≡ 2030 ∷ []
unfolding drain pending joined export_rows settle_failures write_audit log_record
backed_off = refl

store-keyed :
    (q r : QueueRow)
    → Elem q store.audit_export_queue
    → Elem r store.audit_export_queue
    → q.id ≡ r.id
    → q ≡ r
unfolding write_audit
store-keyed q r (inl e) (inl f) k = e ∙ sym f
store-keyed q r (inr (inl e)) (inr (inl f)) k = e ∙ sym f
store-keyed q r (inl e) (inr (inl f)) k = absurd (ground (arith, e, f, k, eq_iff "q1" "q2"))
store-keyed q r (inr (inl e)) (inl f) k = absurd (ground (arith, e, f, k, eq_iff "q1" "q2"))
store-keyed q r (inr (inr m)) n k = absurd m
store-keyed q r (inl e) (inr (inr m)) k = absurd m
store-keyed q r (inr (inl e)) (inr (inr m)) k = absurd m

drain_keeps_example :
    let (_, sent, st') = drain emit config false 30 store in
    (st'.audit_log ≡ store.audit_log)
    × ((q : QueueRow)
        → Elem q store.audit_export_queue
        → Fate emit config store q st'.audit_export_queue sent)
drain_keeps_example = drain_keeps emit config false 30 store store-keyed
