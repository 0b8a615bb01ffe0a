-- ===== src/AuditExport.antt =====
-- packages/server/src/domain/audit-export.ts and `writeAudit` of packages/server/src/domain/audit.ts, with the tables of
-- packages/server/src/db/schema.ts: the audit log, and the queue of what is still to be exported. The exporter's `emit` is a
-- parameter, which gives the message of the exception it throws, if any; texts in a record are lists of code points. Calls of
-- the database are taken to succeed, and each call of `drain` has one reading of the clock.
pub mod Kept
mod Examples
use remote_sql_agent.Prelude.{
  ℕ, ◌+◌, ◌*◌, ◌^◌, min, ltb, leb, ◌==◌, if◌then◌else◌, Bool, true, false, not, ◌&&◌, ◌||◌, String,
  str_eq, codes, Option, none, some, or_else, List, [], ◌∷◌, ◌++◌, map, filter, find, any, length,
  take, sort_by, update_where,
}

pub record AuditLogRow : Type 0 where
  pub id : String
  pub at : ℕ
  pub actor_type : String
  pub actor : String
  pub action : String
  pub target : Option String
  pub detail : Option String
  pub remote_address : Option String

pub record AuditEntry : Type 0 where
  pub actor_type : String
  pub actor : String
  pub action : String
  pub target : Option String
  pub detail : Option String
  pub remote_address : Option String

pub record QueueRow : Type 0 where
  pub id : String
  pub audit_log_id : String
  pub attempts : ℕ
  pub last_error : Option (List ℕ)
  pub next_attempt_at : ℕ
  pub created_at : ℕ

pub record AuditStore : Type 0 where
  pub audit_log : List AuditLogRow
  pub audit_export_queue : List QueueRow

-- The transaction: the row, and its place in the queue. The UUIDs of the rows and the time are arguments.
unfoldable pub write_audit : String → String → ℕ → AuditEntry → AuditStore → AuditStore
write_audit id queue_id now entry st = record {
  audit_log =
      st.audit_log
      ++ record {
        id = id;
        at = now;
        actor_type = entry.actor_type;
        actor = entry.actor;
        action = entry.action;
        target = entry.target;
        detail = entry.detail;
        remote_address = entry.remote_address;
      }
        ∷ [];
  audit_export_queue =
      st.audit_export_queue
      ++ record {
        id = queue_id;
        audit_log_id = id;
        attempts = 0;
        last_error = none;
        next_attempt_at = now;
        created_at = now;
      }
        ∷ [];
}

pub record LogRecord : Type 0 where
  pub timestamp : ℕ
  pub is_warning : Bool
  pub body : List ℕ
  pub event_name : String
  pub audit_id : String
  pub actor : String
  pub actor_type : String
  pub target : String
  pub client_address : String
  pub detail : String

abbrev pub warning_actions : List String
warning_actions =
    "auth.login.failed" ∷ "worker.auth.failed" ∷ "command.rejected" ∷ "command.result.failed" ∷ []

-- `target ? ` ${target}` : ''`: an empty target is left out too.
abbrev pub target_text : Option String → List ℕ
target_text none = []
target_text (some t) = if str_eq t "" then [] else b' ' ∷ codes t

unfoldable pub log_record : AuditLogRow → LogRecord
log_record row = record {
  timestamp = row.at;
  is_warning = any (λ a. str_eq a row.action) warning_actions;
  body = (codes row.actor ++ b' ' ∷ codes row.action) ++ target_text row.target;
  event_name = row.action;
  audit_id = row.id;
  actor = row.actor;
  actor_type = row.actor_type;
  target = or_else row.target "";
  client_address = or_else row.remote_address "";
  detail = or_else row.detail "";
}

pub record AuditConfig : Type 0 where
  pub enabled : Bool
  pub export_batch_size : ℕ
  pub max_attempts : ℕ

pub record Failure : Type 0 where
  pub queue_id : String
  pub attempts : ℕ
  pub error : List ℕ

-- What the loop over the pending rows gathers: the ids delivered, the failures, and the records handed over.
pub record Exported : Type 0 where
  pub delivered : List String
  pub failed : List Failure
  pub emitted : List LogRecord

-- The inner join of the due rows with the log.
unfoldable pub joined : List AuditLogRow → List QueueRow → List (QueueRow × AuditLogRow)
joined log [] = []
joined log (q ∷ queue) = elim (find (λ a. str_eq a.id q.audit_log_id) log) [
  | none ↦ joined log queue
  | some a ↦ (q, a) ∷ joined log queue
]

unfoldable pub pending : ℕ → ℕ → AuditStore → List (QueueRow × AuditLogRow)
unfolding joined
pending now limit st = take limit (
    sort_by (λ p. p.0.created_at)
      (joined st.audit_log (filter (λ q. leb q.next_attempt_at now) st.audit_export_queue)))

-- `Math.min(2 ** attempts * 1000, 5 * 60 * 1000)`.
abbrev pub backoff_ms : ℕ → ℕ
backoff_ms attempts = min (2 ^ attempts * 1000) 300000

module _ (emit : LogRecord → Option (List ℕ)) where
  unfoldable pub export_rows : List (QueueRow × AuditLogRow) → Exported
  unfolding log_record
  export_rows [] = record { delivered = []; failed = []; emitted = [] }
  export_rows (p ∷ ps) =
      let rest = export_rows ps in
      elim (emit (log_record p.1)) [
        | none ↦ record rest {
          delivered = p.0.id ∷ rest.delivered;
          emitted = log_record p.1 ∷ rest.emitted;
        }
        | some error ↦ record rest {
          failed =
              record { queue_id = p.0.id; attempts = p.0.attempts + 1; error = error }
              ∷ rest.failed;
        }
      ]

  -- `delete ... where id in (delivered)`, and `delete ... where id = queueId`.
  abbrev pub delete_rows : List String → List QueueRow → List QueueRow
  delete_rows ids queue = filter (λ q. not (any (λ i. str_eq i q.id) ids)) queue

  abbrev pub retried : ℕ → Failure → QueueRow → QueueRow
  retried now f q = record q {
    attempts = f.attempts;
    last_error = some (take 1000 f.error);
    next_attempt_at = now + backoff_ms f.attempts;
  }

  -- The loop over the failures.
  unfoldable pub settle_failures : ℕ → ℕ → List Failure → List QueueRow → List QueueRow
  settle_failures now max_attempts [] queue = queue
  settle_failures now max_attempts (f ∷ fs) queue = settle_failures now max_attempts fs (
      if leb max_attempts f.attempts
      then delete_rows (f.queue_id ∷ []) queue
      else update_where (λ q. str_eq q.id f.queue_id) (retried now f) queue)

  -- How many were delivered, what was handed over, and the store; `running` says that another call is under way.
  unfoldable pub drain : AuditConfig → Bool → ℕ → AuditStore → ℕ × List LogRecord × AuditStore
  unfolding pending export_rows settle_failures
  drain config running now st =
      if not config.enabled || running
      then (0, [], st)
      else (let g = export_rows (pending now config.export_batch_size st) in
          (
            length g.delivered,
            g.emitted,
            record st {
              audit_export_queue =
                  settle_failures now config.max_attempts g.failed
                    (delete_rows g.delivered st.audit_export_queue);
            },
          ))
