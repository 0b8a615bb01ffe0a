-- ===== src/Outbox.antt =====
-- packages/worker/src/outbox.ts: the worker's durable outbox, its sync bookmarks and its records of
-- applied commands. A table is the list of its rows, the outbox table in the order of its ids; times are
-- in milliseconds, and the clock is an argument of each operation that reads it.
pub mod Bounded
pub mod Hashes
pub mod Queue
pub mod Records
mod Examples
use remote_sql_agent.Prelude.{
  ℕ, zero, suc, ◌+◌, ◌-◌, ◌==◌, ltb, leb, if◌then◌else◌, Bool, true, false, not, String, str_eq,
  Option, none, some, List, [], ◌∷◌, ◌++◌, length, take, drop, filter, find, is_some, max,
}

pub data OutboxKind : Type 0 where
  history activity agent_log : OutboxKind

pub record OutboxRow : Type 0 where
  pub id : ℕ
  pub kind : OutboxKind
  pub instance_name : String
  pub payload : String
  pub created_at : ℕ

pub record AppliedCommand : Type 0 where
  pub command_id : String
  pub applied_at : ℕ
  pub success : Bool
  pub result : Option String

pub record SyncState : Type 0 where
  pub instance_name : String
  pub history_high_water_mark : ℕ
  pub agent_log_high_water : Option ℕ
  pub definition_hashes : Option String

pub record Outbox : Type 0 where
  pub rows : List OutboxRow
  -- What AUTOINCREMENT gives the next row.
  pub next_id : ℕ
  pub applied_commands : List AppliedCommand
  pub sync_state : List SyncState
  pub max_rows : ℕ
  pub evicted : ℕ
  pub last_applied_command_prune_at : ℕ
  pub depth : ℕ

-- 24 hours and one hour.
abbrev pub applied_command_retention_ms : ℕ
applied_command_retention_ms = 86400000

abbrev pub applied_command_prune_interval_ms : ℕ
applied_command_prune_interval_ms = 3600000

-- `DELETE ... WHERE id IN (SELECT id ... ORDER BY id ASC LIMIT excess)`: the oldest rows go.
unfoldable pub evict_if_needed : Outbox → Outbox
evict_if_needed o =
    if leb o.depth o.max_rows
    then o
    else (let excess = o.depth - o.max_rows in
        let kept = drop excess o.rows in
        let removed = length o.rows - length kept in
        record o { rows = kept; evicted = o.evicted + removed; depth = o.depth - removed })

unfoldable pub enqueue : Outbox → OutboxKind → String → String → ℕ → Outbox
unfolding evict_if_needed
enqueue o kind instance_name payload now = evict_if_needed (record o {
  rows =
      o.rows
      ++ record {
        id = o.next_id;
        kind = kind;
        instance_name = instance_name;
        payload = payload;
        created_at = now;
      }
        ∷ [];
  next_id = suc o.next_id;
  depth = o.depth + 1;
})

unfoldable pub peek : Outbox → ℕ → List OutboxRow
peek o limit = take limit o.rows

-- `DELETE FROM outbox WHERE id = ?`.
abbrev pub delete_id : ℕ → List OutboxRow → List OutboxRow
delete_id i rows = filter (λ r. not (r.id == i)) rows

-- The loop over the ids, with the count of rows removed.
unfoldable pub delete_ids : List ℕ → List OutboxRow → ℕ → List OutboxRow × ℕ
delete_ids [] rows removed = (rows, removed)
delete_ids (i ∷ ids) rows removed =
    delete_ids ids (delete_id i rows) (removed + (length rows - length (delete_id i rows)))

unfoldable pub acknowledge : Outbox → List ℕ → Outbox
unfolding delete_ids
acknowledge o [] = o
acknowledge o (i ∷ ids) =
    let (rows, removed) = delete_ids (i ∷ ids) o.rows 0 in
    record o { rows = rows; depth = o.depth - removed }

pub record OutboxStats : Type 0 where
  pub depth : ℕ
  pub evicted : ℕ

unfoldable pub stats : Outbox → OutboxStats
stats o = record { depth = o.depth; evicted = o.evicted }

-- The sync bookmarks: one row to an instance.
abbrev pub sync_row : Outbox → String → Option SyncState
sync_row o name = find (λ s. str_eq s.instance_name name) o.sync_state

abbrev pub blank_sync : String → SyncState
blank_sync name = record {
  instance_name = name;
  history_high_water_mark = 0;
  agent_log_high_water = none;
  definition_hashes = none;
}

-- `INSERT ... ON CONFLICT (instance_name) DO UPDATE`: `change` on the row that is there, or on a new one
-- with the column defaults.
abbrev pub upsert_sync : (SyncState → SyncState) → String → List SyncState → List SyncState
upsert_sync change name [] = change (blank_sync name) ∷ []
upsert_sync change name (s ∷ rest) =
    if str_eq s.instance_name name then change s ∷ rest else s ∷ upsert_sync change name rest

abbrev mark_of : Option SyncState → ℕ
mark_of none = 0
mark_of (some s) = s.history_high_water_mark

unfoldable pub get_history_high_water_mark : Outbox → String → ℕ
get_history_high_water_mark o name = mark_of (sync_row o name)

unfoldable pub set_history_high_water_mark : Outbox → String → ℕ → Outbox
set_history_high_water_mark o name value = record o {
  sync_state =
      upsert_sync (λ s. record s { history_high_water_mark = max s.history_high_water_mark value })
        name o.sync_state;
}

-- `row?.hwm ? new Date(row.hwm) : null`: a mark of 0 reads as no mark.
abbrev log_mark_of : Option SyncState → Option ℕ
log_mark_of none = none
log_mark_of (some s) = elim s.agent_log_high_water [
  | none ↦ none
  | some t ↦ if t == 0 then none else some t
]

unfoldable pub get_agent_log_high_water_mark : Outbox → String → Option ℕ
get_agent_log_high_water_mark o name = log_mark_of (sync_row o name)

-- `MAX(COALESCE(agent_log_high_water, 0), excluded.agent_log_high_water)`.
abbrev later_of : Option ℕ → ℕ → ℕ
later_of none v = v
later_of (some t) v = max t v

unfoldable pub set_agent_log_high_water_mark : Outbox → String → ℕ → Outbox
set_agent_log_high_water_mark o name value = record o {
  sync_state =
      upsert_sync
        (λ s. record s { agent_log_high_water = some (later_of s.agent_log_high_water value) }) name
        o.sync_state;
}

unfoldable pub find_applied : List AppliedCommand → String → Option AppliedCommand
find_applied applied command_id = find (λ a. str_eq a.command_id command_id) applied

unfoldable pub has_applied_command : Outbox → String → Bool
has_applied_command o command_id = is_some (find_applied o.applied_commands command_id)

pub record CommandOutcome : Type 0 where
  pub success : Bool
  pub result : Option String

abbrev pub outcome_of : Option AppliedCommand → Option CommandOutcome
outcome_of none = none
outcome_of (some a) = some (record { success = a.success; result = a.result })

unfoldable pub applied_command_outcome : Outbox → String → Option CommandOutcome
applied_command_outcome o command_id = outcome_of (find_applied o.applied_commands command_id)

-- `ON CONFLICT (command_id) DO NOTHING`.
unfoldable pub record_applied_command : Outbox → String → Bool → Option String → ℕ → Outbox
record_applied_command o command_id success result now =
    elim (find_applied o.applied_commands command_id) [
      | some _ ↦ o
      | none ↦ record o {
        applied_commands =
            o.applied_commands
            ++ record {
              command_id = command_id;
              applied_at = now;
              success = success;
              result = result;
            }
              ∷ [];
      }
    ]

-- `now - last < interval`, and `applied_at < now - maxAge`, are written without a difference that stops at 0.
unfoldable pub prune_applied_commands : Outbox → ℕ → ℕ → Outbox
prune_applied_commands o max_age_ms now =
    if ltb now (o.last_applied_command_prune_at + applied_command_prune_interval_ms)
    then o
    else record o {
      last_applied_command_prune_at = now;
      applied_commands = filter (λ a. not (ltb (a.applied_at + max_age_ms) now)) o.applied_commands;
    }
