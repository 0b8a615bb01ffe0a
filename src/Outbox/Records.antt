-- ===== src/Outbox/Records.antt =====
-- packages/worker/src/outbox.ts: the sync bookmarks and the records of applied commands.
use remote_sql_agent.Prelude.{
  ℕ, ◌+◌, ◌≤◌, ◌≡◌, inl, inr, ltb, not, Bool, true, if◌then◌else◌, max, String, str_eq, eq_iff,
  Option, none, some, List, [], ◌∷◌, ◌++◌, arith, filter, find, Option-cases,
}
use remote_sql_agent.Outbox.{
  Outbox, SyncState, AppliedCommand, upsert_sync, mark_of, get_history_high_water_mark,
  set_history_high_water_mark, find_applied, applied_command_outcome, record_applied_command,
  prune_applied_commands,
}

find-upsert :
    (value : ℕ) (name other : String) (rows : List SyncState)
    → mark_of (
        find
          (λ s. str_eq s.instance_name other)
          (upsert_sync
            (λ s. record s { history_high_water_mark = max s.history_high_water_mark value })
            name
            rows))
      ≡ (if str_eq name other
          then max (mark_of (find (λ s. str_eq s.instance_name name) rows)) value
          else mark_of (find (λ s. str_eq s.instance_name other) rows))
find-upsert value name other [] = ground (arith, eq_iff name other)
find-upsert value name other (s ∷ rest) = ground (
  arith,
  eq_iff name other,
  eq_iff s.instance_name name,
  eq_iff s.instance_name other,
  find-upsert value name other rest,
)

-- Setting an instance's history mark gives the greater of the old mark and the new value, so a mark never
-- falls, and leaves the marks of other instances alone.
pub get-set_history_high_water_mark :
    (o : Outbox) (name other : String) (value : ℕ)
    → get_history_high_water_mark (set_history_high_water_mark o name value) other ≡ (
        if str_eq name other
        then max (get_history_high_water_mark o name) value
        else get_history_high_water_mark o other)
unfolding get_history_high_water_mark set_history_high_water_mark
get-set_history_high_water_mark o name other value = find-upsert value name other o.sync_state

find_applied-concat :
    (l : List AppliedCommand) (a : AppliedCommand) (id : String)
    → find_applied (l ++ a ∷ []) id ≡ elim (find_applied l id) [
      | some b ↦ some b
      | none ↦ if str_eq a.command_id id then some a else none
    ]
unfolding find_applied
find_applied-concat [] a id = ground arith
find_applied-concat (x ∷ l) a id = ground (arith, find_applied-concat l a id)

-- The first record of a command is the one that is kept, and the records of other commands do not change.
pub applied_command_outcome-record :
    (o : Outbox) (id other : String) (success : Bool) (result : Option String) (now : ℕ)
    → applied_command_outcome (record_applied_command o id success result now) other
      ≡ elim (applied_command_outcome o other) [
        | some c ↦ some c
        | none ↦
            if str_eq id other then some (record { success = success; result = result }) else none
      ]
unfolding applied_command_outcome record_applied_command
applied_command_outcome-record o id other success result now =
    elim (Option-cases (find_applied o.applied_commands id)) [
      | inl new ↦
          rw (new, record_applied_command)
            (ground (
              arith,
              eq_iff id other,
              find_applied-concat o.applied_commands
                  (record { command_id = id; applied_at = now; success = success; result = result })
                  other,
            ))
      | inr (a, old) ↦ rw (old, record_applied_command) (ground (arith, eq_iff id other))
    ]

find_applied-filter :
    (keep : AppliedCommand → Bool) (l : List AppliedCommand) (id : String) (a : AppliedCommand)
    → find_applied l id ≡ some a
    → keep a ≡ true
    → find_applied (filter keep l) id ≡ some a
unfolding find_applied
find_applied-filter keep [] id a h k = cc
find_applied-filter keep (x ∷ l) id a h k = ground (arith, find_applied-filter keep l id a)

-- Pruning forgets no record that is at most `max_age_ms` old.
pub prune_keeps_recent :
    (o : Outbox) (id : String) (a : AppliedCommand) (max_age_ms now : ℕ)
    → find_applied o.applied_commands id ≡ some a
    → now ≤ a.applied_at + max_age_ms
    → applied_command_outcome (prune_applied_commands o max_age_ms now) id
      ≡ applied_command_outcome o id
unfolding applied_command_outcome prune_applied_commands
prune_keeps_recent o id a max_age_ms now h k = ground (
  arith,
  find_applied-filter (λ (x : AppliedCommand). not (ltb (x.applied_at + max_age_ms) now))
      o.applied_commands id a h,
)
