-- ===== src/Outbox/Examples.antt =====
-- Tests and instances for the outbox: one with room for two rows.
use remote_sql_agent.Prelude.{
  ℕ, List, ◌+◌, ◌≡◌, refl, ◌≤◌, true, none, some, [], ◌∷◌, ◌++◌, length, drop, arith,
}
use remote_sql_agent.Outbox.{Outbox, OutboxRow, OutboxKind, AppliedCommand, enqueue, find_applied}
use remote_sql_agent.Outbox.Bounded.{Inv, new_row, enqueue_bounded}
use remote_sql_agent.Outbox.Queue.{
  Op, queues, acknowledges, queue_run, run, view, Shows, run_refines,
}

abbrev row : ℕ → OutboxRow
row id = record {
  id = id;
  kind = OutboxKind.history;
  instance_name = "SQL01";
  payload = "{}";
  created_at = 5;
}

abbrev applied : AppliedCommand
applied = record { command_id = "c1"; applied_at = 100; success = true; result = none }

abbrev full : Outbox
full = record {
  rows = row 1 ∷ row 2 ∷ [];
  next_id = 3;
  applied_commands = applied ∷ [];
  sync_state = [];
  max_rows = 2;
  evicted = 0;
  last_applied_command_prune_at = 0;
  depth = 2;
}

full-Inv : Inv full
full-Inv = record { counted = refl; ordered = (omega arith, (omega arith, omega arith)) }

enqueue_bounded_example :
    let o' = enqueue full OutboxKind.activity "SQL01" "[]" 9 in
    (length o'.rows ≤ 2)
    × (o'.rows ≡ drop 1 (full.rows ++ new_row full OutboxKind.activity "SQL01" "[]" 9 ∷ []))
    × (o'.evicted + length o'.rows ≡ 3)
enqueue_bounded_example = enqueue_bounded full OutboxKind.activity "SQL01" "[]" 9 full-Inv

full-find_applied : find_applied full.applied_commands "c1" ≡ some applied
unfolding find_applied
full-find_applied = refl

abbrev ops : List Op
ops = queues OutboxKind.activity "SQL01" "[]" 9 ∷ acknowledges (2 ∷ []) ∷ []

run_refines_example : Shows (run ops full) (queue_run 2 ops (view full))
run_refines_example = run_refines ops full full-Inv

-- The oldest row is lost, and the next is acknowledged.
run_lost : (queue_run 2 ops (view full)).lost ≡ 1
run_lost = refl
