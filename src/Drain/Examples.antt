-- ===== src/Drain/Examples.antt =====
-- An instance for the drain: three rows, the second without valid JSON, and a stream that takes one message.
use remote_sql_agent.Prelude.{
  ℕ, ◌≡◌, refl, ◌==◌, Bool, true, String, str_eq, if◌then◌else◌, Option, none, some, List, [], ◌∷◌,
  length, arith,
}
use remote_sql_agent.Outbox.{Outbox, OutboxRow, OutboxKind}
use remote_sql_agent.Outbox.Bounded.{Inv}
use remote_sql_agent.Drain.{drain_outbox}
use remote_sql_agent.Drain.Complete.{Drained, drain_outbox_complete}

abbrev row : ℕ → String → OutboxRow
row id payload = record {
  id = id;
  kind = OutboxKind.activity;
  instance_name = "SQL01";
  payload = payload;
  created_at = 0;
}

abbrev queued : Outbox
queued = record {
  rows = row 1 "[1]" ∷ row 2 "oops" ∷ row 3 "[3]" ∷ [];
  next_id = 4;
  applied_commands = [];
  sync_state = [];
  max_rows = 10;
  evicted = 0;
  last_applied_command_prune_at = 0;
  depth = 3;
}

abbrev parse : String → Option String
parse s = if str_eq s "oops" then none else some s

abbrev takes : List String → String → Bool
takes taken message = length taken == 0

queued-Inv : Inv queued
queued-Inv = record {
  counted = refl;
  ordered = (omega arith, (omega arith, (omega arith, omega arith)));
}

drain_outbox_complete_example :
    (o' : Outbox) × (after : List String) × (drain_outbox parse takes 4 true queued []
      ≡ some (o', after))
    × Drained parse takes queued [] o' after
drain_outbox_complete_example =
    drain_outbox_complete parse takes 4 queued [] queued-Inv (omega arith)
