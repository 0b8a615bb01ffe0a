-- ===== src/Monitor/Emit.antt =====
-- packages/worker/src/index.ts: `emit`, which hands a message to the session of the moment and queues what must not be
-- lost. Whether `session?.send(message)` takes a message, given the calls before, is a parameter, as is `JSON.stringify`.
-- The schedules, operators and alerts of a snapshot are left out.
use remote_sql_agent.Prelude.{
  ℕ, Option, ◌≡◌, if◌then◌else◌, Bool, Bool-cases, true, false, String, List, [], ◌∷◌, ◌++◌, inl,
  inr,
}
use remote_sql_agent.Signing.{Timestamp}
use remote_sql_agent.Outbox.{Outbox, OutboxKind, enqueue}
use remote_sql_agent.Worker.Msdb.{JobDefinitionBlob}
use remote_sql_agent.Ingest.Tables.{HistoryRow}
use remote_sql_agent.Ingest.Activity.{ActivityRow}
use remote_sql_agent.Snapshots.Chunks.{Snapshot}

pub record JobDefinitionDelta : Type 0 where
  pub instance_name : String
  pub job : Option JobDefinitionBlob
  pub deleted : Bool
  pub applied_command_id : String

pub record AgentLogRow : Type 0 where
  pub logged_at : Timestamp
  pub severity : String
  pub message : String
  pub process_info : String

pub data WorkerMessage : Type 0 where
  snapshot : Snapshot → WorkerMessage
  definition : JobDefinitionDelta → WorkerMessage
  history : String → List HistoryRow → WorkerMessage
  activity : String → List ActivityRow → WorkerMessage
  agent_log : String → List AgentLogRow → WorkerMessage

-- A call of `emit` and its answer.
pub record Call : Type 0 where
  pub message : WorkerMessage
  pub accepted : Bool

-- What the monitors share: the calls of `emit` so far, in order, and the outbox.
pub record Shared : Type 0 where
  pub calls : List Call
  pub outbox : Outbox

abbrev pub accepted_messages : List Call → List WorkerMessage
accepted_messages [] = []
accepted_messages (c ∷ cs) =
    let rest = accepted_messages cs in if c.accepted then c.message ∷ rest else rest

module _ (takes : List Call → WorkerMessage → Bool) (stringify : WorkerMessage → String) where
  -- `outbox.enqueue` for the kinds that are durable.
  unfoldable pub keep : ℕ → WorkerMessage → Outbox → Outbox
  keep now (snapshot s) o = o
  keep now (definition d) o = o
  keep now (history name rows) o =
      enqueue o OutboxKind.history name (stringify (history name rows)) now
  keep now (activity name rows) o =
      enqueue o OutboxKind.activity name (stringify (activity name rows)) now
  keep now (agent_log name rows) o =
      enqueue o OutboxKind.agent_log name (stringify (agent_log name rows)) now

  abbrev pub called : WorkerMessage → Bool → List Call → List Call
  called m answer cs = cs ++ record { message = m; accepted = answer } ∷ []

  unfoldable pub emit : ℕ → WorkerMessage → Shared → Bool × Shared
  unfolding keep
  emit now m w =
      if takes w.calls m
      then (true, record w { calls = called m true w.calls })
      else (false, record { calls = called m false w.calls; outbox = keep now m w.outbox })

  -- `forEach` of emit.
  unfoldable pub emit_all : ℕ → List WorkerMessage → Shared → Shared
  emit_all now [] w = w
  emit_all now (m ∷ ms) w = emit_all now ms (emit now m w).1

  abbrev pub CallsOf : Shared → Shared → List Call → Type 0
  CallsOf w w' cs = w'.calls ≡ w.calls ++ cs

  pub emit-calls :
      (now : ℕ) (m : WorkerMessage) (w : Shared)
      → (emit now m w).1.calls ≡ called m (emit now m w).0 w.calls
  unfolding emit
  emit-calls now m w = elim (Bool-cases (takes w.calls m)) [
    | inl e ↦ rw (e, emit)
    | inr e ↦ rw (e, emit)
  ]

  -- A refused message of a durable kind is queued, and nothing else touches the queue.
  pub emit-outbox :
      (now : ℕ) (m : WorkerMessage) (w : Shared)
      → (emit now m w).1.outbox ≡ (if (emit now m w).0 then w.outbox else keep now m w.outbox)
  unfolding emit
  emit-outbox now m w = elim (Bool-cases (takes w.calls m)) [
    | inl e ↦ rw (e, emit)
    | inr e ↦ rw (e, emit)
  ]
