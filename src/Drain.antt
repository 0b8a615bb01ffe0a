-- ===== src/Drain.antt =====
-- packages/worker/src/drain-outbox.ts: shipping the queue while the session takes it. What `JSON.parse`
-- makes of a payload and whether the stream takes a message, given those it took before, are parameters.
pub mod Rounds
pub mod Complete
mod Examples
use remote_sql_agent.Prelude.{
  ℕ, zero, suc, if◌then◌else◌, Bool, true, false, String, Option, none, some, List, [], ◌∷◌, ◌++◌,
}
use remote_sql_agent.Outbox.{Outbox, OutboxRow, peek, acknowledge}

abbrev pub outbox_drain_batch : ℕ
outbox_drain_batch = 50

-- What the loop over one batch leaves: the ids to acknowledge, the messages that the stream has taken so
-- far, and `stoppedEarly`.
pub record Batch (M : Type 0) : Type 0 where
  pub sent : List ℕ
  pub delivered : List M
  pub stopped_early : Bool

module _ {M : Type 0} (parse : String → Option M) (takes : List M → M → Bool) where
  unfoldable pub send_batch : List OutboxRow → List ℕ → List M → Batch M
  send_batch [] sent delivered = record {
    sent = sent;
    delivered = delivered;
    stopped_early = false;
  }
  send_batch (row ∷ rest) sent delivered = elim (parse row.payload) [
    | none ↦ send_batch rest (sent ++ row.id ∷ []) delivered
    | some message ↦ elim (takes delivered message) [
      | false ↦ record { sent = sent; delivered = delivered; stopped_early = true }
      | true ↦ send_batch rest (sent ++ row.id ∷ []) (delivered ++ message ∷ [])
    ]
  ]

  -- The `for (;;)` loop on fuel; `none` says that the fuel ran out.
  unfoldable pub drain_loop : ℕ → Outbox → List M → Option (Outbox × List M)
  drain_loop zero o delivered = none
  drain_loop (suc fuel) o delivered = elim (peek o outbox_drain_batch) [
    | [] ↦ some (o, delivered)
    | row ∷ rest ↦
        let b = send_batch (row ∷ rest) [] delivered in
        let o' = acknowledge o b.sent in
        elim b.stopped_early [
          | true ↦ some (o', b.delivered)
          | false ↦ drain_loop fuel o' b.delivered
        ]
  ]

  unfoldable pub drain_outbox : ℕ → Bool → Outbox → List M → Option (Outbox × List M)
  unfolding drain_loop
  drain_outbox fuel connected o delivered = elim connected [
    | false ↦ some (o, delivered)
    | true ↦ drain_loop fuel o delivered
  ]
