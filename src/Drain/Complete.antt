-- ===== src/Drain/Complete.antt =====
-- packages/worker/src/drain-outbox.ts: what a drain does to the queue and the stream.
use remote_sql_agent.Prelude.{
  ℕ, zero, suc, ◌<◌, ◌≡◌, refl, sym, ap, ◌∙◌, subst, ◌⊎◌, inl, inr, Bool, true, String, Option,
  some, List, [], ◌∷◌, ◌++◌, arith, length, drop, take-append-drop, length-append, Bool-cases,
  List-cases,
}
use mathlib.Core.List.{append_assoc, append-nil}
use remote_sql_agent.Outbox.{Outbox, OutboxRow, peek, acknowledge}
use remote_sql_agent.Outbox.Bounded.{Inv, acknowledge-Inv}
use remote_sql_agent.Drain.{Batch, send_batch, drain_loop, drain_outbox, outbox_drain_batch}
use remote_sql_agent.Drain.Rounds.{
  Splits, messages-append, acknowledge-prefix, messages, Refuses, send_batch-Splits,
}

module _ {M : Type 0} (parse : String → Option M) (takes : List M → M → Bool) where
  -- What a drain leaves: the rows that were sent or discarded come before those that stay, the stream has
  -- taken exactly the messages of the former in order, and something stays only because the stream refused
  -- the message of the first row that does.
  pub record Drained (o : Outbox) (before : List M) (o' : Outbox) (after : List M) : Type 0 where
    pub sent_rows : List OutboxRow
    pub splits : o.rows ≡ sent_rows ++ o'.rows
    pub output : after ≡ before ++ messages parse takes sent_rows
    pub stops : (o'.rows ≡ []) ⊎ Refuses parse takes o'.rows after
    pub sound : Inv o'

  peek-splits : (o : Outbox) → peek o outbox_drain_batch ++ drop outbox_drain_batch o.rows ≡ o.rows
  unfolding peek
  peek-splits o = take-append-drop outbox_drain_batch o.rows

  peek-empty : (o : Outbox) → peek o outbox_drain_batch ≡ [] → o.rows ≡ []
  unfolding peek
  peek-empty o h = elim (List-cases o.rows) [ inl e ↦ e | inr (r, rs, e) ↦ absurd (ground arith) ]

  -- One round: the rows sent are gone from the queue, and the others stay in order.
  round_lem :
      (o : Outbox) (before : List M) (b : Batch M)
      → Inv o
      → (s : Splits parse takes (peek o outbox_drain_batch) [] before b)
      → (o.rows ≡ s.sent_rows ++ (acknowledge o b.sent).rows)
        × ((acknowledge o b.sent).rows ≡ s.left_rows ++ drop outbox_drain_batch o.rows)
  round_lem o before b v s =
      let later = drop outbox_drain_batch o.rows in
      let full : o.rows ≡ s.sent_rows ++ (s.left_rows ++ later) =
        sym (peek-splits o)
        ∙ ap (λ (l : List OutboxRow). l ++ later) s.splits
        ∙ append_assoc s.sent_rows s.left_rows later in
      let left : (acknowledge o b.sent).rows ≡ s.left_rows ++ later =
        ap (λ (l : List ℕ). (acknowledge o l).rows) s.ids
        ∙ acknowledge-prefix o s.sent_rows (s.left_rows ++ later) full v in
      (full ∙ ap (◌++◌ s.sent_rows) (sym left), left)

  extend-Drained :
      (o o₁ : Outbox) (before middle : List M) (sent : List OutboxRow) (o' : Outbox)
      (after : List M)
      → o.rows ≡ sent ++ o₁.rows
      → middle ≡ before ++ messages parse takes sent
      → Drained o₁ middle o' after
      → Drained o before o' after
  extend-Drained o o₁ before middle sent o' after e m dr = record {
    sent_rows = sent ++ dr.sent_rows;
    splits = e ∙ ap (◌++◌ sent) dr.splits ∙ sym (append_assoc sent dr.sent_rows o'.rows);
    output =
        dr.output
        ∙ ap (λ (l : List M). l ++ messages parse takes dr.sent_rows) m
        ∙ append_assoc before (messages parse takes sent) (messages parse takes dr.sent_rows)
        ∙ ap (◌++◌ before) (sym (messages-append parse takes sent dr.sent_rows));
    stops = dr.stops;
    sound = dr.sound;
  }

  stopped-Drained :
      (o : Outbox) (before : List M) (b : Batch M)
      → Inv o
      → (s : Splits parse takes (peek o outbox_drain_batch) [] before b) → b.stopped_early ≡ true
      → Drained o before (acknowledge o b.sent) b.delivered
  stopped-Drained o before b v s st =
      let (full, left) = round_lem o before b v s in
      let (r, rs, m, e, good, no_more) = s.refused st in
      record {
        sent_rows = s.sent_rows;
        splits = full;
        output = s.output;
        stops = inr (
          r,
          rs ++ drop outbox_drain_batch o.rows,
          m,
          left ∙ ap (λ (l : List OutboxRow). l ++ drop outbox_drain_batch o.rows) e,
          good,
          no_more,
        );
        sound = (acknowledge-Inv o b.sent v).0;
      }

  drain_loop-Drained :
      (fuel : ℕ) (o : Outbox) (before : List M)
      → Inv o
      → length o.rows < fuel
      → (o' : Outbox) × (after : List M) × (drain_loop parse takes fuel o before ≡ some (o', after))
        × Drained o before o' after
  unfolding drain_loop
  drain_loop-Drained zero o before v h = elim h [ ]
  drain_loop-Drained (suc fuel) o before v h = elim (List-cases (peek o outbox_drain_batch)) [
    | inl e ↦ (
      o,
      before,
      rw (e, drain_loop),
      record {
        sent_rows = [];
        splits = refl;
        output = sym (append-nil before);
        stops = inl (peek-empty o e);
        sound = v;
      },
    )
    | inr (row, rest, e) ↦
        let b = send_batch parse takes (row ∷ rest) [] before in
        let s : Splits parse takes (peek o outbox_drain_batch) [] before b =
          subst (λ l. Splits parse takes l [] before b) (sym e)
            (send_batch-Splits parse takes (row ∷ rest) [] before) in
        let (full, left) = round_lem o before b v s in
        elim (Bool-cases b.stopped_early) [
          | inl st ↦ (
            acknowledge o b.sent,
            b.delivered,
            rw (e, drain_loop, st),
            stopped-Drained o before b v s st,
          )
          | inr more ↦
              let whole : row ∷ rest ≡ s.sent_rows ++ s.left_rows = sym e ∙ s.splits in
              let fewer : length (acknowledge o b.sent).rows < fuel = omega (
                arith,
                ap length full,
                ap length whole,
                ap length (s.whole more),
                length-append s.sent_rows (acknowledge o b.sent).rows,
                length-append s.sent_rows s.left_rows,
              ) in
              let (o', after, returns, dr) =
                drain_loop-Drained fuel (acknowledge o b.sent) b.delivered
                  (acknowledge-Inv o b.sent v).0 fewer in
              (
                o',
                after,
                ground arith,
                extend-Drained o (acknowledge o b.sent) before b.delivered s.sent_rows o' after full
                    s.output dr,
              )
        ]
  ]

-- With a connected session, an outbox that holds its invariant and fuel above the number of rows the drain returns: each queued row is, in order,
-- either sent (or discarded, if its payload is not valid JSON) and removed, or it stays; and rows stay only
-- behind a message that the stream refused.
pub drain_outbox_complete :
    {M : Type 0} (parse : String → Option M) (takes : List M → M → Bool) (fuel : ℕ) (o : Outbox)
    (before : List M)
    → Inv o
    → length o.rows < fuel
    → (o' : Outbox) × (after : List M) × (drain_outbox parse takes fuel true o before
        ≡ some (o', after))
      × Drained parse takes o before o' after
unfolding drain_outbox
drain_outbox_complete parse takes = drain_loop-Drained parse takes
