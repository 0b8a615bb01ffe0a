-- ===== src/Drain/Rounds.antt =====
-- packages/worker/src/drain-outbox.ts: one batch, and its acknowledgement.
use remote_sql_agent.Prelude.{
  ℕ, suc, ◌<◌, ◌≡◌, refl, sym, ap, ◌∙◌, inl, inr, Bool, true, false, String, Option, none, some,
  List, [], ◌∷◌, ◌++◌, map, arith, Bool-cases, Option-cases,
}
use mathlib.Core.List.{append_assoc, append-nil}
use remote_sql_agent.Outbox.{Outbox, OutboxRow, acknowledge, delete_id, delete_ids}
use remote_sql_agent.Outbox.Bounded.{Inv, Ascends}
use remote_sql_agent.Drain.{Batch, send_batch}

abbrev pub ids_of : List OutboxRow → List ℕ
ids_of = map (λ r. r.id)

pub delete_id-below :
    (i lo hi : ℕ) (rs : List OutboxRow) → i < lo → Ascends lo hi rs → delete_id i rs ≡ rs
delete_id-below i lo hi [] h p = refl
delete_id-below i lo hi (r ∷ rs) h p =
    ground (arith, delete_id-below i (suc r.id) hi rs (omega arith) p.1)

pub delete_ids-prefix :
    (sent rest : List OutboxRow) (k lo hi : ℕ)
    → Ascends lo hi (sent ++ rest)
    → (delete_ids (ids_of sent) (sent ++ rest) k).0 ≡ rest
unfolding delete_ids
delete_ids-prefix [] rest k lo hi p = refl
delete_ids-prefix (r ∷ sent) rest k lo hi p =
    let gone : delete_id r.id (r ∷ sent ++ rest) ≡ sent ++ rest =
      ground (arith, delete_id-below r.id (suc r.id) hi (sent ++ rest) (omega arith) p.1) in
    rw (gone, delete_ids) (delete_ids-prefix sent rest _ (suc r.id) hi p.1)

-- Acknowledging the oldest rows leaves the others.
pub acknowledge-prefix :
    (o : Outbox) (sent rest : List OutboxRow)
    → o.rows ≡ sent ++ rest
    → Inv o
    → (acknowledge o (ids_of sent)).rows ≡ rest
unfolding acknowledge
acknowledge-prefix o [] rest e v = e
acknowledge-prefix o (r ∷ sent) rest e v =
    rw e (delete_ids-prefix (r ∷ sent) rest 0 0 o.next_id (rw e at v.ordered))

module _ {M : Type 0} (parse : String → Option M) (takes : List M → M → Bool) where
  -- The messages of the rows whose payload is valid, in order.
  abbrev pub messages : List OutboxRow → List M
  messages [] = []
  messages (r ∷ rs) = elim (parse r.payload) [ none ↦ messages rs | some m ↦ m ∷ messages rs ]

  -- The stream refuses the message of the first row.
  abbrev pub Refuses : List OutboxRow → List M → Type 0
  Refuses rows delivered =
      (r : OutboxRow) × (rest : List OutboxRow) × (m : M) × (rows ≡ r ∷ rest)
      × (parse r.payload ≡ some m)
      × (takes delivered m ≡ false)

  pub record Splits (rows : List OutboxRow) (acc : List ℕ) (before : List M) (b : Batch M)
      : Type 0 where
    pub sent_rows : List OutboxRow
    pub left_rows : List OutboxRow
    pub splits : rows ≡ sent_rows ++ left_rows
    pub ids : b.sent ≡ acc ++ ids_of sent_rows
    pub output : b.delivered ≡ before ++ messages sent_rows
    pub whole : b.stopped_early ≡ false → left_rows ≡ []
    pub refused : b.stopped_early ≡ true → Refuses left_rows b.delivered

  pub send_batch-Splits :
      (rows : List OutboxRow) (acc : List ℕ) (before : List M)
      → Splits rows acc before (send_batch parse takes rows acc before)
  unfolding send_batch
  send_batch-Splits [] acc before = record {
    sent_rows = [];
    left_rows = [];
    splits = refl;
    ids = sym (append-nil acc);
    output = sym (append-nil before);
    whole = λ _. refl;
    refused = λ h. cc;
  }
  send_batch-Splits (r ∷ rs) acc before = elim (Option-cases (parse r.payload)) [
    | inl bad ↦
        let s = send_batch-Splits rs (acc ++ r.id ∷ []) before in
        rw (bad, send_batch)
          (record {
            sent_rows = r ∷ s.sent_rows;
            left_rows = s.left_rows;
            splits = ap (◌∷◌ r) s.splits;
            ids = s.ids ∙ append_assoc acc (r.id ∷ []) (ids_of s.sent_rows);
            output = rw (bad, messages) s.output;
            whole = s.whole;
            refused = s.refused;
          })
    | inr (m, good) ↦ elim (Bool-cases (takes before m)) [
      | inr no_more ↦
          rw (good, no_more, send_batch)
            (record {
              sent_rows = [];
              left_rows = r ∷ rs;
              splits = refl;
              ids = sym (append-nil acc);
              output = sym (append-nil before);
              whole = λ h. cc;
              refused = λ _. (r, rs, m, refl, good, no_more);
            })
      | inl taken ↦
          let s = send_batch-Splits rs (acc ++ r.id ∷ []) (before ++ m ∷ []) in
          rw (good, taken, send_batch)
            (record {
              sent_rows = r ∷ s.sent_rows;
              left_rows = s.left_rows;
              splits = ap (◌∷◌ r) s.splits;
              ids = s.ids ∙ append_assoc acc (r.id ∷ []) (ids_of s.sent_rows);
              output =
                  rw (good, messages)
                    (s.output ∙ append_assoc before (m ∷ []) (messages s.sent_rows));
              whole = s.whole;
              refused = s.refused;
            })
    ]
  ]

  pub messages-append : (xs ys : List OutboxRow) → messages (xs ++ ys) ≡ messages xs ++ messages ys
  messages-append [] ys = refl
  messages-append (r ∷ xs) ys = ground (arith, messages-append xs ys)
