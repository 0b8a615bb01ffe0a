-- ===== src/Monitor/Drained.antt =====
-- packages/worker/src/instance-monitor.ts: one round of the loop of `pollHistory`, and what rounds leave together.
use remote_sql_agent.Prelude.{
  ℕ, suc, ◌<◌, ltb, max, ◌≡◌, refl, sym, ap, ◌∙◌, Bool, true, false, String, eq_iff, Option, some,
  List, [], ◌∷◌, ◌++◌, append-nil, append_assoc, map, filter, take, length, arith,
}
use remote_sql_agent.Ingest.Tables.{HistoryRow}
use remote_sql_agent.Outbox.{
  enqueue, evict_if_needed, get_history_high_water_mark, set_history_high_water_mark,
}
use remote_sql_agent.Outbox.Records.{get-set_history_high_water_mark}
use remote_sql_agent.Monitor.Emit.{WorkerMessage, history, Call, Shared, emit, keep, emit-calls}
use remote_sql_agent.Monitor.Reading.{
  SysJobHistory, HistoryRecord, is_above, records, read_history_since,
}
use remote_sql_agent.Monitor.Polls.{row_of, max_id, poll_history}
use remote_sql_agent.Monitor.Suffix.{top_id, records-append}

abbrev pub concat_rows : List (Bool × List HistoryRow) → List HistoryRow
concat_rows [] = []
concat_rows (b ∷ bs) = b.1 ++ concat_rows bs

-- The calls of `emit` with the batches, and their answers.
abbrev pub batch_calls : String → List (Bool × List HistoryRow) → List Call
batch_calls name [] = []
batch_calls name (b ∷ bs) =
    record { message = history name b.1; accepted = b.0 } ∷ batch_calls name bs

-- Queuing a message does not move the bookmarks.
kept-mark :
    (stringify : WorkerMessage → String) (takes : List Call → WorkerMessage → Bool) (now : ℕ)
    (name : String) (rows : List HistoryRow) (w : Shared)
    → get_history_high_water_mark (emit takes stringify now (history name rows) w).1.outbox name
      ≡ get_history_high_water_mark w.outbox name
unfolding emit keep enqueue evict_if_needed get_history_high_water_mark
kept-mark stringify takes now name rows w = ground arith

module _ (takes : List Call → WorkerMessage → Bool) (stringify : WorkerMessage → String)
    (agent_datetime : ℕ → ℕ → Option ℕ) (to_lower_case : String → String) where
  abbrev recorded : List SysJobHistory → List HistoryRecord
  recorded hs = records agent_datetime to_lower_case hs

  abbrev fresh_rows : List SysJobHistory → List HistoryRow
  fresh_rows hs = map row_of (recorded hs)

  map-append : (xs ys : List HistoryRecord) → map row_of (xs ++ ys) ≡ map row_of xs ++ map row_of ys
  map-append [] ys = refl
  map-append (x ∷ xs) ys = ap (λ z. row_of x ∷ z) (map-append xs ys)

  fresh_rows-append :
      (xs ys : List SysJobHistory) → fresh_rows (xs ++ ys) ≡ fresh_rows xs ++ fresh_rows ys
  fresh_rows-append xs ys =
      ap (map row_of) (records-append agent_datetime to_lower_case xs ys)
      ∙ map-append (recorded xs) (recorded ys)

  -- One round of the loop on a batch that is not empty.
  abbrev pub round : ℕ → String → List HistoryRecord → Shared → Shared
  round now name rs w =
      let w' = (emit takes stringify now (history name (map row_of rs)) w).1 in
      record w' { outbox = set_history_high_water_mark w'.outbox name (max_id rs) }

  abbrev mark_in : String → Shared → ℕ
  mark_in name w = get_history_high_water_mark w.outbox name

  pub round-mark :
      (now : ℕ) (name : String) (rs : List HistoryRecord) (w : Shared)
      → mark_in name w < max_id rs
      → mark_in name (round now name rs w) ≡ max_id rs
  round-mark now name rs w lt =
      let w' = (emit takes stringify now (history name (map row_of rs)) w).1 in
      let kept = kept-mark stringify takes now name (map row_of rs) w in
      get-set_history_high_water_mark w'.outbox name name (max_id rs)
      ∙ ground (arith, eq_iff name name, kept, lt)

  pub round-calls :
      (now : ℕ) (name : String) (rs : List HistoryRecord) (w : Shared)
      → (answer : Bool) × ((round now name rs w).calls
          ≡ w.calls ++ batch_calls name ((answer, map row_of rs) ∷ []))
  round-calls now name rs w =
      let m = history name (map row_of rs) in
      ((emit takes stringify now m w).0, emit-calls takes stringify now m w)

  -- What the loop leaves: the batches that it emitted hold exactly the rows, and the mark is the last of them.
  abbrev pub Drained : String → List SysJobHistory → Shared → Shared → Type 0
  Drained name hs w w' =
      (batches : List (Bool × List HistoryRow)) × (w'.calls ≡ w.calls ++ batch_calls name batches)
      × (concat_rows batches ≡ fresh_rows hs)
      × (mark_in name w' ≡ max (mark_in name w) (top_id hs))

  abbrev poll : ℕ → ℕ → String → List SysJobHistory → ℕ → Shared → Option Shared
  poll fuel now name table n w =
      poll_history takes stringify agent_datetime to_lower_case fuel now name table n w

  top_id-append : (xs ys : List SysJobHistory) → top_id (xs ++ ys) ≡ max (top_id xs) (top_id ys)
  top_id-append [] ys = omega arith
  top_id-append (x ∷ xs) ys = omega (arith, top_id-append xs ys)

  -- A batch that is emitted before the rest.
  pub Drained-cons :
      (name : String) (rs : List HistoryRecord) (hs tail : List SysJobHistory) (w w1 w' : Shared)
      → rs ≡ recorded hs
      → (answer : Bool) → w1.calls ≡ w.calls ++ batch_calls name ((answer, map row_of rs) ∷ [])
      → mark_in name w1 ≡ top_id hs
      → mark_in name w < top_id hs
      → Drained name tail w1 w'
      → Drained name (hs ++ tail) w w'
  Drained-cons name rs hs tail w w1 w' e answer calls mark lt (batches, all, rows, final) = (
    (answer, map row_of rs) ∷ batches,
    all
        ∙ ap (λ x. x ++ batch_calls name batches) calls
        ∙ append_assoc w.calls (batch_calls name ((answer, map row_of rs) ∷ []))
            (batch_calls name batches),
    ap (λ x. map row_of rs ++ x) rows
        ∙ ap (λ x. map row_of x ++ fresh_rows tail) e
        ∙ sym (fresh_rows-append hs tail),
    final ∙ omega (arith, mark, lt, top_id-append hs tail),
  )

  pub Drained-nil : (name : String) (w : Shared) → Drained name [] w w
  unfolding records
  Drained-nil name w = ([], sym (append-nil w.calls), refl, omega arith)

  pub read-eq :
      (name : String) (table : List SysJobHistory) (n : ℕ) (w : Shared) (hs : List SysJobHistory)
      → filter (is_above (mark_in name w)) table ≡ hs
      → read_history_since agent_datetime to_lower_case table (mark_in name w) n
        ≡ recorded (take n hs)
  unfolding read_history_since
  read-eq name table n w hs e = ap (λ x. recorded (take n x)) e

  pub poll-none :
      (fuel now : ℕ) (name : String) (table : List SysJobHistory) (n : ℕ) (w : Shared)
      → read_history_since agent_datetime to_lower_case table (mark_in name w) n ≡ []
      → poll (suc fuel) now name table n w ≡ some w
  unfolding poll_history
  poll-none fuel now name table n w e = rw (e, poll_history)

  pub poll-some :
      (fuel now : ℕ) (name : String) (table : List SysJobHistory) (n : ℕ) (w : Shared)
      (r : HistoryRecord) (rs : List HistoryRecord)
      → read_history_since agent_datetime to_lower_case table (mark_in name w) n ≡ r ∷ rs
      → poll (suc fuel) now name table n w ≡ elim (ltb (length (r ∷ rs)) n) [
        | true ↦ some (round now name (r ∷ rs) w)
        | false ↦ poll fuel now name table n (round now name (r ∷ rs) w)
      ]
  unfolding poll_history
  poll-some fuel now name table n w r rs e = rw (e, poll_history)
