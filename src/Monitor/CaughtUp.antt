-- ===== src/Monitor/CaughtUp.antt =====
-- packages/worker/src/instance-monitor.ts: the whole loop of `pollHistory`, from the bookmark to the end of the table.
use remote_sql_agent.Prelude.{
  ℕ, zero, suc, ◌+◌, ◌<◌, ltb, max, ◌≡◌, refl, sym, ap, subst, ◌∙◌, inl, inr, Bool, Bool-cases,
  String, Option, some, List, List-cases, [], ◌∷◌, ◌++◌, map, filter, take, drop, take-append-drop,
  length, length-drop, length-append, arith,
}
use remote_sql_agent.Ingest.Tables.{HistoryRow}
use remote_sql_agent.Outbox.{get_history_high_water_mark}
use remote_sql_agent.Monitor.Emit.{WorkerMessage, Call, Shared}
use remote_sql_agent.Monitor.Reading.{SysJobHistory, HistoryRecord, is_above, records}
use remote_sql_agent.Monitor.Polls.{row_of, max_id, poll_history}
use remote_sql_agent.Monitor.Suffix.{
  IsAscending, HasTimes, top_id, All-filter, All-take, filter-batch, records-length,
}
use remote_sql_agent.Monitor.Drained.{
  concat_rows, batch_calls, round, Drained as DrainedBy, round-mark, round-calls, Drained-cons,
  Drained-nil, read-eq, poll-none, poll-some,
}

module _ (takes : List Call → WorkerMessage → Bool) (stringify : WorkerMessage → String)
    (agent_datetime : ℕ → ℕ → Option ℕ) (to_lower_case : String → String) where
  abbrev recorded : List SysJobHistory → List HistoryRecord
  recorded hs = records agent_datetime to_lower_case hs

  abbrev mark_in : String → Shared → ℕ
  mark_in name w = get_history_high_water_mark w.outbox name

  abbrev poll : ℕ → ℕ → String → List SysJobHistory → ℕ → Shared → Option Shared
  poll fuel now name table n w =
      poll_history takes stringify agent_datetime to_lower_case fuel now name table n w

  abbrev Drained : String → List SysJobHistory → Shared → Shared → Type 0
  Drained name hs w w' = DrainedBy takes stringify agent_datetime to_lower_case name hs w w'

  -- A batch that is shorter than asked for is all there was.
  short-all :
      (n : ℕ) (h : SysJobHistory) (hs : List SysJobHistory)
      → length (take (suc n) (h ∷ hs)) < suc n
      → drop n hs ≡ []
  short-all n h hs lt =
      let parts : length (take (suc n) (h ∷ hs)) + length (drop n hs) ≡ suc (length hs) =
        sym (length-append (take (suc n) (h ∷ hs)) (drop n hs))
        ∙ ap length (take-append-drop (suc n) (h ∷ hs)) in
      elim (List-cases (drop n hs)) [
        | inl e ↦ e
        | inr (x, xs, e) ↦
            let some_left : length (drop n hs) ≡ suc (length xs) = ap length e in
            absurd (omega (arith, parts, lt, length-drop n hs, some_left))
      ]

  recorded-nil : recorded [] ≡ []
  unfolding records
  recorded-nil = refl

  -- What the loop does from the bookmark on.
  abbrev Drains : ℕ → ℕ → String → List SysJobHistory → ℕ → List SysJobHistory → Shared → Type 0
  Drains fuel now name table n hs w =
      (w' : Shared) × (poll fuel now name table (suc n) w ≡ some w') × Drained name hs w w'

  abbrev Next : ℕ → ℕ → String → List SysJobHistory → ℕ → Type 0
  Next fuel now name table n =
      (w : Shared)
      → length (filter (is_above (mark_in name w)) table) < fuel
      → Drains fuel now name table n (filter (is_above (mark_in name w)) table) w

  batch-Drains :
      (fuel now : ℕ) (name : String) (table : List SysJobHistory) (n : ℕ) (w : Shared)
      → IsAscending table
      → HasTimes agent_datetime table
      → length (filter (is_above (mark_in name w)) table) < suc fuel
      → Next fuel now name table n
      → (h : SysJobHistory) → (hs : List SysJobHistory)
      → filter (is_above (mark_in name w)) table ≡ h ∷ hs
      → Drains (suc fuel) now name table n (h ∷ hs) w
  batch-Drains fuel now name table n w a times enough next h hs e =
      let first = take (suc n) (h ∷ hs) in
      let timed : HasTimes agent_datetime first = All-take _ (suc n) (h ∷ hs) (
        subst (HasTimes agent_datetime) e (All-filter _ (is_above (mark_in name w)) table times)) in
      let (len, top) = records-length agent_datetime to_lower_case first timed in
      let (lt, rest) = filter-batch (mark_in name w) n table h hs a e in
      elim (List-cases (recorded first)) [
        | inl none_read ↦ absurd (omega (arith, len, ap length none_read))
        | inr (r, rs, er) ↦
            let read =
              read-eq takes stringify agent_datetime to_lower_case name table (suc n) w (h ∷ hs) e
              ∙ er in
            let w1 = round takes stringify agent_datetime to_lower_case now name (r ∷ rs) w in
            let max_top : max_id (r ∷ rs) ≡ top_id first = ap max_id (sym er) ∙ top in
            let mark : mark_in name w1 ≡ top_id first =
              round-mark takes stringify agent_datetime to_lower_case now name (r ∷ rs) w
                (omega (arith, lt, max_top))
              ∙ max_top in
            let (answer, calls) =
              round-calls takes stringify agent_datetime to_lower_case now name (r ∷ rs) w in
            let whole : first ++ drop n hs ≡ h ∷ hs = take-append-drop (suc n) (h ∷ hs) in
            let len' : length (r ∷ rs) ≡ length first = ap length (sym er) ∙ len in
            let some' =
              poll-some takes stringify agent_datetime to_lower_case fuel now name table (suc n) w r
                rs read in
            let tail : (w' : Shared) → Drained name (drop n hs) w1 w' → Drained name (h ∷ hs) w w' =
              λ w' d.
                subst (λ x. Drained name x w w') whole
                  (Drained-cons takes stringify agent_datetime to_lower_case name (r ∷ rs) first
                    (drop n hs) w w1 w' (sym er) answer calls mark lt d) in
            elim (Bool-cases (ltb (length (r ∷ rs)) (suc n))) [
              | inl short ↦
                  let gone : drop n hs ≡ [] = short-all n h hs (ground (arith, short, len')) in
                  (
                    w1,
                    some' ∙ (rw (short) refl),
                    tail w1 (
                        subst (λ x. Drained name x w1 w1) (sym gone)
                          (Drained-nil takes stringify agent_datetime to_lower_case name w1)),
                  )
              | inr full ↦
                  let left : filter (is_above (mark_in name w1)) table ≡ drop n hs =
                    subst (λ x. filter (is_above x) table ≡ drop n hs) (sym mark) rest in
                  let fewer : length (filter (is_above (mark_in name w1)) table) < fuel =
                    omega (arith, enough, ap length e, ap length left, length-drop n hs) in
                  let (w', run, d) = next w1 fewer in
                  (w', some' ∙ (rw (full) run), tail w' (subst (λ x. Drained name x w1 w') left d))
            ]
      ]

  step-Drains :
      (fuel now : ℕ) (name : String) (table : List SysJobHistory) (n : ℕ) (w : Shared)
      → IsAscending table
      → HasTimes agent_datetime table
      → length (filter (is_above (mark_in name w)) table) < suc fuel
      → Next fuel now name table n
      → (w' : Shared) × (poll (suc fuel) now name table (suc n) w ≡ some w')
        × Drained name (filter (is_above (mark_in name w)) table) w w'
  step-Drains fuel now name table n w a times enough next =
      elim (List-cases (filter (is_above (mark_in name w)) table)) [
        | inl e ↦
            let nothing =
              read-eq takes stringify agent_datetime to_lower_case name table (suc n) w [] e in
            (
              w,
              poll-none takes stringify agent_datetime to_lower_case fuel now name table (suc n) w
                  (nothing ∙ recorded-nil),
              subst (λ hs. Drained name hs w w) (sym e)
                  (Drained-nil takes stringify agent_datetime to_lower_case name w),
            )
        | inr (h, hs, e) ↦
            subst
              (λ all.
                (w' : Shared) × (poll (suc fuel) now name table (suc n) w ≡ some w')
                × Drained name all w w')
              (sym e) (batch-Drains fuel now name table n w a times enough next h hs e)
      ]

  drains :
      (fuel now : ℕ) (name : String) (table : List SysJobHistory) (n : ℕ)
      → IsAscending table
      → HasTimes agent_datetime table
      → Next fuel now name table n
  drains zero now name table n a times w enough = absurd (omega (arith, enough))
  drains (suc fuel) now name table n a times w enough =
      step-Drains fuel now name table n w a times enough (drains fuel now name table n a times)

  -- A poll of the history catches up, whatever the session does with the batches: where the table is in the order of its
  -- identities, each of its rows has a time, a batch has room for a row, and the fuel is more than the rows above the bookmark, the
  -- loop ends; the
  -- batches that it emitted hold each row above the bookmark once, in order; and the bookmark is then at the greatest
  -- identity, if it was not above that before.
  pub poll_history_complete :
      (fuel now : ℕ) (name : String) (table : List SysJobHistory) (n : ℕ) (w : Shared)
      → IsAscending table
      → HasTimes agent_datetime table
      → let mark = get_history_high_water_mark w.outbox name in
        length (filter (is_above mark) table) < fuel
        → (w' : Shared) × (poll_history takes stringify agent_datetime to_lower_case fuel now name
              table
              (suc n)
              w
            ≡ some w')
          × (batches : List (Bool × List HistoryRow)) × (w'.calls
              ≡ w.calls ++ batch_calls name batches)
          × (concat_rows batches
              ≡ map row_of (records agent_datetime to_lower_case (filter (is_above mark) table)))
          × (get_history_high_water_mark w'.outbox name
              ≡ max mark (top_id (filter (is_above mark) table)))
  poll_history_complete fuel now name table n w a times enough =
      let (w', ends, done) = drains fuel now name table n a times w enough in
      let (batches, all, rows, mark) = done in (w', ends, batches, all, rows, mark)
