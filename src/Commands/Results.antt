-- ===== src/Commands/Results.antt =====
-- packages/server/src/domain/commands.ts: `recordResult`, what the report of a worker leaves in the table and what is answered.
use remote_sql_agent.Prelude.{
  find-update_where, find-update_where-other, ℕ, ◌<◌, ◌≡◌, ◌≢◌, refl, ap, ◌⊎◌, inl, inr, true,
  false, ◌&&◌, String, str_eq, eq_iff, none, some, arith, find, Bool-cases, Option-cases,
}
use remote_sql_agent.Commands.Rows.{succeeded, failed, CommandRow, Server}
use remote_sql_agent.Commands.Service.{Env}
use remote_sql_agent.Commands.Lifecycle.{
  ResultReport, ReportedCommand, non_zero, of_worker, result_row, reported_command, record_result,
}

-- What a result leaves of the row that it is of: the outcome by its success, the report's texts and number with
-- the empty ones left out, and all else as it was.
pub record ResultStored (p : ResultReport) (now : ℕ) (row row' : CommandRow) : Type 0 where
  pub outcome :
      ((p.success ≡ true) × (row'.state ≡ succeeded) × (row'.result_code ≡ some "Ok"))
      ⊎ ((p.success ≡ false) × (row'.state ≡ failed) × (row'.result_code ≡ some p.error_code))
  pub detail :
      ((p.error_detail ≡ "") × (row'.result_detail ≡ none))
      ⊎ ((p.error_detail ≢ "") × (row'.result_detail ≡ some p.error_detail))
  pub number :
      ((p.sql_error_number ≡ 0) × (row'.sql_error_number ≡ none))
      ⊎ ((0 < p.sql_error_number) × (row'.sql_error_number ≡ some p.sql_error_number))
  pub completed : row'.completed_at ≡ some now
  pub kept :
      record row' {
        state = row.state;
        result_code = row.result_code;
        result_detail = row.result_detail;
        sql_error_number = row.sql_error_number;
        completed_at = row.completed_at;
      }
      ≡ row

result_row-ResultStored :
    (p : ResultReport) (now : ℕ) (r : CommandRow) → ResultStored p now r (result_row p now r)
result_row-ResultStored p now r = record {
  outcome = elim (Bool-cases p.success) [
    | inl good ↦ inl (good, rw good, rw good)
    | inr bad ↦ inr (bad, rw bad, rw bad)
  ];
  detail = elim (Bool-cases (str_eq p.error_detail "")) [
    | inl blank ↦ inl ((eq_iff p.error_detail "").0 blank, rw blank)
    | inr filled ↦
        inr (λ e. absurd (ground (arith, filled, eq_iff p.error_detail "", e)), rw filled)
  ];
  number = number-cases p.sql_error_number;
  completed = refl;
  kept = refl;
}
  where
    number-cases : (n : ℕ) → ((n ≡ 0) × (non_zero n ≡ none)) ⊎ ((0 < n) × (non_zero n ≡ some n))
    number-cases ℕ.zero = inl (refl, refl)
    number-cases (ℕ.suc n) = inr (omega arith, refl)

pub find-record_result :
    (env : Env) (p : ResultReport) (now : ℕ) (st : Server) (r : CommandRow)
    → find (of_worker p.command_id p.worker_id) st.commands ≡ some r
    → find (of_worker p.command_id p.worker_id) (record_result env p now st).1.commands
      ≡ some (result_row p now r)
unfolding record_result
find-record_result env p now st r f =
    rw (f, record_result)
      (find-update_where (of_worker p.command_id p.worker_id) (result_row p now) st.commands r
        (λ x. refl) f)

record_result-other :
    (env : Env) (p : ResultReport) (now : ℕ) (st : Server) (id worker : String)
    → ((id ≡ p.command_id) × (worker ≡ p.worker_id))
      ⊎ (find (of_worker id worker) (record_result env p now st).1.commands
          ≡ find (of_worker id worker) st.commands)
unfolding record_result
record_result-other env p now st id worker =
    elim (Bool-cases (str_eq id p.command_id && str_eq worker p.worker_id)) [
      | inl same ↦ inl (ground (arith, same, eq_iff id p.command_id, eq_iff worker p.worker_id))
      | inr apart ↦
          let disjoint : (x : CommandRow)
              → of_worker p.command_id p.worker_id x ≡ true
              → of_worker id worker x ≡ false =
            λ x h. ground (
              arith,
              h,
              apart,
              eq_iff x.id p.command_id,
              eq_iff x.worker_id p.worker_id,
              eq_iff x.id id,
              eq_iff x.worker_id worker,
              eq_iff id p.command_id,
              eq_iff worker p.worker_id,
            ) in
          inr (elim (Option-cases (find (of_worker p.command_id p.worker_id) st.commands)) [
            | inl e ↦ rw (e, record_result) refl
            | inr (r, e) ↦
                rw (e, record_result)
                  (find-update_where-other (of_worker p.command_id p.worker_id)
                    (of_worker id worker) (result_row p now) st.commands disjoint disjoint)
          ])
    ]

-- The report of a worker: with no row of that id that went to that worker, nothing is answered and nothing
-- changes. With one, whatever state it is in, it becomes succeeded or failed as the report says, with the report's code,
-- text and number and the time, and keeps the rest; the answer is of that row's kind, instance and job. Either way
-- the commands of other ids and of other workers are as they were, and nothing is sent.
pub record_result-ResultStored :
    (env : Env) (p : ResultReport) (now : ℕ) (st : Server)
    → let (answer, st') = record_result env p now st in
      (((find (of_worker p.command_id p.worker_id) st.commands ≡ none)
          × (answer ≡ none)
          × (st' ≡ st))
        ⊎ ((row row' : CommandRow) × (command : ReportedCommand) × (find
                (of_worker p.command_id p.worker_id)
                st.commands
              ≡ some row)
            × (find (of_worker p.command_id p.worker_id) st'.commands ≡ some row')
            × ResultStored p now row row'
            × (answer ≡ some command)
            × (command.kind ≡ row.kind)
            × (command.instance_id ≡ row.instance_id)
            × (command.job_uuid ≡ row.job_uuid)))
      × ((id worker : String)
          → ((id ≡ p.command_id) × (worker ≡ p.worker_id))
            ⊎ (find (of_worker id worker) st'.commands ≡ find (of_worker id worker) st.commands))
      × (st'.outgoing ≡ st.outgoing)
unfolding record_result
record_result-ResultStored env p now st =
    elim (Option-cases (find (of_worker p.command_id p.worker_id) st.commands)) [
      | inl e ↦
          let idle : record_result env p now st ≡ (none, st) = rw (e, record_result) refl in
          (
            inl (e, ap (λ x. x.0) idle, ap (λ x. x.1) idle),
            record_result-other env p now st,
            ap (λ x. x.1.outgoing) idle,
          )
      | inr (r, e) ↦ (
        inr (
          r,
          result_row p now r,
          reported_command env r,
          e,
          find-record_result env p now st r e,
          result_row-ResultStored p now r,
          rw (e, record_result) refl,
          refl,
          refl,
          refl,
        ),
        record_result-other env p now st,
        rw (e, record_result) refl,
      )
    ]
