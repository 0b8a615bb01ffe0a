-- ===== src/Commands/FourEyes.antt =====
-- The four-eyes rule of packages/server/src/domain/commands.ts, over every history of calls.
use remote_sql_agent.Prelude.{
  All-Elem, ℕ, ◌≡◌, refl, ap, inl, inr, ◌≢◌, String, List, [], ◌∷◌, map, arith, Elem, All, find,
  Bool-cases, Option-cases,
}
use remote_sql_agent.Signing.{Command}
use remote_sql_agent.Commands.Rows.{pending_approval, approved, CommandRow, Server}
use remote_sql_agent.Commands.Service.{Env, by_id, is_state, dispatch}
use remote_sql_agent.Commands.Lifecycle.{
  reject_row, reject, ResultReport, of_worker, result_row, record_result, expire_if_stale,
  expire_stale, pending_ids, dispatch_each, dispatch_pending_for, Call, creates, approves, rejects,
  connects, reports, expires, step, run, is_stale,
}
use remote_sql_agent.Commands.Approval.{
  Sanctioned, Inv, ApprovedOk, SentOk, updated-Inv, audited-Inv, dispatch-Inv, All-map-sent,
}
use remote_sql_agent.Commands.Issue.{create-Inv, approve-Inv}

module _ (env : Env) where
  reject-Inv :
      (h : List (ℕ × Call)) (st : Server) (id username reason : String) (now : ℕ)
      → Inv env h st
      → Inv env h (reject id username reason now st).1
  unfolding reject
  reject-Inv h st id username reason now v = elim (Option-cases (find (by_id id) st.commands)) [
    | inl e ↦ rw (e, reject) v
    | inr (r, e) ↦ elim (Bool-cases (is_state pending_approval r)) [
      | inr other ↦ rw (e, other, reject) v
      | inl waits ↦
          rw (e, waits, reject)
            (audited-Inv env h _ _ (
              updated-Inv env h st (by_id id) (reject_row reason now) (λ x. refl) (λ x g s. s)
                (λ x g o d. absurd (cc)) v))
    ]
  ]

  result_row-not_approved :
      (p : ResultReport) (now : ℕ) (r : CommandRow) → (result_row p now r).state ≢ approved
  result_row-not_approved p now r e = absurd (ground arith)

  record_result-Inv :
      (h : List (ℕ × Call)) (st : Server) (p : ResultReport) (now : ℕ)
      → Inv env h st
      → Inv env h (record_result env p now st).1
  unfolding record_result
  record_result-Inv h st p now v =
      elim (Option-cases (find (of_worker p.command_id p.worker_id) st.commands)) [
        | inl e ↦ rw (e, record_result) v
        | inr (r, e) ↦
            rw (e, record_result)
              (audited-Inv env h _ _ (
                updated-Inv env h st (of_worker p.command_id p.worker_id) (result_row p now)
                  (λ x. refl) (λ x g s. s) (λ x g o d. absurd (result_row-not_approved p now x d))
                  v))
      ]

  expire_if_stale-keeps :
      (h : List (ℕ × Call)) (now : ℕ) (r : CommandRow)
      → ((expire_if_stale now r).id ≡ r.id)
        × (Sanctioned env h r → Sanctioned env h (expire_if_stale now r))
        × (ApprovedOk env h r → ApprovedOk env h (expire_if_stale now r))
  expire_if_stale-keeps h now r = elim (Bool-cases (is_stale now r)) [
    | inl late ↦ rw late (refl, λ s. s, λ o d. absurd (cc))
    | inr live ↦ rw live (refl, λ s. s, λ o. o)
  ]

  All-expire :
      (h : List (ℕ × Call)) (now : ℕ) (rows : List CommandRow)
      → All (ApprovedOk env h) rows
      → All (ApprovedOk env h) (map (expire_if_stale now) rows)
  All-expire h now [] a = tt
  All-expire h now (r ∷ rows) a = ((expire_if_stale-keeps h now r).2 a.0, All-expire h now rows a.1)

  Elem-expire :
      (now : ℕ) (rows : List CommandRow) (r : CommandRow)
      → Elem r rows
      → Elem (expire_if_stale now r) (map (expire_if_stale now) rows)
  Elem-expire now [] r m = m
  Elem-expire now (x ∷ rows) r (inl e) = inl (ap (expire_if_stale now) e)
  Elem-expire now (x ∷ rows) r (inr m) = inr (Elem-expire now rows r m)

  expire_stale-Inv :
      (h : List (ℕ × Call)) (st : Server) (now : ℕ)
      → Inv env h st
      → Inv env h (expire_stale now st).1
  unfolding expire_stale
  expire_stale-Inv h st now v = record {
    approved_ok = All-expire h now st.commands v.approved_ok;
    sent_ok =
        All-map-sent env h st.commands (map (expire_if_stale now) st.commands) st.outgoing
          (λ r m s.
            let (same, keeps, _) = expire_if_stale-keeps h now r in
            (expire_if_stale now r, Elem-expire now st.commands r m, same, keeps s))
          v.sent_ok;
  }

  dispatch_each-Inv :
      (h : List (ℕ × Call)) (ids : List String) (now sent : ℕ) (st : Server)
      → Inv env h st
      → Inv env h (dispatch_each env ids now sent st).1
  unfolding dispatch_each
  dispatch_each-Inv h [] now sent st v = v
  dispatch_each-Inv h (id ∷ ids) now sent st v =
      dispatch_each-Inv h ids now _ (dispatch env id now st).1 (dispatch-Inv env h st id now v)

  step-Inv :
      (h : List (ℕ × Call)) (c : ℕ × Call) (st : Server)
      → Elem c h
      → Inv env h st
      → Inv env h (step env c st)
  unfolding step dispatch_pending_for
  step-Inv h (now, creates input id) st m v = create-Inv env h st input id now m v
  step-Inv h (now, approves id approver username) st m v =
      approve-Inv env h st id approver username now v
  step-Inv h (now, rejects id username reason) st m v = reject-Inv h st id username reason now v
  step-Inv h (now, connects worker) st m v = dispatch_each-Inv h (pending_ids worker st) now 0 st v
  step-Inv h (now, reports p) st m v = record_result-Inv h st p now v
  step-Inv h (now, expires) st m v = expire_stale-Inv h st now v

  run-Inv :
      (h cs : List (ℕ × Call)) (st : Server)
      → ((c : ℕ × Call) → Elem c cs → Elem c h)
      → Inv env h st
      → Inv env h (run env cs st)
  unfolding run
  run-Inv h [] st within v = v
  run-Inv h (c ∷ cs) st within v =
      run-Inv h cs (step env c st) (λ x m. within x (inr m))
        (step-Inv h c st (within c (inl refl)) v)

abbrev pub no_commands : Server
no_commands = record { commands = []; audit_log = []; outgoing = [] }

-- Whatever calls were made of an empty service: each command that was handed to a worker's session has a row,
-- and either somebody other than its issuer approved that row, or one of the calls issued it with a kind and
-- a role for which the configuration asks no approval.
pub four_eyes :
    (env : Env) (cs : List (ℕ × Call)) (worker : String) (c : Command)
    → Elem (worker, c) (run env cs no_commands).outgoing
    → (r : CommandRow) × Elem r (run env cs no_commands).commands
      × (r.id ≡ c.id)
      × Sanctioned env cs r
four_eyes env cs worker c m =
    All-Elem (SentOk env cs (run env cs no_commands).commands) (run env cs no_commands).outgoing
      (worker, c)
      (run-Inv env cs cs no_commands (λ x e. e) (record { approved_ok = tt; sent_ok = tt })).sent_ok
      m
