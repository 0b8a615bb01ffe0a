-- ===== src/Commands/Lifecycle.antt =====
-- packages/server/src/domain/commands.ts: approval, rejection, results and expiry, and the calls that the rest
-- of the control plane makes of the service.
use remote_sql_agent.Prelude.{
  ℕ, ◌+◌, if◌then◌else◌, Bool, not, ◌&&◌, ◌||◌, String, str_eq, Option, none, some, List, [], ◌∷◌,
  map, length, filter, find, sort_by,
}
use remote_sql_agent.Capabilities.{CommandKind}
use remote_sql_agent.Commands.Rows.{
  CommandState-discrete, pending_approval, approved, dispatched, succeeded, failed, expired,
  rejected, CommandRow, command_approved, command_rejected, command_result, command_result_failed,
  Server,
}
use remote_sql_agent.Commands.Service.{
  Env, CreateCommandInput, Result, ok, err, expire_row, is_past, by_id, is_state, audited, updated,
  dispatch, create,
}

abbrev pub approve_row : String → ℕ → CommandRow → CommandRow
approve_row approver now r = record r {
  state = approved;
  approved_by = some approver;
  approved_at = some now;
}

abbrev pub reject_row : String → ℕ → CommandRow → CommandRow
reject_row reason now r = record r {
  state = rejected;
  result_detail = some reason;
  completed_at = some now;
}

unfoldable pub reject : String → String → String → ℕ → Server → Result (Unit {0}) × Server
unfolding CommandState-discrete
reject id username reason now st = elim (find (by_id id) st.commands) [
  | none ↦ (err 404 "NotFound", st)
  | some r ↦ if not (is_state pending_approval r) then (err 409 "NotPending", st) else (
    ok tt,
    audited (updated st (by_id id) (reject_row reason now))
        (record { actor = username; action = command_rejected id }),
  )
]

-- What a worker reports of a command.
pub record ResultReport : Type 0 where
  pub command_id : String
  pub worker_id : String
  pub success : Bool
  pub error_code : String
  pub error_detail : String
  pub sql_error_number : ℕ
  pub host_name : String

-- The row of the command, if it went to this worker.
abbrev pub of_worker : String → String → CommandRow → Bool
of_worker id worker r = str_eq r.id id && str_eq r.worker_id worker

abbrev non_empty : String → Option String
non_empty s = if str_eq s "" then none else some s

abbrev pub non_zero : ℕ → Option ℕ
non_zero ℕ.zero = none
non_zero (ℕ.suc n) = some (ℕ.suc n)

abbrev pub result_row : ResultReport → ℕ → CommandRow → CommandRow
result_row p now r = record r {
  state = if p.success then succeeded else failed;
  result_code = some (if p.success then "Ok" else p.error_code);
  result_detail = non_empty p.error_detail;
  sql_error_number = non_zero p.sql_error_number;
  completed_at = some now;
}

-- What the caller is told of the command, to raise a notification about it.
pub record ReportedCommand : Type 0 where
  pub kind : CommandKind
  pub instance_id : String
  pub job_uuid : Option String
  pub issued_by_username : Option String

-- A row with no issuer has the empty id.
abbrev pub issuer_name : Env → String → Option String
issuer_name env issued_by = if str_eq issued_by "" then none else env.username issued_by

abbrev pub reported_command : Env → CommandRow → ReportedCommand
reported_command env r = record {
  kind = r.kind;
  instance_id = r.instance_id;
  job_uuid = r.job_uuid;
  issued_by_username = issuer_name env r.issued_by;
}

unfoldable pub record_result : Env → ResultReport → ℕ → Server → Option ReportedCommand × Server
record_result env p now st = elim (find (of_worker p.command_id p.worker_id) st.commands) [
  | none ↦ (none, st)
  | some r ↦ (
    some (reported_command env r),
    audited (updated st (of_worker p.command_id p.worker_id) (result_row p now)) (record {
      actor = p.host_name;
      action =
          if p.success then command_result p.command_id else command_result_failed p.command_id;
    }),
  )
]

-- The condition of `expireStale`.
unfoldable pub is_stale : ℕ → CommandRow → Bool
unfolding CommandState-discrete
is_stale now r =
    (is_state pending_approval r || is_state approved r || is_state dispatched r)
    && is_past r.expires_at now

abbrev pub stale_row : ℕ → CommandRow → CommandRow
stale_row now r = record r {
  state = expired;
  result_code = some "Expired";
  result_detail =
      some "The command expired before it was applied (worker offline or not approved in time).";
  completed_at = some now;
}

abbrev pub expire_if_stale : ℕ → CommandRow → CommandRow
expire_if_stale now r = if is_stale now r then stale_row now r else r

unfoldable pub expire_stale : ℕ → Server → ℕ × Server
unfolding is_stale
expire_stale now st = (
  length (filter (is_stale now) st.commands),
  record st { commands = map (expire_if_stale now) st.commands },
)

-- The worker's approved commands, the oldest first.
unfoldable pub pending_ids : String → Server → List String
unfolding CommandState-discrete
pending_ids worker st =
    let pending =
      sort_by (λ r. r.issued_at)
        (filter (λ r. str_eq r.worker_id worker && is_state approved r) st.commands) in
    map (λ r. r.id) pending

-- A call of the service by the rest of the control plane; times come with the calls.
pub data Call : Type 0 where
  creates : CreateCommandInput → String → Call
  approves rejects : String → String → String → Call
  connects : String → Call
  reports : ResultReport → Call
  expires : Call

module _ (env : Env) where
  unfoldable pub approve : String → String → String → ℕ → Server → Result (Unit {0}) × Server
  unfolding CommandState-discrete dispatch
  approve id approver username now st = elim (find (by_id id) st.commands) [
    | none ↦ (err 404 "NotFound", st)
    | some r ↦
        if not (is_state pending_approval r)
        then (err 409 "NotPending", st)
        else (if str_eq r.issued_by approver
            then (err 403 "SelfApproval", st)
            else (if is_past r.expires_at now
                then (err 409 "Expired", updated st (by_id id) (expire_row now))
                else (let st' =
                      audited (updated st (by_id id) (approve_row approver now))
                        (record { actor = username; action = command_approved id }) in
                    (ok tt, (dispatch env id now st').1))))
  ]

  -- The loop over the pending ids, with the count of those sent.
  unfoldable pub dispatch_each : List String → ℕ → ℕ → Server → ℕ × Server
  dispatch_each [] now sent st = (sent, st)
  dispatch_each (id ∷ rest) now sent st =
      let (done, st') = dispatch env id now st in
      dispatch_each rest now (if done then sent + 1 else sent) st'

  unfoldable pub dispatch_pending_for : String → ℕ → Server → ℕ × Server
  unfolding dispatch_each
  dispatch_pending_for worker now st = dispatch_each (pending_ids worker st) now 0 st

  unfoldable pub step : ℕ × Call → Server → Server
  unfolding create approve reject record_result expire_stale dispatch_pending_for
  step (now, creates input id) st = (create env input id now st).1
  step (now, approves id approver username) st = (approve id approver username now st).1
  step (now, rejects id username reason) st = (reject id username reason now st).1
  step (now, connects worker) st = (dispatch_pending_for worker now st).1
  step (now, reports p) st = (record_result env p now st).1
  step (now, expires) st = (expire_stale now st).1

  unfoldable pub run : List (ℕ × Call) → Server → Server
  unfolding step
  run [] st = st
  run (c ∷ rest) st = run rest (step c st)
