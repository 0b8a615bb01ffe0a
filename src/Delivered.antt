-- ===== src/Delivered.antt =====
-- The way of a command from the control plane to the worker and back: `dispatch` of packages/server/src/domain/commands.ts,
-- `handleCommand` of packages/worker/src/command-handler.ts, and the case `commandResult` of
-- packages/server/src/hub/hub.ts, which hands the worker's result to `recordResult`.
mod Examples
use remote_sql_agent.Prelude.{
  ℕ, ◌+◌, ◌*◌, ◌/◌, ◌%◌, ◌≤◌, leb, ◌≡◌, ◌≢◌, refl, sym, ap, subst, ◌∙◌, inl, inr, if◌then◌else◌,
  Bool, Bool-cases, true, false, String, str_eq, eq_iff, Option, none, some, List, List-cases, [],
  ◌∷◌, ◌&&◌, Elem, has_iff, find, find-some, find-update_where, arith,
}
use remote_sql_agent.Capabilities.{Capability-discrete, command_capability}
use remote_sql_agent.Signing.{
  Command, Crypto, command_kind, command_signing_bytes, verify_command_signature, to_ms,
  is_command_fresh,
}
use remote_sql_agent.Outbox.{applied_command_outcome, record_applied_command}
use remote_sql_agent.Worker.Msdb.{Msdb, ApplyOutcome, done, is_empty, non_empty}
use remote_sql_agent.Worker.Apply.{apply}
use remote_sql_agent.Worker.Handler.{
  CommandContext, WorkerState, CommandResult, fresh_at, refused_by, replied, settle,
  evaluate_and_apply, handle_command,
}
use remote_sql_agent.Commands.Rows.{Field, CommandRow, Server, succeeded, failed}
use remote_sql_agent.Commands.Payloads.{
  to_timestamp, build_proto_command, command_kind-build_proto_command,
}
use remote_sql_agent.Commands.Service.{Env, by_id, signed_command, dispatch_row, dispatch}
use remote_sql_agent.Commands.Lifecycle.{ResultReport, of_worker, result_row, record_result}
use remote_sql_agent.Commands.Approval.{signed_command-id}
use remote_sql_agent.Commands.Delivery.{Sends}
use remote_sql_agent.Commands.Results.{find-record_result}

-- The arguments of `recordResult`; the text of the detail, which the worker's model leaves out, is an argument.
unfoldable pub report_of :
    {m : Msdb} {crypto : Crypto} {ctx : CommandContext}
    → CommandResult m crypto ctx
    → String
    → String
    → String
    → ResultReport
report_of r detail worker_id host_name = record {
  command_id = r.command_id;
  worker_id = worker_id;
  success = r.success;
  error_code = r.error_code;
  error_detail = detail;
  sql_error_number = r.sql_error_number;
  host_name = host_name;
}

-- A time goes over the wire without loss.
to_ms-to_timestamp : (to_number : Field → ℕ) (ms : ℕ) → to_ms (to_timestamp to_number ms) ≡ ms
to_ms-to_timestamp to_number ms = omega arith

-- A signature does not enter the bytes that it signs.
unsigned-bytes :
    (crypto : Crypto) (c : Command) (s : List ℕ)
    → command_signing_bytes crypto (record c { signature = s }) ≡ command_signing_bytes crypto c
unfolding command_signing_bytes command_kind
unsigned-bytes crypto c s = refl

unsigned-kind :
    (c : Command) (s : List ℕ) → command_kind (record c { signature = s }) ≡ command_kind c
unfolding command_kind
unsigned-kind c s = refl

verified :
    (crypto : Crypto) (c : Command) (key : String) (s : List ℕ)
    → s ≢ []
    → crypto.verify key (command_signing_bytes crypto (record c { signature = s })) s ≡ some true
    → verify_command_signature crypto (record c { signature = s }) key ≡ true
unfolding verify_command_signature
verified crypto c key [] ne v = absurd (ne refl)
verified crypto c key (x ∷ rest) ne v = rw (v, verify_command_signature)

signed_command-fresh :
    (env : Env) (r : CommandRow) (name : String) (now later : ℕ)
    → later ≤ now + 900000
    → now ≤ later + 60000
    → fresh_at (signed_command env r name now).issued_at later ≡ true
unfolding build_proto_command is_command_fresh
signed_command-fresh env r name now later young old =
    ground (arith, to_ms-to_timestamp env.to_number now)

-- A test that implies the first one, and that the found row passes, finds the same row.
find-stronger :
    {A : Type 0} (p q : A → Bool) (rows : List A) (r : A)
    → ((x : A) → q x ≡ true → p x ≡ true)
    → find p rows ≡ some r
    → q r ≡ true
    → find q rows ≡ some r
find-stronger p q [] r h f k = cc
find-stronger p q (x ∷ rows) r h f k = elim (Bool-cases (p x)) [
  | inl hit ↦
      let same : x ≡ r = ground (arith, hit, f) in
      let hit' : q x ≡ true = rw (same) k in ground (arith, hit', same)
  | inr miss ↦
      let f' : find p rows ≡ some r = ground (arith, miss, f) in
      ground (arith, miss, h x, find-stronger p q rows r h f' k)
]

module _ (m : Msdb) (crypto : Crypto) (ctx : CommandContext) (env : Env)
    (keyed : is_empty ctx.command_signing_public_key ≡ false)
    (signs : (c : Command) → env.sign c ≢ [])
    (verifies : (c : Command)
      → crypto.verify ctx.command_signing_public_key (command_signing_bytes crypto c) (env.sign c)
        ≡ some true) where
  open m use {Db}

  signed_command-verifies :
      (r : CommandRow) (name : String) (now : ℕ)
      → verify_command_signature crypto
          (signed_command env r name now)
          ctx.command_signing_public_key
        ≡ true
  signed_command-verifies r name now =
      let c = build_proto_command env.to_number r.id r.kind name r.payload now in
      verified crypto c ctx.command_signing_public_key (env.sign c) (signs c) (
        ap (λ b. crypto.verify ctx.command_signing_public_key b (env.sign c))
          (unsigned-bytes crypto c (env.sign c))
        ∙ verifies c)

  -- A command that was sent is let through by the worker's gates.
  signed_command-accepted :
      (r : CommandRow) (name : String) (now later : ℕ)
      → later ≤ now + 900000
      → now ≤ later + 60000
      → Elem (command_capability r.kind) ctx.capabilities
      → refused_by crypto ctx (signed_command env r name now) later ≡ none
  unfolding refused_by is_command_fresh
  signed_command-accepted r name now later young old permitted =
      let c = signed_command env r name now in
      let signed = signed_command-verifies r name now in
      let kind : command_kind c ≡ some r.kind =
        unsigned-kind (build_proto_command env.to_number r.id r.kind name r.payload now) c.signature
        ∙ command_kind-build_proto_command env.to_number r.id r.kind name r.payload now in
      let fresh = signed_command-fresh env r name now later young old in
      let may =
        (has_iff Capability-discrete ctx.capabilities (command_capability r.kind)).1 permitted in
      rw (keyed, signed, fresh, kind, may)

  handled :
      (c : Command) (later : ℕ) (ws : WorkerState Db) (o : ApplyOutcome) (db : Db)
      → refused_by crypto ctx c later ≡ none
      → applied_command_outcome ws.outbox c.id ≡ none
      → apply m c ws.db ≡ done o db
      → evaluate_and_apply m crypto ctx c later ws ≡ (
        replied o,
        record {
          db = db;
          outbox = record_applied_command ws.outbox c.id o.success (non_empty o.error_code) later;
        },
      )
  unfolding evaluate_and_apply settle
  handled c later ws o db clear new runs = rw (clear, new, runs, evaluate_and_apply, settle)

  -- A command that a dispatch sent, to a worker that holds the matching key and has the capability for its kind: where the
  -- two clocks are within the replay window, the id is new to the worker and the change to msdb runs to its end, the
  -- worker answers with that outcome and records it, and the answer sets the command's row to succeeded or failed
  -- accordingly.
  pub dispatched_completes :
      (id : String) (now later at : ℕ) (detail host_name : String) (st : Server)
      (ws : WorkerState Db) (o : ApplyOutcome) (db : Db)
      (s : Sends env id now st (dispatch env id now st).1)
      → let c = signed_command env s.row s.target.instance_name now in
        Elem (command_capability s.row.kind) ctx.capabilities
        → later ≤ now + 900000
        → now ≤ later + 60000
        → applied_command_outcome ws.outbox c.id ≡ none
        → apply m c ws.db ≡ done o db
        → (r : CommandResult m crypto ctx) × ((handle_command m crypto ctx c later ws).0 ≡ some r)
          × (row : CommandRow) × (find
                (of_worker id s.row.worker_id)
                (record_result env
                  (report_of r detail s.row.worker_id host_name)
                  at
                  (dispatch env id now st).1).1.commands
              ≡ some row)
          × (row.state ≡ (if o.success then succeeded else failed))
          × (row.kind ≡ s.row.kind)
          × (row.completed_at ≡ some at)
          × ((handle_command m crypto ctx c later ws).1.db ≡ db)
  unfolding handle_command report_of
  dispatched_completes id now later at detail host_name st ws o db s permitted young old new runs =
      let c = signed_command env s.row s.target.instance_name now in
      let w = s.row.worker_id in
      let st' = (dispatch env id now st).1 in
      let d = dispatch_row env now c.signature s.row in
      let clear =
        signed_command-accepted s.row s.target.instance_name now later young old permitted in
      let both = handled c later ws o db clear new runs in
      let r : CommandResult m crypto ctx = record {
        command_id = c.id;
        success = o.success;
        error_code = o.error_code;
        sql_error_number = o.sql_error_number;
        resulting_job = o.resulting_job;
        applied_at = later;
      } in
      let p = report_of r detail w host_name in
      let own : by_id id s.row ≡ true = (find-some (by_id id) s.row st.commands s.found).1 in
      let c-id : c.id ≡ id =
        sym (signed_command-id env s.row s.target.instance_name now) ∙ (eq_iff s.row.id id).0 own in
      let there : find (of_worker id w) st'.commands ≡ some d =
        find-stronger (by_id id) (of_worker id w) st'.commands d (λ x h. ground (arith, h)) s.stored
          (ground (arith, own, eq_iff w w)) in
      let there' = subst (λ i. find (of_worker i w) st'.commands ≡ some d) (sym c-id) there in
      let stored = find-record_result env p at st' d there' in
      (
        r,
        rw (both),
        result_row p at d,
        subst
            (λ i.
              find (of_worker i w) (record_result env p at st').1.commands
              ≡ some (result_row p at d))
            c-id stored,
        refl,
        refl,
        refl,
        rw (both),
      )
