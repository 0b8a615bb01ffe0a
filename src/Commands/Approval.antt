-- ===== src/Commands/Approval.antt =====
-- packages/server/src/domain/commands.ts: who sanctioned a command, and dispatch under that invariant.
use remote_sql_agent.Prelude.{
  All-concat, All-update_where, Elem-update_where, update_where, ℕ, ◌≡◌, refl, sym, ◌∙◌, subst, ◌↔◌,
  ◌⊎◌, inl, inr, ◌≢◌, Bool, true, false, String, eq_iff, some, List, [], ◌∷◌, ◌++◌, arith, Elem,
  All, find, find-some, has_iff, Bool-cases, Option-cases,
}
use remote_sql_agent.Signing.{Command}
use remote_sql_agent.Commands.Rows.{
  CommandState, CommandState-discrete, approved, CommandRow, AuditRow, Server,
}
use remote_sql_agent.Commands.Payloads.{build_proto_command}
use remote_sql_agent.Commands.Service.{
  Env, Target, CreateCommandInput, expire_row, is_past, by_id, is_state, audited, updated,
  requires_approval, signed_command, dispatch_row, dispatch_found, dispatch,
}
use remote_sql_agent.Commands.Lifecycle.{Call, creates}

pub All-find :
    (P : CommandRow → Type 0) (p : CommandRow → Bool) (rows : List CommandRow) (r : CommandRow)
    → All P rows
    → find p rows ≡ some r
    → P r
All-find P p [] r a f = cc
All-find P p (x ∷ rest) r a f = elim (Bool-cases (p x)) [
  | inl hit ↦ subst P (ground arith) a.0
  | inr miss ↦ All-find P p rest r a.1 (ground arith)
]

is_state_iff : (s : CommandState) (r : CommandRow) → (is_state s r ≡ true) ↔ (r.state ≡ s)
is_state_iff s r = ground (arith, has_iff CommandState-discrete (s ∷ []) r.state)

pub signed_command-id :
    (env : Env) (r : CommandRow) (name : String) (now : ℕ)
    → r.id ≡ (signed_command env r name now).id
unfolding build_proto_command
signed_command-id env r name now = refl

module _ (env : Env) where
  -- The row was approved by somebody other than its issuer, or the history issued it with a kind and a
  -- role that need no approval.
  abbrev pub Sanctioned : List (ℕ × Call) → CommandRow → Type 0
  Sanctioned h r =
      ((a : String) × (r.approved_by ≡ some a) × (a ≢ r.issued_by))
      ⊎ ((input : CreateCommandInput) × (now : ℕ) × Elem (now, creates input r.id) h
          × (requires_approval env input.kind input.issued_by_role ≡ false))

  abbrev pub ApprovedOk : List (ℕ × Call) → CommandRow → Type 0
  ApprovedOk h r = r.state ≡ approved → Sanctioned h r

  -- What was sent belongs to a sanctioned row.
  abbrev pub SentOk : List (ℕ × Call) → List CommandRow → String × Command → Type 0
  SentOk h rows sent = (r : CommandRow) × Elem r rows × (r.id ≡ sent.1.id) × Sanctioned h r

  pub record Inv (h : List (ℕ × Call)) (st : Server) : Type 0 where
    pub approved_ok : All (ApprovedOk h) st.commands
    pub sent_ok : All (SentOk h st.commands) st.outgoing

  pub All-map-sent :
      (h : List (ℕ × Call)) (rows rows' : List CommandRow) (out : List (String × Command))
      → ((r : CommandRow)
          → Elem r rows
          → Sanctioned h r
          → (r' : CommandRow) × Elem r' rows' × (r'.id ≡ r.id) × Sanctioned h r')
      → All (SentOk h rows) out
      → All (SentOk h rows') out
  All-map-sent h rows rows' [] keep a = tt
  All-map-sent h rows rows' (x ∷ out) keep ((r, m, e, s), rest) =
      let (r', m', e', s') = keep r m s in
      ((r', m', e' ∙ e, s'), All-map-sent h rows rows' out keep rest)

  -- A change of one row that keeps its id, and keeps it sanctioned, keeps the invariant if the row is
  -- sanctioned where the change leaves it approved.
  pub updated-Inv :
      (h : List (ℕ × Call)) (st : Server) (p : CommandRow → Bool) (change : CommandRow → CommandRow)
      → ((r : CommandRow) → (change r).id ≡ r.id)
      → ((r : CommandRow) → find p st.commands ≡ some r → Sanctioned h r → Sanctioned h (change r))
      → ((r : CommandRow) → find p st.commands ≡ some r → ApprovedOk h r → ApprovedOk h (change r))
      → Inv h st
      → Inv h (updated st p change)
  updated-Inv h st p change same keeps fits v = record {
    approved_ok = All-update_where (ApprovedOk h) p change st.commands fits v.approved_ok;
    sent_ok =
        All-map-sent h st.commands (update_where p change st.commands) st.outgoing
          (λ r m s. elim (Elem-update_where p change st.commands r m) [
            | inl m' ↦ (r, m', refl, s)
            | inr (f, m') ↦ (change r, m', same r, keeps r f s)
          ])
          v.sent_ok;
  }

  pub audited-Inv :
      (h : List (ℕ × Call)) (st : Server) (a : AuditRow) → Inv h st → Inv h (audited st a)
  audited-Inv h st a v = record { approved_ok = v.approved_ok; sent_ok = v.sent_ok }

  pub expire-Inv :
      (h : List (ℕ × Call)) (st : Server) (p : CommandRow → Bool) (now : ℕ)
      → Inv h st
      → Inv h (updated st p (expire_row now))
  expire-Inv h st p now =
      updated-Inv h st p (expire_row now) (λ r. refl) (λ r f s. s) (λ r f o e. absurd (cc))

  sent-Inv :
      (h : List (ℕ × Call)) (st : Server) (r : CommandRow) (t : Target) (now : ℕ)
      → find (by_id r.id) st.commands ≡ some r
      → r.state ≡ approved
      → Inv h st
      → let c = signed_command env r t.instance_name now in
        Inv h (record (updated st (by_id r.id) (dispatch_row env now c.signature)) {
          outgoing = st.outgoing ++ (r.worker_id, c) ∷ [];
        })
  sent-Inv h st r t now f e v =
      let c = signed_command env r t.instance_name now in
      let change = dispatch_row env now c.signature in
      let rows = update_where (by_id r.id) change st.commands in
      let ok : Sanctioned h r =
        All-find (ApprovedOk h) (by_id r.id) st.commands r v.approved_ok f e in
      let base : Inv h (updated st (by_id r.id) change) =
        updated-Inv h st (by_id r.id) change (λ x. refl) (λ x g s. s) (λ x g o d. absurd (cc)) v in
      let m = (find-some (by_id r.id) r st.commands f).0 in
      let sent : SentOk h rows (r.worker_id, c) =
        elim (Elem-update_where (by_id r.id) change st.commands r m) [
          | inl m' ↦ (r, m', signed_command-id env r t.instance_name now, ok)
          | inr (g, m') ↦ (change r, m', signed_command-id env r t.instance_name now, ok)
        ] in
      record {
        approved_ok = base.approved_ok;
        sent_ok = All-concat (SentOk h rows) st.outgoing (r.worker_id, c) base.sent_ok sent;
      }

  dispatch_found-Inv :
      (h : List (ℕ × Call)) (st : Server) (r : CommandRow) (t : Target) (now : ℕ)
      → find (by_id r.id) st.commands ≡ some r
      → Inv h st
      → Inv h (dispatch_found env r t now st).1
  unfolding dispatch_found
  dispatch_found-Inv h st r t now f v = elim (Bool-cases (is_state approved r)) [
    | inr other ↦ rw (other, dispatch_found) v
    | inl is_approved ↦ elim (Bool-cases (is_past r.expires_at now)) [
      | inl late ↦ rw (is_approved, late, dispatch_found) (expire-Inv h st (by_id r.id) now v)
      | inr live ↦ elim (Bool-cases (env.is_online r.worker_id)) [
        | inr offline ↦ rw (is_approved, live, offline, dispatch_found) v
        | inl online ↦
            rw (is_approved, live, online, dispatch_found)
              (sent-Inv h st r t now f ((is_state_iff approved r).0 is_approved) v)
      ]
    ]
  ]

  pub dispatch-Inv :
      (h : List (ℕ × Call)) (st : Server) (id : String) (now : ℕ)
      → Inv h st
      → Inv h (dispatch env id now st).1
  unfolding dispatch
  dispatch-Inv h st id now v = elim (Option-cases (find (by_id id) st.commands)) [
    | inl e ↦ rw (e, dispatch) v
    | inr (r, e) ↦ elim (Option-cases (env.target r.instance_id)) [
      | inl g ↦ rw (e, g, dispatch) v
      | inr (t, g) ↦
          let same : r.id ≡ id = (eq_iff r.id id).0 (find-some (by_id id) r st.commands e).1 in
          rw (e, g, dispatch)
            (dispatch_found-Inv h st r t now
              (subst (λ x. find (by_id x) st.commands ≡ some r) (sym same) e) v)
    ]
  ]
