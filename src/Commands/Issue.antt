-- ===== src/Commands/Issue.antt =====
-- packages/server/src/domain/commands.ts: creation and approval under the invariant of the four-eyes rule.
use remote_sql_agent.Prelude.{
  All-concat, ℕ, ◌≡◌, refl, inl, inr, Bool, true, false, String, str_eq, eq_iff, some, List, [],
  ◌∷◌, ◌++◌, arith, Elem, Elem-append, find, Bool-cases, Option-cases, has,
}
use remote_sql_agent.Capabilities.{Capability-discrete, command_capability}
use remote_sql_agent.Commands.Rows.{pending_approval, CommandRow, Server}
use remote_sql_agent.Commands.Service.{
  Env, Target, CreateCommandInput, is_past, by_id, is_state, updated, requires_approval, new_row,
  issued, create, effective_capabilities_for,
}
use remote_sql_agent.Commands.Lifecycle.{approve_row, approve, Call, creates}
use remote_sql_agent.Commands.Approval.{
  Sanctioned, Inv, ApprovedOk, updated-Inv, audited-Inv, expire-Inv, dispatch-Inv, All-map-sent,
}

module _ (env : Env) where
  issued-Inv :
      (h : List (ℕ × Call)) (st : Server) (input : CreateCommandInput) (t : Target) (id : String)
      (needs : Bool) (now : ℕ)
      → (needs ≡ false → Sanctioned env h (new_row env input t id needs now))
      → Inv env h st
      → Inv env h (issued env input t id needs now st)
  issued-Inv h st input t id needs now free v = record {
    approved_ok =
        All-concat (ApprovedOk env h) st.commands (new_row env input t id needs now) v.approved_ok
          (λ e. free (ground arith));
    sent_ok =
        All-map-sent env h st.commands (st.commands ++ new_row env input t id needs now ∷ [])
          st.outgoing (λ r m s. (r, (Elem-append r st.commands _).1 (inl m), refl, s)) v.sent_ok;
  }

  pub create-Inv :
      (h : List (ℕ × Call)) (st : Server) (input : CreateCommandInput) (id : String) (now : ℕ)
      → Elem (now, creates input id) h
      → Inv env h st
      → Inv env h (create env input id now st).1
  unfolding create
  create-Inv h st input id now m v = elim (Option-cases (env.target input.instance_id)) [
    | inl e ↦ rw (e, create) v
    | inr (t, e) ↦
        elim (Bool-cases (
          has Capability-discrete (effective_capabilities_for env t)
            (command_capability input.kind))) [
              | inr denied ↦ rw (e, denied, create) v
              | inl allowed ↦
                  elim (Bool-cases (requires_approval env input.kind input.issued_by_role)) [
                    | inl needs ↦
                        rw (e, allowed, needs, create)
                          (issued-Inv h st input t id true now (λ x. absurd (cc)) v)
                    | inr free ↦
                        rw (e, allowed, free, create)
                          (dispatch-Inv env h _ id now (
                            issued-Inv h st input t id false now (λ _. inr (input, now, m, free))
                              v))
                  ]
            ]
  ]

  approved-Inv :
      (h : List (ℕ × Call)) (st : Server) (id approver : String) (now : ℕ) (r : CommandRow)
      → find (by_id id) st.commands ≡ some r
      → str_eq r.issued_by approver ≡ false
      → Inv env h st
      → Inv env h (updated st (by_id id) (approve_row approver now))
  approved-Inv h st id approver now r e second v =
      let sanctions : (x : CommandRow)
          → find (by_id id) st.commands ≡ some x
          → Sanctioned env h (approve_row approver now x) =
        λ x f.
          inl
            (approver, refl, λ self. absurd (ground (arith, eq_iff r.issued_by approver, f, e))) in
      updated-Inv env h st (by_id id) (approve_row approver now) (λ x. refl)
        (λ x f s. sanctions x f) (λ x f o d. sanctions x f) v

  pub approve-Inv :
      (h : List (ℕ × Call)) (st : Server) (id approver username : String) (now : ℕ)
      → Inv env h st
      → Inv env h (approve env id approver username now st).1
  unfolding approve
  approve-Inv h st id approver username now v = elim (Option-cases (find (by_id id) st.commands)) [
    | inl e ↦ rw (e, approve) v
    | inr (r, e) ↦ elim (Bool-cases (is_state pending_approval r)) [
      | inr other ↦ rw (e, other, approve) v
      | inl waits ↦ elim (Bool-cases (str_eq r.issued_by approver)) [
        | inl self ↦ rw (e, waits, self, approve) v
        | inr second ↦ elim (Bool-cases (is_past r.expires_at now)) [
          | inl late ↦ rw (e, waits, second, late, approve) (expire-Inv env h st (by_id id) now v)
          | inr live ↦
              rw (e, waits, second, live, approve)
                (dispatch-Inv env h _ id now
                  (audited-Inv env h _ _ (approved-Inv h st id approver now r e second v)))
        ]
      ]
    ]
  ]
