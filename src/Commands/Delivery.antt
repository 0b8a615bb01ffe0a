-- ===== src/Commands/Delivery.antt =====
-- Dispatch and expiry in packages/server/src/domain/commands.ts: what each of them leaves in the table.
use remote_sql_agent.Prelude.{
  find-update_where, update_where, ℕ, ◌≡◌, refl, sym, subst, inl, inr, true, false, String, eq_iff,
  some, List, [], ◌∷◌, ◌++◌, map, arith, All, find, find-some, Bool-cases, Option-cases, has_iff,
}
use remote_sql_agent.Commands.Rows.{CommandState-discrete, approved, dispatched, CommandRow, Server}
use remote_sql_agent.Signing.{command_kind}
use remote_sql_agent.Commands.Payloads.{build_proto_command, command_kind-build_proto_command}
use remote_sql_agent.Commands.Service.{
  Env, Target, by_id, is_state, is_past, signed_command, dispatch_row, dispatch_found, dispatch,
}
use remote_sql_agent.Commands.Lifecycle.{is_stale, stale_row, expire_if_stale, expire_stale}

stale_row-fresh : (now : ℕ) (r : CommandRow) → is_stale now (stale_row now r) ≡ false
unfolding is_stale
stale_row-fresh now r = refl

fresh-expire_if_stale : (now : ℕ) (r : CommandRow) → is_stale now (expire_if_stale now r) ≡ false
fresh-expire_if_stale now r = elim (Bool-cases (is_stale now r)) [
  | inl late ↦ rw (late) (stale_row-fresh now r)
  | inr live ↦ rw (live) live
]

All-fresh :
    (now : ℕ) (rows : List CommandRow)
    → All (λ r. is_stale now r ≡ false) (map (expire_if_stale now) rows)
All-fresh now [] = tt
All-fresh now (r ∷ rows) = (fresh-expire_if_stale now r, All-fresh now rows)

-- After `expire_stale` at a time, no row is stale at that time: none still waits for approval, for dispatch or
-- for a result with its expiry behind it.
pub expire_stale_complete :
    (now : ℕ) (st : Server) → All (λ r. is_stale now r ≡ false) (expire_stale now st).1.commands
unfolding expire_stale
expire_stale_complete now st = All-fresh now st.commands

module _ (env : Env) where
  -- What a send needs, and what it leaves. The command sent has the row's id and kind and the name of the instance
  -- that the row is of.
  pub record Sends (id : String) (now : ℕ) (st st' : Server) : Type 0 where
    pub row : CommandRow
    pub target : Target
    pub found : find (by_id id) st.commands ≡ some row
    pub located : env.target row.instance_id ≡ some target
    pub is_approved : row.state ≡ approved
    pub is_live : is_past row.expires_at now ≡ false
    pub is_online : env.is_online row.worker_id ≡ true
    pub sent :
        st'.outgoing
        ≡ st.outgoing ++ (row.worker_id, signed_command env row target.instance_name now) ∷ []
    pub stored :
        find (by_id id) st'.commands
        ≡ some
            (dispatch_row env now (signed_command env row target.instance_name now).signature row)
    pub addressed :
        let c = signed_command env row target.instance_name now in
        (c.id ≡ row.id)
        × (command_kind c ≡ some row.kind)
        × (c.instance_name ≡ target.instance_name)
        × (c.signature ≡ env.sign (record c { signature = [] }))

  pub signed_command-addressed :
      (r : CommandRow) (name : String) (now : ℕ)
      → let c = signed_command env r name now in
        (c.id ≡ r.id)
        × (command_kind c ≡ some r.kind)
        × (c.instance_name ≡ name)
        × (c.signature ≡ env.sign (record c { signature = [] }))
  unfolding build_proto_command command_kind
  signed_command-addressed r name now = (
    refl,
    command_kind-build_proto_command env.to_number r.id r.kind name r.payload now,
    refl,
    refl,
  )

  dispatch_found-Sends :
      (id : String) (now : ℕ) (st : Server) (r : CommandRow) (t : Target)
      → find (by_id id) st.commands ≡ some r
      → env.target r.instance_id ≡ some t
      → r.id ≡ id
      → (dispatch_found env r t now st).0 ≡ true
      → Sends id now st (dispatch_found env r t now st).1
  unfolding dispatch_found
  dispatch_found-Sends id now st r t f g same sends = elim (Bool-cases (is_state approved r)) [
    | inr other ↦ absurd (ground (arith, other, sends))
    | inl is_approved ↦ elim (Bool-cases (is_past r.expires_at now)) [
      | inl late ↦ absurd (ground (arith, is_approved, late, sends))
      | inr live ↦ elim (Bool-cases (env.is_online r.worker_id)) [
        | inr offline ↦ absurd (ground (arith, is_approved, live, offline, sends))
        | inl online ↦
            rw (is_approved, live, online, dispatch_found)
              (record {
                row = r;
                target = t;
                found = f;
                located = g;
                is_approved = ground (arith, has_iff CommandState-discrete (approved ∷ []) r.state);
                is_live = live;
                is_online = online;
                sent = refl;
                stored =
                    let c = signed_command env r t.instance_name now in
                    subst
                      (λ x.
                        find (by_id id)
                          (update_where (by_id x) (dispatch_row env now c.signature) st.commands)
                        ≡ some (dispatch_row env now c.signature r))
                      (sym same)
                      (find-update_where (by_id id) (dispatch_row env now c.signature) st.commands r
                        (λ x. refl) f);
                addressed = signed_command-addressed r t.instance_name now;
              })
      ]
    ]
  ]

  dispatched-Sends :
      (id : String) (now : ℕ) (st : Server)
      → (dispatch env id now st).0 ≡ true
      → Sends id now st (dispatch env id now st).1
  unfolding dispatch
  dispatched-Sends id now st sends = elim (Option-cases (find (by_id id) st.commands)) [
    | inl e ↦ absurd (ground (arith, e, sends))
    | inr (r, e) ↦ elim (Option-cases (env.target r.instance_id)) [
      | inl g ↦ absurd (ground (arith, e, g, sends))
      | inr (t, g) ↦
          let same : r.id ≡ id = (eq_iff r.id id).0 (find-some (by_id id) r st.commands e).1 in
          rw (e, g, dispatch)
            (dispatch_found-Sends id now st r t e g same (ground (arith, e, g, sends)))
    ]
  ]

  dispatch-idle :
      (id : String) (now : ℕ) (st : Server) (r : CommandRow)
      → find (by_id id) st.commands ≡ some r
      → r.state ≡ dispatched
      → dispatch env id now st ≡ (false, st)
  unfolding dispatch dispatch_found
  dispatch-idle id now st r f e = elim (Option-cases (env.target r.instance_id)) [
    | inl g ↦ ground (arith, f, g)
    | inr (t, g) ↦
        let other : is_state approved r ≡ false =
          ground (arith, has_iff CommandState-discrete (approved ∷ []) r.state) in
        ground (arith, f, g, other)
  ]

  -- A command is sent once: after a dispatch that reports a send, a dispatch of the same id at any time
  -- reports no send and changes nothing.
  pub dispatch_once :
      (id : String) (now later : ℕ) (st : Server)
      → (dispatch env id now st).0 ≡ true
      → dispatch env id later (dispatch env id now st).1 ≡ (false, (dispatch env id now st).1)
  dispatch_once id now later st sends =
      let s = dispatched-Sends id now st sends in
      dispatch-idle id later (dispatch env id now st).1
        (dispatch_row env now (signed_command env s.row s.target.instance_name now).signature s.row)
        s.stored refl
