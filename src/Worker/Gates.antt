-- ===== src/Worker/Gates.antt =====
-- packages/worker/src/command-handler.ts: the gates.
use remote_sql_agent.Prelude.{
  ℕ, ◌≡◌, inl, inr, ◌≢◌, true, false, String, none, some, List, arith, Elem, has_iff, Option-cases,
}
use remote_sql_agent.Capabilities.{
  Capability-discrete, observe, CommandKind, command_capability, read_only, tier_capabilities,
  effective_capabilities,
}
use remote_sql_agent.Capabilities.Ceiling.{Elem-effective_capabilities}
use remote_sql_agent.Signing.{Command, Crypto, command_kind, verify_command_signature}
use remote_sql_agent.Outbox.{applied_command_outcome}
use remote_sql_agent.Worker.Msdb.{Msdb, is_empty}
use remote_sql_agent.Worker.Handler.{
  CommandContext, WorkerState, fresh_at, refused_by, evaluate_and_apply,
}

-- The command was issued by the control plane, is fresh, and is of a kind that the worker may apply.
pub record Cleared (crypto : Crypto) (ctx : CommandContext) (c : Command) (now : ℕ) : Type 0 where
  pub keyed : is_empty ctx.command_signing_public_key ≡ false
  pub signed : verify_command_signature crypto c ctx.command_signing_public_key ≡ true
  pub fresh : fresh_at c.issued_at now ≡ true
  pub kind : CommandKind
  pub known : command_kind c ≡ some kind
  pub permitted : Elem (command_capability kind) ctx.capabilities

refused_by-none :
    (crypto : Crypto) (ctx : CommandContext) (c : Command) (now : ℕ)
    → refused_by crypto ctx c now ≡ none
    → Cleared crypto ctx c now
unfolding refused_by
refused_by-none crypto ctx c now h = elim (Option-cases (command_kind c)) [
  | inl e ↦ absurd (ground (arith, e))
  | inr (k, e) ↦ record {
    keyed = ground arith;
    signed = ground arith;
    fresh = ground arith;
    kind = k;
    known = e;
    permitted =
        ground (arith, has_iff Capability-discrete ctx.capabilities (command_capability k), e);
  }
]

module _ (m : Msdb) (crypto : Crypto) (ctx : CommandContext) where
  open m use {Db}

  -- If handling a command changes msdb or the outbox at all, the command passed every gate: the key is
  -- there, the signature verifies, it is within the replay window, the worker has the capability for its
  -- kind, and it was not applied before.
  pub evaluate_and_apply-Cleared :
      (c : Command) (now : ℕ) (st : WorkerState Db)
      → (evaluate_and_apply m crypto ctx c now st).1 ≢ st
      → Cleared crypto ctx c now × (applied_command_outcome st.outbox c.id ≡ none)
  unfolding evaluate_and_apply
  evaluate_and_apply-Cleared c now st h = elim (Option-cases (refused_by crypto ctx c now)) [
    | inr (code, e) ↦ absurd (h (rw (e, evaluate_and_apply)))
    | inl e ↦ elim (Option-cases (applied_command_outcome st.outbox c.id)) [
      | inr (p, f) ↦ absurd (h (rw (e, f, evaluate_and_apply)))
      | inl f ↦ (refused_by-none crypto ctx c now e, f)
    ]
  ]

  command_capability-ne-observe : (k : CommandKind) → command_capability k ≢ observe
  unfolding command_capability
  command_capability-ne-observe CommandKind.toggle_job = λ e. cc
  command_capability-ne-observe _ = λ e. cc

  -- A worker whose own ceiling is read-only is changed by no command, whatever the server granted it.
  pub read_only_unchanged :
      (grants : List String)
      → ctx.capabilities ≡ effective_capabilities grants read_only
      → (c : Command) (now : ℕ) (st : WorkerState Db)
      → (evaluate_and_apply m crypto ctx c now st).1 ≡ st
  unfolding evaluate_and_apply tier_capabilities
  read_only_unchanged grants e c now st = elim (Option-cases (refused_by crypto ctx c now)) [
    | inr (code, r) ↦ rw (r, evaluate_and_apply)
    | inl r ↦
        let cl = refused_by-none crypto ctx c now r in
        let needs = command_capability cl.kind in
        elim ((Elem-effective_capabilities grants read_only needs).0 (rw e at cl.permitted)) [
          | inl o ↦ absurd (command_capability-ne-observe cl.kind o)
          | inr (_, inl o) ↦ absurd (command_capability-ne-observe cl.kind o)
          | inr (_, inr f) ↦ absurd f
        ]
  ]
