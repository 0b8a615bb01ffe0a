-- ===== src/Environments/Permits.antt =====
-- packages/server/src/auth/environments.ts: which single grant gives a permission in an environment.
use remote_sql_agent.Prelude.{
  ◌≡◌, refl, sym, subst, ◌↔◌, ◌⊎◌, inl, inr, ◌≤◌, true, false, String, Option, List, [], ◌++◌,
  arith, Elem, Elem-append, has_iff, drop, Bool-cases,
}
use remote_sql_agent.Roles.{
  Role, Permission, Permission-discrete, role_permissions, role_has_permission,
}
use remote_sql_agent.Environments.{
  EnvironmentGrant, Principal, applies, role_rank, effective_role, estate_only_permissions,
  is_estate_only, can_in_environment,
}
use remote_sql_agent.Environments.Grants.{effective_role-Raised, can_in_environment_iff}

-- The permissions that no grant gives.
abbrev pub IsEstateWide : Permission → Type 0
IsEstateWide x =
    (x ≡ Permission.worker_admin) ⊎ ((x ≡ Permission.user_admin) ⊎ (x ≡ Permission.audit_read))

-- One of the grants is for the principal, reaches the environment, and has a role with the permission, which is not
-- one of those that no grant gives.
abbrev pub IsGranted : Principal → List EnvironmentGrant → Permission → Option String → Type 0
IsGranted p gs x tag =
    (¬ IsEstateWide x)
    × (g : EnvironmentGrant) × Elem g gs
    × (applies p tag g ≡ true)
    × (role_has_permission g.role x ≡ true)

is_estate_only_iff : (x : Permission) → (is_estate_only x ≡ true) ↔ IsEstateWide x
unfolding estate_only_permissions
is_estate_only_iff x =
    let found = has_iff Permission-discrete estate_only_permissions x in
    (
      λ h. elim (found.0 h) [
        | inl a ↦ inl a
        | inr r ↦ elim r [
          | inl b ↦ inr (inl b)
          | inr s ↦ elim s [ inl c ↦ inr (inr c) | inr e ↦ absurd e ]
        ]
      ],
      λ h. found.1 (elim h [
        | inl a ↦ inl a
        | inr r ↦ elim r [ inl b ↦ inr (inl b) | inr c ↦ inr (inr (inl c)) ]
      ]),
    )

-- A role has the permissions of the roles below it, with more behind them.
role_permissions_prefix :
    (a b : Role)
    → role_rank a ≤ role_rank b
    → (extra : List Permission) × (role_permissions b ≡ role_permissions a ++ extra)
unfolding role_rank role_permissions
role_permissions_prefix Role.viewer Role.viewer h = ([], refl)
role_permissions_prefix Role.viewer Role.operator h =
    (drop 4 (role_permissions Role.operator), refl)
role_permissions_prefix Role.viewer Role.editor h = (drop 4 (role_permissions Role.editor), refl)
role_permissions_prefix Role.viewer Role.admin h = (drop 4 (role_permissions Role.admin), refl)
role_permissions_prefix Role.operator Role.viewer h = absurd (omega (arith, h))
role_permissions_prefix Role.operator Role.operator h = ([], refl)
role_permissions_prefix Role.operator Role.editor h = (drop 6 (role_permissions Role.editor), refl)
role_permissions_prefix Role.operator Role.admin h = (drop 6 (role_permissions Role.admin), refl)
role_permissions_prefix Role.editor Role.viewer h = absurd (omega (arith, h))
role_permissions_prefix Role.editor Role.operator h = absurd (omega (arith, h))
role_permissions_prefix Role.editor Role.editor h = ([], refl)
role_permissions_prefix Role.editor Role.admin h = (drop 8 (role_permissions Role.admin), refl)
role_permissions_prefix Role.admin Role.viewer h = absurd (omega (arith, h))
role_permissions_prefix Role.admin Role.operator h = absurd (omega (arith, h))
role_permissions_prefix Role.admin Role.editor h = absurd (omega (arith, h))
role_permissions_prefix Role.admin Role.admin h = ([], refl)

role_has_permission-higher :
    (a b : Role) (x : Permission)
    → role_rank a ≤ role_rank b
    → role_has_permission a x ≡ true
    → role_has_permission b x ≡ true
unfolding role_has_permission
role_has_permission-higher a b x h e =
    let (extra, whole) = role_permissions_prefix a b h in
    let m = (has_iff Permission-discrete (role_permissions a) x).0 e in
    (has_iff Permission-discrete (role_permissions b) x).1
      (subst (Elem x) (sym whole) ((Elem-append x (role_permissions a) extra).1 (inl m)))

-- Where the base role lacks a permission, a principal has it in an environment exactly if one grant gives it.
pub can_in_environment-IsGranted :
    (p : Principal) (gs : List EnvironmentGrant) (x : Permission) (tag : Option String)
    → role_has_permission p.role x ≡ false
    → (can_in_environment p gs x tag ≡ true) ↔ IsGranted p gs x tag
can_in_environment-IsGranted p gs x tag lacks =
    let can = can_in_environment_iff p gs x tag in
    let raised = effective_role-Raised p gs tag in
    (
      λ h. elim (can.0 h) [
        | inl base ↦ absurd (ground (arith, lacks, base))
        | inr (held, local) ↦ elim raised.given [
          | inl same ↦
              let base = subst (λ r. role_has_permission r x ≡ true) same held in
              absurd (ground (arith, lacks, base))
          | inr (g, m, a, own) ↦ (
            λ wide. absurd (ground (arith, local, (is_estate_only_iff x).1 wide)),
            g,
            m,
            a,
            subst (λ r. role_has_permission r x ≡ true) (sym own) held,
          )
        ]
      ],
      λ (narrow, g, m, a, held).
          let local : is_estate_only x ≡ false = elim (Bool-cases (is_estate_only x)) [
            | inl wide ↦ absurd (narrow ((is_estate_only_iff x).0 wide))
            | inr local ↦ local
          ] in
          can.1 (
            inr (
              role_has_permission-higher g.role (effective_role p gs tag) x
                  (raised.above_grants g m a) held,
              ground (arith, local),
            )),
    )
