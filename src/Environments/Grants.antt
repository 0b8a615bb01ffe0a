-- ===== src/Environments/Grants.antt =====
-- packages/server/src/auth/environments.ts: the effective role and the permissions.
use remote_sql_agent.Prelude.{
  ◌≡◌, refl, sym, ap, ◌∙◌, subst, ◌↔◌, ◌⊎◌, inl, inr, ◌≤◌, if◌then◌else◌, true, not, String, str_eq,
  Option, none, List, [], ◌∷◌, ◌++◌, arith, Elem, Elem-append, Elem-filter, Elem-add_all, filter,
  has, has_iff, Bool-cases,
}
use remote_sql_agent.Roles.{
  Role, Permission, Permission-discrete, role_permissions, role_has_permission,
}
use remote_sql_agent.Environments.{
  EnvironmentGrant, Principal, applies, applies_to_environment, all_environments, normalise_tag,
  role_rank, higher, raise_role, effective_role, is_estate_only, can_in_environment,
  permissions_in_environment,
}

role_rank-higher :
    (a b : Role)
    → (role_rank a ≤ role_rank (higher a b))
      × (role_rank b ≤ role_rank (higher a b))
      × ((higher a b ≡ a) ⊎ (higher a b ≡ b))
unfolding higher
role_rank-higher a b = ground arith

-- What the loop returns, from a role that it starts with: the greatest of that role and those of the grants
-- that apply.
pub record Raised (p : Principal) (gs : List EnvironmentGrant) (tag : Option String)
    (base out : Role) : Type 0 where
  pub above_base : role_rank base ≤ role_rank out
  pub above_grants :
      (g : EnvironmentGrant) → Elem g gs → applies p tag g ≡ true → role_rank g.role ≤ role_rank out
  pub given :
      (out ≡ base)
      ⊎ ((g : EnvironmentGrant) × Elem g gs × (applies p tag g ≡ true) × (g.role ≡ out))

raise_role-Raised :
    (p : Principal) (gs : List EnvironmentGrant) (tag : Option String) (base : Role)
    → Raised p gs tag base (raise_role p gs tag base)
unfolding raise_role
raise_role-Raised p [] tag base = record {
  above_base = omega arith;
  above_grants = λ g m. absurd m;
  given = inl refl;
}
raise_role-Raised p (g ∷ gs) tag base = elim (Bool-cases (applies p tag g)) [
  | inr skips ↦
      let r = raise_role-Raised p gs tag base in
      rw (skips) (record {
        above_base = r.above_base;
        above_grants = λ x m a. elim m [
          | inl e ↦ absurd (ground (arith, skips, subst (λ y. applies p tag y ≡ true) e a))
          | inr m' ↦ r.above_grants x m' a
        ];
        given = elim r.given [ inl e ↦ inl e | inr (x, m, a, e) ↦ inr (x, inr m, a, e) ];
      })
  | inl hits ↦
      let r = raise_role-Raised p gs tag (higher base g.role) in
      let h = role_rank-higher base g.role in
      rw (hits) (record {
        above_base = omega (arith, h.0, r.above_base);
        above_grants = λ x m a. elim m [
          | inl e ↦
              subst (λ y. role_rank y.role ≤ role_rank (raise_role p gs tag (higher base g.role)))
                (sym e) (omega (arith, h.1, r.above_base))
          | inr m' ↦ r.above_grants x m' a
        ];
        given = elim r.given [
          | inl e ↦ elim h.2 [ inl b ↦ inl (e ∙ b) | inr c ↦ inr (g, inl refl, hits, sym (e ∙ c)) ]
          | inr (x, m, a, e) ↦ inr (x, inr m, a, e)
        ];
      })
]

-- The effective role is the greatest, in the order of the roles, of the base role and of the roles of the grants
-- that are for the principal and reach the environment: it is at least each of these, and it is one of them.
pub effective_role-Raised :
    (p : Principal) (gs : List EnvironmentGrant) (tag : Option String)
    → Raised p gs tag p.role (effective_role p gs tag)
unfolding effective_role
effective_role-Raised p gs tag = raise_role-Raised p gs tag p.role

role_has_permission_iff :
    (r : Role) (x : Permission) → (role_has_permission r x ≡ true) ↔ Elem x (role_permissions r)
unfolding role_has_permission
role_has_permission_iff r x = has_iff Permission-discrete (role_permissions r) x

Elem-permissions :
    (p : Principal) (gs : List EnvironmentGrant) (x : Permission) (tag : Option String)
    → Elem x (permissions_in_environment p gs tag) ↔ (
        Elem x (role_permissions p.role)
        ⊎ (Elem x (role_permissions (effective_role p gs tag)) × (not (is_estate_only x) ≡ true)))
unfolding permissions_in_environment
Elem-permissions p gs x tag =
    let granted = role_permissions (effective_role p gs tag) in
    let kept = filter (λ y. not (is_estate_only y)) granted in
    let all = role_permissions p.role ++ kept in
    let set = Elem-add_all Permission-discrete [] all x in
    let join = Elem-append x (role_permissions p.role) kept in
    let keep = Elem-filter (λ y. not (is_estate_only y)) x granted in
    (
      λ m. elim (set.0 m) [
        | inl e ↦ absurd e
        | inr m' ↦ elim (join.0 m') [ inl b ↦ inl b | inr k ↦ inr (keep.0 k) ]
      ],
      λ m. set.1 (inr (join.1 (elim m [ inl b ↦ inl b | inr k ↦ inr (keep.1 k) ]))),
    )

pub can_in_environment_iff :
    (p : Principal) (gs : List EnvironmentGrant) (x : Permission) (tag : Option String)
    → (can_in_environment p gs x tag ≡ true) ↔ (
        (role_has_permission p.role x ≡ true)
        ⊎ ((role_has_permission (effective_role p gs tag) x ≡ true)
            × (not (is_estate_only x) ≡ true)))
unfolding can_in_environment
can_in_environment_iff p gs x tag = elim (Bool-cases (role_has_permission p.role x)) [
  | inl held ↦ rw (held, can_in_environment) (λ e. inl refl, λ e. refl)
  | inr lacks ↦ elim (Bool-cases (is_estate_only x)) [
    | inl estate ↦
        rw (lacks, estate, can_in_environment)
          (λ e. absurd (cc), λ e. absurd (elim e [ inl a ↦ cc | inr b ↦ cc ]))
    | inr local ↦
        rw (lacks, local, can_in_environment)
          (λ e. inr (e, refl), λ e. elim e [ inl a ↦ absurd (cc) | inr b ↦ b.0 ])
  ]
]

-- The permissions that the dashboard is told of are exactly those that the guard lets through.
pub Elem-permissions_in_environment :
    (p : Principal) (gs : List EnvironmentGrant) (x : Permission) (tag : Option String)
    → Elem x (permissions_in_environment p gs tag) ↔ (can_in_environment p gs x tag ≡ true)
Elem-permissions_in_environment p gs x tag =
    let told = Elem-permissions p gs x tag in
    let lets = can_in_environment_iff p gs x tag in
    let base = role_has_permission_iff p.role x in
    let raised = role_has_permission_iff (effective_role p gs tag) x in
    (
      λ m. lets.1 (elim (told.0 m) [ inl b ↦ inl (base.1 b) | inr k ↦ inr (raised.1 k.0, k.1) ]),
      λ c. told.1 (elim (lets.0 c) [ inl b ↦ inl (base.0 b) | inr k ↦ inr (raised.0 k.0, k.1) ]),
    )

-- A permission that is estate-wide only is held in an environment exactly when the base role has it, whatever
-- grants there are.
pub can_in_environment-estate :
    (p : Principal) (gs : List EnvironmentGrant) (x : Permission) (tag : Option String)
    → is_estate_only x ≡ true
    → can_in_environment p gs x tag ≡ role_has_permission p.role x
unfolding can_in_environment
can_in_environment-estate p gs x tag e = elim (Bool-cases (role_has_permission p.role x)) [
  | inl has ↦ rw (has)
  | inr lacks ↦ rw (lacks, e)
]

raise_role-untagged :
    (p : Principal) (gs : List EnvironmentGrant) (base : Role)
    → raise_role p gs none base
      ≡ raise_role p (filter (λ g. str_eq g.environment_tag all_environments) gs) none base
unfolding raise_role applies_to_environment normalise_tag
raise_role-untagged p [] base = refl
raise_role-untagged p (g ∷ rest) base =
    elim (Bool-cases (str_eq g.environment_tag all_environments)) [
      | inl all ↦
          let star = λ (x : EnvironmentGrant). str_eq x.environment_tag all_environments in
          let kept : filter star (g ∷ rest) ≡ g ∷ filter star rest = rw (all) in
          raise_role-untagged p rest (if applies p none g then higher base g.role else base)
          ∙ ap (λ l. raise_role p l none base) (sym kept)
      | inr one ↦ ground (arith, one, raise_role-untagged p rest base)
    ]

-- An environment without a tag is reached by the grants for all environments alone, so the other grants do not
-- count there.
pub effective_role-untagged :
    (p : Principal) (gs : List EnvironmentGrant)
    → effective_role p gs none
      ≡ effective_role p (filter (λ g. str_eq g.environment_tag all_environments) gs) none
unfolding effective_role
effective_role-untagged p gs = raise_role-untagged p gs p.role
