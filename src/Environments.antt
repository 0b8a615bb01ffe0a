-- ===== src/Environments.antt =====
-- packages/server/src/auth/environments.ts: what a grant for an environment adds to a principal's base role. The
-- lower case of a tag is taken on the letters A to Z.
pub mod Grants
pub mod Permits
mod Examples
use remote_sql_agent.Prelude.{
  ℕ, leb, if◌then◌else◌, Bool, true, false, not, ◌&&◌, ◌||◌, String, str_eq, codes, codes_eq, trim,
  lower, Option, none, some, List, [], ◌∷◌, ◌++◌, map, filter, has, add, add_all,
}
use remote_sql_agent.Roles.{
  Role, Permission, Permission-discrete, role_permissions, role_has_permission,
}

pub data GrantSubjectKind : Type 0 where
  entra_group app_role user : GrantSubjectKind

pub record EnvironmentGrant : Type 0 where
  pub subject_kind : GrantSubjectKind
  pub subject_key : String
  pub environment_tag : String
  pub role : Role

pub record Principal : Type 0 where
  pub user_id : String
  pub role : Role
  -- The code points of the `kind:key` strings.
  pub identity_groups : List (List ℕ)

abbrev pub kind_name : GrantSubjectKind → String
kind_name GrantSubjectKind.entra_group = "entra_group"
kind_name GrantSubjectKind.app_role = "app_role"
kind_name GrantSubjectKind.user = "user"

unfoldable pub membership_key : GrantSubjectKind → String → List ℕ
membership_key kind key = codes (kind_name kind) ++ (b':' ∷ codes key)

-- `trimmed ? trimmed : null`.
abbrev none_if_empty : List ℕ → Option (List ℕ)
none_if_empty [] = none
none_if_empty (c ∷ s) = some (c ∷ s)

unfoldable pub normalise_tag : Option String → Option (List ℕ)
unfolding trim lower
normalise_tag none = none
normalise_tag (some tag) = none_if_empty (map lower (trim (codes tag)))

-- `principal.identityGroups.includes(key)`.
abbrev pub in_groups : List (List ℕ) → List ℕ → Bool
in_groups [] key = false
in_groups (g ∷ groups) key = codes_eq g key || in_groups groups key

unfoldable pub applies_to_subject : EnvironmentGrant → Principal → Bool
unfolding membership_key
applies_to_subject grant principal = elim grant.subject_kind [
  | GrantSubjectKind.user ↦ str_eq grant.subject_key principal.user_id
  | GrantSubjectKind.entra_group ↦
      in_groups principal.identity_groups
        (membership_key GrantSubjectKind.entra_group grant.subject_key)
  | GrantSubjectKind.app_role ↦
      in_groups principal.identity_groups
        (membership_key GrantSubjectKind.app_role grant.subject_key)
]

abbrev pub all_environments : String
all_environments = "*"

-- `normaliseTag(a) === target` for a target that is there.
abbrev same_tag : Option (List ℕ) → Option (List ℕ) → Bool
same_tag none target = false
same_tag (some t) none = false
same_tag (some t) (some g) = codes_eq g t

unfoldable pub applies_to_environment : EnvironmentGrant → Option String → Bool
unfolding normalise_tag
applies_to_environment grant environment_tag =
    if str_eq grant.environment_tag all_environments
    then true
    else same_tag (normalise_tag environment_tag) (normalise_tag (some grant.environment_tag))

-- `ROLE_RANK`.
unfoldable pub role_rank : Role → ℕ
role_rank Role.viewer = 0
role_rank Role.operator = 1
role_rank Role.editor = 2
role_rank Role.admin = 3

unfoldable pub higher : Role → Role → Role
unfolding role_rank
higher a b = if leb (role_rank b) (role_rank a) then a else b

unfoldable pub estate_only_permissions : List Permission
estate_only_permissions =
    Permission.worker_admin ∷ Permission.user_admin ∷ Permission.audit_read ∷ []

-- A grant that is for this principal and reaches the environment.
abbrev pub applies : Principal → Option String → EnvironmentGrant → Bool
applies principal environment_tag grant =
    applies_to_subject grant principal && applies_to_environment grant environment_tag

-- The loop over the grants, from a role.
unfoldable pub raise_role : Principal → List EnvironmentGrant → Option String → Role → Role
unfolding higher applies_to_subject applies_to_environment
raise_role principal [] environment_tag role = role
raise_role principal (grant ∷ grants) environment_tag role =
    raise_role principal grants environment_tag
      (if applies principal environment_tag grant then higher role grant.role else role)

unfoldable pub effective_role : Principal → List EnvironmentGrant → Option String → Role
unfolding raise_role
effective_role principal grants environment_tag =
    raise_role principal grants environment_tag principal.role

abbrev pub is_estate_only : Permission → Bool
is_estate_only permission = has Permission-discrete estate_only_permissions permission

unfoldable pub can_in_environment :
    Principal → List EnvironmentGrant → Permission → Option String → Bool
unfolding effective_role role_has_permission Permission-discrete estate_only_permissions
can_in_environment principal grants permission environment_tag =
    if role_has_permission principal.role permission
    then true
    else (if is_estate_only permission
        then false
        else role_has_permission (effective_role principal grants environment_tag) permission)

unfoldable pub permissions_in_environment :
    Principal → List EnvironmentGrant → Option String → List Permission
unfolding effective_role role_permissions Permission-discrete estate_only_permissions
permissions_in_environment principal grants environment_tag =
    let from_grant =
      filter (λ permission. not (is_estate_only permission))
        (role_permissions (effective_role principal grants environment_tag)) in
    add_all Permission-discrete [] (role_permissions principal.role ++ from_grant)
