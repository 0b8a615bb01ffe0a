-- ===== src/Environments/Examples.antt =====
-- Instances for environment grants: an editor for production alone, held through a group.
use remote_sql_agent.Prelude.{◌≡◌, refl, ◌↔◌, true, some, List, [], ◌∷◌, Elem}
use remote_sql_agent.Roles.{Role, Permission}
use remote_sql_agent.Environments.{
  GrantSubjectKind, EnvironmentGrant, Principal, membership_key, effective_role, can_in_environment,
  permissions_in_environment,
}
use remote_sql_agent.Environments.Grants.{
  Raised, effective_role-Raised, Elem-permissions_in_environment,
}

abbrev principal : Principal
principal = record {
  user_id = "u1";
  role = Role.viewer;
  identity_groups = membership_key GrantSubjectKind.app_role "dba" ∷ [];
}

abbrev grants : List EnvironmentGrant
grants =
    record {
      subject_kind = GrantSubjectKind.app_role;
      subject_key = "dba";
      environment_tag = "Production ";
      role = Role.admin;
    }
    ∷ []

effective_role_test : effective_role principal grants (some "production") ≡ Role.admin
unfolding effective_role
effective_role_test = refl

effective_role-Raised_example :
    Raised principal grants
      (some "production")
      Role.viewer
      (effective_role principal grants (some "production"))
effective_role-Raised_example = effective_role-Raised principal grants (some "production")

Elem-permissions_in_environment_example :
    Elem Permission.job_write (permissions_in_environment principal grants (some "production"))
    ↔ (can_in_environment principal grants Permission.job_write (some "production") ≡ true)
Elem-permissions_in_environment_example =
    Elem-permissions_in_environment principal grants Permission.job_write (some "production")
