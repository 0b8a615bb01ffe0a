-- ===== src/Guards/Examples.antt =====
-- Tests and instances for the guards: an operator with a grant for production.
use remote_sql_agent.Prelude.{
  ◌≡◌, refl, ◌↔◌, String, str_eq, if◌then◌else◌, Option, none, some, [], ◌∷◌,
}
use remote_sql_agent.Roles.{
  Role, Permission, Permission-discrete, role_permissions, role_has_permission,
}
use remote_sql_agent.Environments.{GrantSubjectKind, Principal}
use remote_sql_agent.Guards.{
  Session, tagged, missing, failed, GuardDeps, Request, passes, refused_with, authenticate,
  resolve_environment, by_grant, require_instance_permission,
}
use remote_sql_agent.Guards.Decided.{IsAuthenticated}
use remote_sql_agent.Guards.Closed.{MayAct, require_instance_permission-MayAct}

abbrev user : Principal
user = record { user_id = "u1"; role = Role.viewer; identity_groups = [] }

abbrev deps : GuardDeps
deps = record {
  resolve_session = λ cookie. some (record { user = user; csrf_token_hash = "h" });
  token_matches = λ token hash. str_eq token "t";
  environment_of_instance = λ i.
      if str_eq i "i1" then tagged (some "prod") else (if str_eq i "i2" then missing else failed);
  grants =
      record {
        subject_kind = GrantSubjectKind.user;
        subject_key = "u1";
        environment_tag = "prod";
        role = Role.admin;
      }
      ∷ [];
}

abbrev edit : Option String → Option String → Request
edit instance_id token = record {
  method = "POST";
  session_cookie = some "c";
  csrf_header = token;
  instance_id = instance_id;
}

-- No token, and an instance that is gone or cannot be looked up.
refusals :
    (require_instance_permission deps Permission.job_write (edit (some "i1") none)
      ≡ refused_with 403 "CsrfFailed")
    × (require_instance_permission deps Permission.job_write (edit (some "i2") (some "t"))
        ≡ refused_with 403 "Forbidden")
    × (require_instance_permission deps Permission.job_write (edit (some "i3") (some "t"))
        ≡ refused_with 403 "Forbidden")
unfolding require_instance_permission authenticate resolve_environment by_grant role_has_permission
    role_permissions Permission-discrete
refusals = (refl, refl, refl)

require_instance_permission-MayAct_example :
    (require_instance_permission deps Permission.job_write (edit (some "i1") (some "t")) ≡ passes)
    ↔ ((s : Session) × IsAuthenticated deps (edit (some "i1") (some "t")) s
        × MayAct deps Permission.job_write (edit (some "i1") (some "t")) s)
require_instance_permission-MayAct_example =
    require_instance_permission-MayAct deps Permission.job_write (edit (some "i1") (some "t"))
