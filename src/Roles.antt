-- ===== src/Roles.antt =====
-- packages/protocol/src/roles.ts: the dashboard's roles and what each permits.
use remote_sql_agent.Prelude.{Bool, List, [], ◌∷◌, ◌++◌, has}

pub data Role : Type 0 where
  viewer operator editor admin : Role

unfoldable pub Role-discrete : Discrete Role
Role-discrete = hlevel

pub data Permission : Type 0 where
  instance_read job_read history_read version_read job_toggle job_run schedule_write : Permission
  job_write operator_write command_approve worker_admin user_admin audit_read : Permission

unfoldable pub Permission-discrete : Discrete Permission
Permission-discrete = hlevel

abbrev viewer_permissions : List Permission
viewer_permissions = instance_read ∷ job_read ∷ history_read ∷ version_read ∷ []

abbrev operator_permissions : List Permission
operator_permissions = viewer_permissions ++ job_toggle ∷ job_run ∷ []

abbrev editor_permissions : List Permission
editor_permissions = operator_permissions ++ schedule_write ∷ job_write ∷ []

abbrev admin_permissions : List Permission
admin_permissions =
    editor_permissions
    ++ operator_write ∷ command_approve ∷ worker_admin ∷ user_admin ∷ audit_read ∷ []

-- `ROLE_PERMISSIONS`.
unfoldable pub role_permissions : Role → List Permission
role_permissions viewer = viewer_permissions
role_permissions operator = operator_permissions
role_permissions editor = editor_permissions
role_permissions admin = admin_permissions

unfoldable pub role_has_permission : Role → Permission → Bool
unfolding role_permissions Permission-discrete
role_has_permission role permission = has Permission-discrete (role_permissions role) permission
