-- ===== src/Guards/Closed.antt =====
-- packages/server/src/auth/rbac.ts: whom the guard of an instance's routes lets through.
use remote_sql_agent.Prelude.{
  ℕ, ◌≡◌, ◌≢◌, refl, sym, subst, ◌∙◌, ◌⊎◌, inl, inr, ◌↔◌, Bool-cases, true, false, String, Option,
  none, some, arith,
}
use remote_sql_agent.Roles.{Permission, role_has_permission}
use remote_sql_agent.Environments.{Principal, can_in_environment}
use remote_sql_agent.Environments.Permits.{IsGranted, can_in_environment-IsGranted}
use remote_sql_agent.Guards.Decided.{
  IsAuthenticated, IsFor, rejected-ne-known, known-injective, authenticate_iff,
  resolve_environment_iff,
}
use remote_sql_agent.Guards.{
  Session, GuardDeps, Request, passes, refused_with, Authentication, known, rejected, authenticate,
  resolve_environment, by_grant, require_instance_permission,
}

-- The base role has the permission, or the instance is named and found, and one grant gives the permission in its
-- environment.
abbrev pub MayAct : GuardDeps → Permission → Request → Session → Type 0
MayAct deps permission r s =
    (role_has_permission s.user.role permission ≡ true)
    ⊎ ((tag : Option String) × IsFor deps r tag × IsGranted s.user deps.grants permission tag)

by_grant-passes :
    (deps : GuardDeps) (permission : Permission) (user : Principal) (found : Option (Option String))
    → by_grant deps permission user found ≡ passes
    → (tag : Option String) × (found ≡ some tag)
      × (can_in_environment user deps.grants permission tag ≡ true)
unfolding by_grant
by_grant-passes deps permission user none h = absurd (ground (arith, h))
by_grant-passes deps permission user (some tag) h =
    elim (Bool-cases (can_in_environment user deps.grants permission tag)) [
      | inl can ↦ (tag, refl, can)
      | inr cannot ↦ absurd (ground (arith, cannot, h))
    ]

Authentication-cases :
    (a : Authentication)
    → ((s : Session) × (a ≡ known s)) ⊎ ((n : ℕ) × (error : String) × (a ≡ rejected n error))
Authentication-cases (known s) = inl (s, refl)
Authentication-cases (rejected n error) = inr (n, error, refl)

refused-ne-passes : (n : ℕ) (error : String) → refused_with n error ≢ passes
refused-ne-passes n error e = cc

granted :
    (deps : GuardDeps) (permission : Permission) (r : Request) (s : Session)
    → role_has_permission s.user.role permission ≡ false
    → MayAct deps permission r s
    → by_grant deps permission s.user (resolve_environment deps r.instance_id) ≡ passes
unfolding by_grant
granted deps permission r s lacks (inl base) = absurd (ground (arith, lacks, base))
granted deps permission r s lacks (inr (tag, found, grant)) =
    let can = (can_in_environment-IsGranted s.user deps.grants permission tag lacks).1 grant in
    rw ((resolve_environment_iff deps r tag).1 found, can, by_grant)

-- The guard lets a request through exactly if its cookie resolves to a session and, where its method is POST, PUT, PATCH or
-- DELETE, its header has a token that is not empty and matches the session's; and the user's base role has the
-- permission, or the request names an instance whose lookup finds it with a tag, and one of the grants is for the user,
-- reaches that environment and has a role with the permission, which is not one of the three that no grant gives. So
-- a lookup that fails or finds nothing lets nobody through on a grant.
pub require_instance_permission-MayAct :
    (deps : GuardDeps) (permission : Permission) (r : Request)
    → (require_instance_permission deps permission r ≡ passes)
      ↔ ((s : Session) × IsAuthenticated deps r s × MayAct deps permission r s)
unfolding require_instance_permission
require_instance_permission-MayAct deps permission r =
    elim (Authentication-cases (authenticate deps r)) [
      | inr (n, error, e) ↦ (
        λ h. absurd (refused-ne-passes n error (rw (e, require_instance_permission) at h)),
        λ (s, known_s, may).
            absurd (rejected-ne-known n error s (sym e ∙ (authenticate_iff deps r s).1 known_s)),
      )
      | inl (s, e) ↦
          let known_s = (authenticate_iff deps r s).0 e in
          elim (Bool-cases (role_has_permission s.user.role permission)) [
            | inl base ↦
                (λ h. (s, known_s, inl base), λ h. rw (e, base, require_instance_permission))
            | inr lacks ↦ (
              λ h.
                  let h' : by_grant deps permission s.user (resolve_environment deps r.instance_id)
                      ≡ passes =
                    rw (e, lacks, require_instance_permission) at h in
                  let (tag, found, can) =
                    by_grant-passes deps permission s.user (resolve_environment deps r.instance_id)
                      h' in
                  (
                    s,
                    known_s,
                    inr (
                      tag,
                      (resolve_environment_iff deps r tag).0 found,
                      (can_in_environment-IsGranted s.user deps.grants permission tag lacks).0 can,
                    ),
                  ),
              λ (s', e', may).
                  let same : s' ≡ s =
                    known-injective s' s (sym ((authenticate_iff deps r s').1 e') ∙ e) in
                  let may' : MayAct deps permission r s =
                    subst (MayAct deps permission r) same may in
                  rw (e, lacks, require_instance_permission)
                    (granted deps permission r s lacks may'),
            )
          ]
    ]
