-- ===== src/Guards.antt =====
-- packages/server/src/auth/rbac.ts: the guards of the HTTP routes as decisions. Looking up a session and an instance's
-- environment, and the comparison of a token with its hash, enter as the record `GuardDeps`; the texts of the details are
-- left out. `principalOf` passes the user's id, role and groups on, so a session carries the principal.
pub mod Decided
pub mod Closed
mod Examples
use remote_sql_agent.Prelude.{
  ℕ, if◌then◌else◌, Bool, true, false, not, ◌||◌, String, str_eq, Option, none, some, List, [], ◌∷◌,
  any,
}
use remote_sql_agent.Roles.{Permission, role_has_permission}
use remote_sql_agent.Environments.{EnvironmentGrant, Principal, can_in_environment}

pub record Session : Type 0 where
  pub user : Principal
  pub csrf_token_hash : String

-- What a query for an instance's environment gives: its tag, which may be null; no such instance; or an exception.
pub data Lookup : Type 0 where
  tagged : Option String → Lookup
  missing failed : Lookup

pub record GuardDeps : Type 0 where
  pub resolve_session : Option String → Option Session
  -- `safeEqualHex(hashToken(token), hash)`.
  pub token_matches : String → String → Bool
  pub environment_of_instance : String → Lookup
  pub grants : List EnvironmentGrant

pub record Request : Type 0 where
  pub method : String
  pub session_cookie : Option String
  pub csrf_header : Option String
  -- What the resolver of the route gives.
  pub instance_id : Option String

-- Whether the handler goes on, or the status and the error that are sent.
pub data Verdict : Type 0 where
  passes : Verdict
  refused_with : ℕ → String → Verdict

pub data Authentication : Type 0 where
  known : Session → Authentication
  rejected : ℕ → String → Authentication

abbrev pub is_mutating : String → Bool
is_mutating method = any (str_eq method) ("POST" ∷ "PUT" ∷ "PATCH" ∷ "DELETE" ∷ [])

-- `providedValue && safeEqualHex(...)`: an absent or empty header never matches.
abbrev pub csrf_ok : GuardDeps → Option String → String → Bool
csrf_ok deps none hash = false
csrf_ok deps (some token) hash = if str_eq token "" then false else deps.token_matches token hash

unfoldable pub authenticate : GuardDeps → Request → Authentication
authenticate deps r = elim (deps.resolve_session r.session_cookie) [
  | none ↦ rejected 401 "Unauthenticated"
  | some s ↦
      if is_mutating r.method
      then (if csrf_ok deps r.csrf_header s.csrf_token_hash
          then known s
          else rejected 403 "CsrfFailed")
      else known s
]

unfoldable pub require_permission : GuardDeps → Permission → Request → Verdict
require_permission deps permission r = elim (authenticate deps r) [
  | rejected status error ↦ refused_with status error
  | known s ↦
      if role_has_permission s.user.role permission then passes else refused_with 403 "Forbidden"
]

-- `environmentTag`, where the outer `none` is undefined: without an instance, and where the lookup finds nothing or fails.
unfoldable pub resolve_environment : GuardDeps → Option String → Option (Option String)
resolve_environment deps none = none
resolve_environment deps (some i) =
    elim (if str_eq i "" then missing else deps.environment_of_instance i) [
      | tagged tag ↦ some tag
      | missing ↦ none
      | failed ↦ none
    ]

-- The decision on a user whose base role does not suffice.
unfoldable pub by_grant : GuardDeps → Permission → Principal → Option (Option String) → Verdict
by_grant deps permission user none = refused_with 403 "Forbidden"
by_grant deps permission user (some tag) =
    if can_in_environment user deps.grants permission tag
    then passes
    else refused_with 403 "Forbidden"

unfoldable pub require_instance_permission : GuardDeps → Permission → Request → Verdict
require_instance_permission deps permission r = elim (authenticate deps r) [
  | rejected status error ↦ refused_with status error
  | known s ↦
      if role_has_permission s.user.role permission
      then passes
      else by_grant deps permission s.user (resolve_environment deps r.instance_id)
]
