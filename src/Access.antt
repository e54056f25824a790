-- ===== src/Access.antt =====
-- The global guards of src/common/guards, in the order in which src/app.module.ts registers them:
-- JwtAuthGuard, TenantGuard, RolesGuard. What passport makes of a token is an argument.
pub mod Admission
use ecotrack_api.Common.{
  Bool, List, Option, [], any, false, if◌then◌else◌, is_value, none, some, true, ℕ, ◌&&◌, ◌∷◌,
}
use ecotrack_api.Db.{
  AppRole, HttpException, Result, UserRow, err, forbidden, ok, same_app_role, unauthorized,
}

-- What passport reports of a token that it refuses.
pub data AuthInfo : Type 0 where
  token_expired no_auth_token other_fault : AuthInfo

-- The result of passport's strategy: an error, the user, and the failure's reason.
pub record Attempt : Type 0 where
  pub error : Option HttpException
  pub user : Option UserRow
  pub info : Option AuthInfo

-- What the decorators say of a route, and its `:organisationId`.
pub record Route : Type 0 where
  pub is_public : Bool
  pub required_roles : List AppRole
  pub organisation_id : Option ℕ

abbrev pub token_failure : Option AuthInfo → HttpException
token_failure (some AuthInfo.token_expired) = unauthorized "Access token has expired"
token_failure (some AuthInfo.other_fault) = unauthorized "Access token is invalid"
token_failure _ = unauthorized "Authorization header is missing"

abbrev pub handle_request : Option HttpException → Option UserRow → Option AuthInfo → Result UserRow
handle_request (some e) user info = err e
handle_request none (some user) info = ok user
handle_request none none info = err (token_failure info)

-- JwtAuthGuard: the user that the request carries from there on. A public route carries none.
unfoldable pub jwt_guard : Route → Attempt → Result (Option UserRow)
jwt_guard route attempt =
    if route.is_public
    then ok none
    else elim (handle_request attempt.error attempt.user attempt.info) [
      | ok user ↦ ok (some user)
      | err e ↦ err e
    ]

abbrev pub not_a_member : HttpException
not_a_member = forbidden "You are not a member of this organisation"

-- TenantGuard
unfoldable pub tenant_guard : Option ℕ → Option UserRow → Result Bool
tenant_guard none user = ok true
tenant_guard (some organisation_id) none = err not_a_member
tenant_guard (some organisation_id) (some user) =
    if user.is_platform_admin
    then ok true
    else if is_value user.organisation_id organisation_id
    then ok true
    else err not_a_member

-- RolesGuard; `getAllAndOverride` without a decorator is the empty list.
unfoldable pub roles_guard : List AppRole → Option UserRow → Bool
roles_guard [] user = true
roles_guard (r ∷ rs) none = false
roles_guard (r ∷ rs) (some user) =
    if user.is_platform_admin && any (same_app_role AppRole.platform_admin) (r ∷ rs)
    then true
    else any (same_app_role (AppRole.user_role user.role)) (r ∷ rs)

-- A guard that answers false makes Nest refuse the request.
abbrev pub refused : HttpException
refused = forbidden "Forbidden resource"

abbrev pub pass : Bool → Option UserRow → Result (Option UserRow)
pass true user = ok user
pass false user = err refused

-- A request past all guards, with the user it carries.
unfoldable pub admit : Route → Attempt → Result (Option UserRow)
admit route attempt = elim (jwt_guard route attempt) [
  | err e ↦ err e
  | ok user ↦ elim (tenant_guard route.organisation_id user) [
    | err e ↦ err e
    | ok _ ↦ pass (roles_guard route.required_roles user) user
  ]
]
