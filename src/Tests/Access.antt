-- ===== src/Tests/Access.antt =====
-- The guards on a route of organisation 1.
use ecotrack_api.Access.{Attempt, Route, admit, jwt_guard, refused, roles_guard, tenant_guard}
use ecotrack_api.Access.Admission.{admit-member, suffices}
use ecotrack_api.Common.{[], any, false, none, refl, some, true, ℕ, ◌∷◌, ◌≡◌, ◌⊎◌}
use ecotrack_api.Db.{AppRole, UserRole, UserRow, err}
use ecotrack_api.Tests.Fixtures.{user}

abbrev members_route : Route
members_route = record {
  is_public = false;
  required_roles = AppRole.user_role UserRole.org_admin ∷ AppRole.platform_admin ∷ [];
  organisation_id = some 1;
}

abbrev valid_token : ℕ → UserRole → Attempt
valid_token id role = record { error = none; user = some (user id role); info = none }

admit-member_example :
    (x : UserRow) × (some (user 2 UserRole.org_admin) ≡ some x)
    × ((x.is_platform_admin ≡ true) ⊎ (x.organisation_id ≡ some 1))
    × (suffices members_route.required_roles (some x) ≡ true)
unfolding admit jwt_guard tenant_guard roles_guard any
admit-member_example =
    admit-member members_route (valid_token 2 UserRole.org_admin) (some (user 2 UserRole.org_admin))
      1 refl refl

volunteer_refused : admit members_route (valid_token 5 UserRole.volunteer) ≡ err refused
unfolding admit jwt_guard tenant_guard roles_guard any
volunteer_refused = refl
