-- ===== src/Access/Admission.antt =====
-- Whom the guards of src/common/guards let through.
use ecotrack_api.Access.{Attempt, Route, admit, jwt_guard, roles_guard, tenant_guard}
use ecotrack_api.Common.{
  ==_iff, Bool, Bool-cases, List, Option, [], any, ap, arith, false, if◌then◌else◌, inl, inr,
  is_value, none, refl, some, sym, true, ℕ, ◌&&◌, ◌∙◌, ◌∷◌, ◌≡◌, ◌⊎◌,
}
use ecotrack_api.Db.{AppRole, HttpException, Result, UserRow, err, ok, same_app_role, same_role}

-- The user has the role, or the platform-wide flag.
abbrev pub holds : UserRow → AppRole → Bool
holds user (AppRole.user_role r) = same_role user.role r
holds user AppRole.platform_admin = user.is_platform_admin

roles_any :
    (user : UserRow) (roles : List AppRole)
    → (if user.is_platform_admin && any (same_app_role AppRole.platform_admin) roles
        then true
        else any (same_app_role (AppRole.user_role user.role)) roles)
      ≡ any (holds user) roles
unfolding any
roles_any user [] = ground arith
roles_any user (AppRole.user_role r ∷ roles) = ground (arith, roles_any user roles)
roles_any user (AppRole.platform_admin ∷ roles) = ground (arith, roles_any user roles)

-- No role is required, or the user holds one of those that are.
abbrev pub suffices : List AppRole → Option UserRow → Bool
suffices [] user = true
suffices (r ∷ rs) none = false
suffices (r ∷ rs) (some user) = any (holds user) (r ∷ rs)

roles_guard_lem :
    (roles : List AppRole) (user : Option UserRow) → roles_guard roles user ≡ suffices roles user
unfolding roles_guard
roles_guard_lem [] user = refl
roles_guard_lem (r ∷ rs) none = refl
roles_guard_lem (r ∷ rs) (some user) = roles_any user (r ∷ rs)

value_of : (o : Option ℕ) (n : ℕ) → is_value o n ≡ true → o ≡ some n
value_of none n h = cc
value_of (some m) n h = ap some ((==_iff m n).0 h)

Result-cases :
    {A : Type 0} (r : Result A) → ((a : A) × (r ≡ ok a)) ⊎ ((e : HttpException) × (r ≡ err e))
Result-cases (ok a) = inl (a, refl)
Result-cases (err e) = inr (e, refl)

tenant_passed :
    (organisation_id : ℕ) (user : Option UserRow) (b : Bool)
    → tenant_guard (some organisation_id) user ≡ ok b
    → (x : UserRow) × (user ≡ some x)
      × ((x.is_platform_admin ≡ true) ⊎ (x.organisation_id ≡ some organisation_id))
unfolding tenant_guard
tenant_passed organisation_id none b h = cc
tenant_passed organisation_id (some x) b h = elim (Bool-cases x.is_platform_admin) [
  | inl admin ↦ (x, refl, inl admin)
  | inr plain ↦ elim (Bool-cases (is_value x.organisation_id organisation_id)) [
    | inl own ↦ (x, refl, inr (value_of x.organisation_id organisation_id own))
    | inr other ↦ absurd (ground arith)
  ]
]

-- A request to a route of an organisation that passes all guards carries a user who is a platform
-- admin or a member of that organisation, and who holds a required role where any is required.
pub admit-member :
    (route : Route) (attempt : Attempt) (user : Option UserRow) (organisation_id : ℕ)
    → route.organisation_id ≡ some organisation_id
    → admit route attempt ≡ ok user
    → (x : UserRow) × (user ≡ some x)
      × ((x.is_platform_admin ≡ true) ⊎ (x.organisation_id ≡ some organisation_id))
      × (suffices route.required_roles (some x) ≡ true)
unfolding admit
admit-member route attempt user organisation_id at h =
    elim (Result-cases (jwt_guard route attempt)) [
      | inr (e, failed) ↦ absurd (ground arith)
      | inl (u, passed) ↦ elim (Result-cases (tenant_guard route.organisation_id u)) [
        | inr (e, failed) ↦ absurd (ground arith)
        | inl (b, tenant) ↦
            let t : tenant_guard (some organisation_id) u ≡ ok b = rw⁻¹ at tenant in
            let (x, same, member) = tenant_passed organisation_id u b t in
            elim (Bool-cases (roles_guard route.required_roles u)) [
              | inl roles ↦
                  let r = sym (roles_guard_lem route.required_roles u) ∙ roles in
                  (x, ground arith, member, rw⁻¹ same r)
              | inr none' ↦ absurd (ground arith)
            ]
      ]
    ]
