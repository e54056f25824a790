-- ===== src/Auth.antt =====
-- src/modules/auth: `validate` of strategies/jwt.strategy.ts, which passport calls on a token that it
-- has verified, and auth.service.ts.
pub mod Validation
use Prim.Native.Char.{code}
use Prim.Native.String
use ecotrack_api.Common.{
  Bool, Option, String, [], codes, false, get_or, if◌then◌else◌, is_none, ltb, none, not, some,
  str_eq, true, ℕ, ◌+◌, ◌/◌, ◌<>◌, ◌==◌, ◌∷◌,
}
use ecotrack_api.Db.{
  Db, IncidentSeverity, NotificationPreferences, OrganisationRow, Request, UserRole, UserRow,
  or_throw, pure, query, throw_if, unauthorized, ◌>>=◌, ◌>>◌,
}
use ecotrack_api.Incidents.Pool.{organisation_by_id}
use ecotrack_api.Users.{Claims, ProfilePatch, find_or_provision, find_user, update_profile}
use ecotrack_api.Workflow.Slug.{Text, trim}

-- AsgardeoJwtPayload. `iat` is there on the wire as a rule, and the source allows that it is not.
pub record JwtPayload : Type 0 where
  pub sub : String
  pub email : Option String
  pub name : Option String
  pub given_name : Option String
  pub family_name : Option String
  pub iat : Option ℕ
  pub exp : ℕ

-- MAX_ACCESS_TOKEN_LIFETIME_SECONDS and LIFETIME_SKEW_SECONDS
abbrev pub max_lifetime : ℕ
max_lifetime = 3600

abbrev pub lifetime_skew : ℕ
lifetime_skew = 60

-- `Boolean(text)`, for a text that can be absent.
abbrev pub non_empty : Option String → Option String
non_empty none = none
non_empty (some s) = if str_eq s "" then none else some s

-- `[given, family].filter(Boolean).join(' ')`
abbrev pub join_names : Option String → Option String → String
join_names none none = ""
join_names none (some t) = t
join_names (some s) none = s
join_names (some s) (some t) = s <> " " <> t

abbrev pub is_blank : Text → Bool
is_blank [] = true
is_blank (c ∷ s) = false

-- `!!candidate?.trim()`
unfoldable pub has_text : Option String → Bool
has_text none = false
has_text (some s) = not (is_blank (trim (codes s)))

-- `email.split('@')[0]`
unfoldable pub local_part : String → String
local_part String.[] = ""
local_part (String.◌∷◌ c s) =
    let rest = local_part s in if code c == b'@' then "" else String.◌∷◌ c rest

-- The first name that is not blank, or the local part of the address.
unfoldable pub display_name : JwtPayload → String → String
unfolding has_text local_part
display_name p email =
    let assembled = join_names (non_empty p.given_name) (non_empty p.family_name) in
    if has_text p.name
    then get_or p.name ""
    else if has_text (some assembled)
    then assembled
    else local_part email

abbrev pub claims_of : JwtPayload → String → Claims
claims_of p email = record { auth_subject = p.sub; email = email; full_name = display_name p email }

-- `payload.exp - issuedAt > MAX_ACCESS_TOKEN_LIFETIME_SECONDS + LIFETIME_SKEW_SECONDS`
abbrev pub outlives : ℕ → JwtPayload → Bool
outlives now p = ltb (get_or p.iat (now / 1000) + (max_lifetime + lifetime_skew)) p.exp

-- The result is the account's row: AuthenticatedUser is a selection of its columns.
unfoldable pub validate : JwtPayload → Request UserRow
validate p = do
  now ← query λ db. db.clock
  throw_if (outlives now p) (unauthorized "Access token lifetime exceeds the 1-hour maximum")
  email ← or_throw (non_empty p.email) (unauthorized "Access token has no `email` claim.")
  user ← find_or_provision (claims_of p email)
  throw_if (not user.is_active) (unauthorized "Account is deactivated")
  pure user

-- The result of `getProfile`; the organisation is its id, its name and whether it is active.
pub record Profile : Type 0 where
  pub id : ℕ
  pub full_name : String
  pub email : String
  pub role : UserRole
  pub is_platform_admin : Bool
  pub notification_preferences : NotificationPreferences
  pub notification_radius_meters : ℕ
  pub notification_min_urgency : IncidentSeverity
  pub alert_center_set : Bool
  pub organisation : Option (ℕ × String × Bool)

abbrev pub organisation_summary : Option OrganisationRow → Option (ℕ × String × Bool)
organisation_summary none = none
organisation_summary (some o) = some (o.id, o.name, o.is_active)

abbrev pub own_organisation : Option ℕ → Db → Option OrganisationRow
own_organisation none db = none
own_organisation (some id) db = organisation_by_id id db

unfoldable pub get_profile : ℕ → Request Profile
get_profile user_id = do
  found ← find_user user_id
  user ← or_throw found (unauthorized "Unauthorized")
  organisation ← query (own_organisation user.organisation_id)
  pure (record {
    id = user.id;
    full_name = user.full_name;
    email = user.email;
    role = user.role;
    is_platform_admin = user.is_platform_admin;
    notification_preferences = user.notification_preferences;
    notification_radius_meters = user.notification_radius_meters;
    notification_min_urgency = user.notification_min_urgency;
    alert_center_set = not (is_none user.alert_center);
    organisation = organisation_summary organisation;
  })

unfoldable pub update_own_profile : ℕ → ProfilePatch → Request Profile
update_own_profile user_id d = do updated ← update_profile user_id d; get_profile user_id

abbrev pub push_token_patch : String → ProfilePatch
push_token_patch token = record {
  full_name = none;
  push_token = some (some token);
  notification_preferences = none;
  notification_radius_meters = none;
  notification_min_urgency = none;
  alert_center = none;
}

-- `{ success: true }`
unfoldable pub register_push_token : ℕ → String → Request Bool
register_push_token user_id token = do
  updated ← update_profile user_id (push_token_patch token)
  pure true
