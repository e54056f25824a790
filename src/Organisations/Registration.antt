-- ===== src/Organisations/Registration.antt =====
-- OrganisationsService, src/modules/organisations/organisations.service.ts. `listPublic` is a PostGIS
-- query and `findAll` an order of names by the database's collation: both are left out.
use ecotrack_api.Common.{
  Bool, Option, String, [], false, find, get_or, if◌then◌else◌, is_none, length, none, not, select,
  some, some_or, str_eq, true, update_where, ℕ, ◌&&◌, ◌++◌, ◌==◌, ◌||◌, ◌∷◌,
}
use ecotrack_api.Db.{
  GeographyPoint, HttpException, InvitationRow, OrganisationRow, Request, UserRole, conflict,
  execute, fresh_id, is_active, not_found, or_throw, pure, query, throw_if, ◌>>=◌, ◌>>◌,
}
use ecotrack_api.Incidents.Pool.{organisation_by_id}
use ecotrack_api.Organisations.Invitations.{NewInvitation, create_invitation, same_address}
use ecotrack_api.Organisations.Names.{generate_unique_slug, has_org_slug}
use ecotrack_api.Platform.Audit.{AuditEntry, record_audit}
use ecotrack_api.Users.{find_by_email, set_membership}
use ecotrack_api.Workflow.Rules.{get_rules}
use ecotrack_api.Workflow.Slug.{Text}
use ecotrack_api.Workflow.Stages.{out_of_fuel, seed_default_stages}

abbrev pub organisation_not_found : HttpException
organisation_not_found = not_found "Organisation not found"

abbrev pub is_organisation : ℕ → OrganisationRow → Bool
is_organisation id o = o.id == id

-- `OrganisationsService.findById`
abbrev pub find_organisation : ℕ → Request OrganisationRow
find_organisation id = do
  found ← query (organisation_by_id id)
  or_throw found organisation_not_found

-- `findBySlug`, with the columns that it selects.
pub record PublicOrganisation : Type 0 where
  pub id : ℕ
  pub name : String
  pub slug : Text
  pub description : Option String
  pub contact_email : String
  pub service_area_radius_km : Option ℕ

unfoldable pub find_by_slug : Text → Request PublicOrganisation
find_by_slug slug = do
  found ← query λ db. find (has_org_slug slug) db.organisations
  o ← or_throw found organisation_not_found
  pure (record {
    id = o.id;
    name = o.name;
    slug = o.slug;
    description = o.description;
    contact_email = o.contact_email;
    service_area_radius_km = o.service_area_radius_km;
  })

-- The first argument of `create`.
pub record RegisterOrganisation : Type 0 where
  pub name : String
  pub description : Option String
  pub contact_email : String
  pub initial_admin_email : Option String
  pub center : GeographyPoint
  pub radius_km : ℕ

-- The second.
pub record ActingUser : Type 0 where
  pub id : ℕ
  pub email : String
  pub organisation_id : Option ℕ

-- `nominatesSomeoneElse`: the email that is nominated, where it is not the caller's own.
abbrev pub nominee : Option String → String → Option String
nominee none own = none
nominee (some email) own = if str_eq email "" || same_address email own then none else some email

abbrev pub organisation_row : ℕ → ℕ → RegisterOrganisation → Text → OrganisationRow
organisation_row now id d slug = record {
  id = id;
  name = d.name;
  slug = slug;
  description = d.description;
  contact_email = d.contact_email;
  is_active = true;
  service_area_center = some d.center;
  service_area_radius_km = some d.radius_km;
  updated_at = now;
}

abbrev pub organisation_entry : ℕ → ℕ → String → AuditEntry
organisation_entry organisation_id acting_user_id action = record {
  organisation_id = some organisation_id;
  acting_user_id = some acting_user_id;
  action = action;
  entity_type = "organisation";
  entity_id = some organisation_id;
  metadata = none;
}

-- The INSERT, with the slug that the loop finds.
unfoldable pub insert_organisation : RegisterOrganisation → Request OrganisationRow
insert_organisation d = do
  unused ← query λ db. generate_unique_slug d.name db.organisations
  slug ← or_throw unused out_of_fuel
  now ← query λ db. db.clock
  id ← fresh_id
  let organisation = organisation_row now id d slug
  execute λ db. record db { organisations = db.organisations ++ organisation ∷ [] }
  pure organisation

-- The workflow of a new organisation, its rules and the audit entry.
unfoldable pub set_up : ℕ → ℕ → Request (Unit {0})
set_up organisation_id acting_user_id = do
  stages ← seed_default_stages organisation_id
  rules ← get_rules organisation_id
  record_audit (organisation_entry organisation_id acting_user_id "organisation.created")

abbrev pub admin_invitation : ℕ → String → ℕ → NewInvitation
admin_invitation organisation_id email acting_user_id = record {
  organisation_id = organisation_id;
  email = email;
  full_name = none;
  role = some UserRole.org_admin;
  invited_by_user_id = acting_user_id;
}

-- The first admin: the caller, an account with the nominated email, or an invitation to that email.
-- The result is the invitation and `adminAlreadyExisted`.
unfoldable pub appoint : ℕ → Option String → ℕ → String → Request (Option InvitationRow × Bool)
appoint organisation_id none acting_user_id token = do
  set_membership acting_user_id (some organisation_id) UserRole.org_admin none
  pure (none, true)
appoint organisation_id (some email) acting_user_id token = do
  existing ← find_by_email email
  elim existing [
    | some u ↦ do
      set_membership u.id (some organisation_id) UserRole.org_admin none
      pure (none, true)
    | none ↦ do
      invitation ← create_invitation (admin_invitation organisation_id email acting_user_id) token
      pure (some invitation, false)
  ]

-- What `create` does after its guard. `token` is the random token of the invitation, where one is
-- made.
unfoldable pub register :
    RegisterOrganisation
    → Option String
    → ℕ
    → String
    → Request (OrganisationRow × Option InvitationRow × Bool)
register d other acting_user_id token = do
  organisation ← insert_organisation d
  set_up organisation.id acting_user_id
  (invitation, existed) ← appoint organisation.id other acting_user_id token
  pure (organisation, invitation, existed)

unfoldable pub create_organisation :
    RegisterOrganisation
    → ActingUser
    → String
    → Request (OrganisationRow × Option InvitationRow × Bool)
create_organisation d acting token = do
  let other = nominee d.initial_admin_email acting.email
  throw_if (not (is_none acting.organisation_id) && is_none other)
      (conflict "You already belong to an organisation.")
  register d other acting.id token

-- The argument of `updateProfile`.
pub record OrganisationPatch : Type 0 where
  pub name : Option String
  pub description : Option String
  pub contact_email : Option String
  pub service_area : Option (GeographyPoint × ℕ)

abbrev pub patched_center :
    Option (GeographyPoint × ℕ) → Option GeographyPoint → Option GeographyPoint
patched_center none before = before
patched_center (some (center, radius)) before = some center

abbrev pub patched_radius : Option (GeographyPoint × ℕ) → Option ℕ → Option ℕ
patched_radius none before = before
patched_radius (some (center, radius)) before = some radius

abbrev pub patched_row : ℕ → OrganisationPatch → OrganisationRow → OrganisationRow
patched_row now d o = record o {
  name = get_or d.name o.name;
  description = some_or d.description o.description;
  contact_email = get_or d.contact_email o.contact_email;
  service_area_center = patched_center d.service_area o.service_area_center;
  service_area_radius_km = patched_radius d.service_area o.service_area_radius_km;
  updated_at = now;
}

unfoldable pub update_organisation : ℕ → OrganisationPatch → Request OrganisationRow
update_organisation id d = do
  o ← find_organisation id
  now ← query λ db. db.clock
  execute λ db. record db {
    organisations = update_where (is_organisation id) (patched_row now d) db.organisations;
  }
  pure (patched_row now d o)

abbrev pub active_row : ℕ → Bool → OrganisationRow → OrganisationRow
active_row now is_active o = record o { is_active = is_active; updated_at = now }

abbrev pub activation : Bool → String
activation true = "organisation.activated"
activation false = "organisation.deactivated"

unfoldable pub set_active : ℕ → Bool → ℕ → Request OrganisationRow
set_active id active acting_user_id = do
  o ← find_organisation id
  now ← query λ db. db.clock
  execute λ db. record db {
    organisations = update_where (is_organisation id) (active_row now active) db.organisations;
  }
  record_audit (organisation_entry id acting_user_id (activation active))
  pure (active_row now active o)

-- The number of organisations, and of those that are active.
unfoldable pub get_platform_stats : Request (ℕ × ℕ)
get_platform_stats = query λ db. (
  length db.organisations,
  length (select (λ (o : OrganisationRow). o.is_active) db.organisations),
)
