-- ===== src/Organisations/Invitations.antt =====
-- InvitationsService, src/modules/organisations/invitations.service.ts. The random bytes of a token
-- are an argument.
use ecotrack_api.Common.{
  Bool, List, Option, String, [], any, codes, false, find, get_or, if◌then◌else◌, is_none, ltb, map,
  none, not, select, some, sort_desc_by, str_eq, update_where, ℕ, ◌&&◌, ◌*◌, ◌++◌, ◌+◌, ◌==◌, ◌||◌,
  ◌∷◌,
}
use ecotrack_api.Db.{
  Db, HttpException, InvitationRow, OrganisationRow, Request, UserRole, UserRow, bad_request,
  execute, fresh_id, not_found, or_throw, pure, query, same_role, throw_if, ◌>>=◌, ◌>>◌,
}
use ecotrack_api.Incidents.Pool.{organisation_by_id}
use ecotrack_api.Users.{duplicate_key, find_by_email, find_user, set_membership}
use ecotrack_api.Workflow.Slug.{same_text, to_lower}

abbrev pub hour : ℕ
hour = 3600000

-- VOLUNTEER_INVITATION_TTL_HOURS and ORG_ADMIN_INVITATION_TTL_HOURS
abbrev pub ttl_hours : UserRole → ℕ
ttl_hours UserRole.org_admin = 72
ttl_hours _ = 168

abbrev pub compute_expiry : ℕ → UserRole → ℕ
compute_expiry now role = now + ttl_hours role * hour

pub record NewInvitation : Type 0 where
  pub organisation_id : ℕ
  pub email : String
  pub full_name : Option String
  pub role : Option UserRole
  pub invited_by_user_id : ℕ

abbrev pub invitation_row : ℕ → ℕ → NewInvitation → String → InvitationRow
invitation_row now id d token = record {
  id = id;
  organisation_id = d.organisation_id;
  email = d.email;
  invited_full_name = d.full_name;
  role = get_or d.role UserRole.volunteer;
  token = token;
  invited_by_user_id = some d.invited_by_user_id;
  expires_at = compute_expiry now (get_or d.role UserRole.volunteer);
  accepted_at = none;
  created_at = now;
  updated_at = now;
}

abbrev pub has_token : String → InvitationRow → Bool
has_token token i = str_eq i.token token

abbrev pub is_invitation : ℕ → InvitationRow → Bool
is_invitation id i = i.id == id

unfoldable pub create_invitation : NewInvitation → String → Request InvitationRow
create_invitation d token = do
  now ← query λ db. db.clock
  id ← fresh_id
  clash ← query λ db. any (has_token token) db.invitations
  throw_if clash duplicate_key
  let invitation = invitation_row now id d token
  execute λ db. record db { invitations = db.invitations ++ invitation ∷ [] }
  pure invitation

-- `findByTokenWithOrg`: the inner join of the invitation with its organisation.
unfoldable pub find_invitation : String → Db → Option (InvitationRow × OrganisationRow)
find_invitation token db = elim (find (has_token token) db.invitations) [
  | none ↦ none
  | some i ↦ elim (organisation_by_id i.organisation_id db) [ none ↦ none | some o ↦ some (i, o) ]
]

abbrev pub is_listed_invitation : ℕ → Option UserRole → InvitationRow → Bool
is_listed_invitation organisation_id none i = i.organisation_id == organisation_id
is_listed_invitation organisation_id (some role) i =
    i.organisation_id == organisation_id && same_role i.role role

unfoldable pub list_invitations : ℕ → Option UserRole → Request (List InvitationRow)
list_invitations organisation_id role = query λ db.
    sort_desc_by (λ (i : InvitationRow). i.created_at)
      (select (is_listed_invitation organisation_id role) db.invitations)

abbrev pub is_scoped_invitation : ℕ → ℕ → InvitationRow → Bool
is_scoped_invitation organisation_id id i = i.id == id && i.organisation_id == organisation_id

abbrev pub resent_row : ℕ → String → UserRole → InvitationRow → InvitationRow
resent_row now token role i = record i {
  token = token;
  expires_at = compute_expiry now role;
  updated_at = now;
}

unfoldable pub resend : ℕ → ℕ → String → Request InvitationRow
resend organisation_id invitation_id token = do
  found ← query λ db. find (is_scoped_invitation organisation_id invitation_id) db.invitations
  existing ← or_throw found (not_found "Invitation not found")
  throw_if (not (is_none existing.accepted_at))
      (bad_request "This invitation has already been accepted")
  clash ← query λ db.
      any (λ (i : InvitationRow). has_token token i && not (i.id == invitation_id)) db.invitations
  throw_if clash duplicate_key
  now ← query λ db. db.clock
  execute λ db. record db {
    invitations =
        update_where (is_invitation invitation_id) (resent_row now token existing.role)
          db.invitations;
  }
  pure (resent_row now token existing.role existing)

pub record InvitationInfo : Type 0 where
  pub email : String
  pub invited_full_name : Option String
  pub organisation_name : String
  pub role : UserRole
  pub expired : Bool
  pub accepted : Bool
  pub email_already_registered : Bool

unfoldable pub get_invitation_info : String → Request InvitationInfo
get_invitation_info token = do
  found ← query (find_invitation token)
  (i, o) ← or_throw found (not_found "Invitation not found")
  existing ← find_by_email i.email
  now ← query λ db. db.clock
  pure (record {
    email = i.email;
    invited_full_name = i.invited_full_name;
    organisation_name = o.name;
    role = i.role;
    expired = ltb i.expires_at now;
    accepted = not (is_none i.accepted_at);
    email_already_registered = not (is_none existing);
  })

abbrev pub invitation_invalid : HttpException
invitation_invalid = bad_request "Invitation is invalid or has expired"

-- `!invitation || invitation.acceptedAt || invitation.expiresAt < new Date()`: none.
abbrev pub valid_invitation :
    ℕ → Option (InvitationRow × OrganisationRow) → Option (InvitationRow × OrganisationRow)
valid_invitation now none = none
valid_invitation now (some (i, o)) =
    if not (is_none i.accepted_at) || ltb i.expires_at now then none else some (i, o)

-- `toLowerCase()`, of ASCII letters.
abbrev pub lower_case : String → List ℕ
lower_case s = map to_lower (codes s)

abbrev pub same_address : String → String → Bool
same_address s t = same_text (lower_case s) (lower_case t)

abbrev pub is_addressee : Option UserRow → InvitationRow → Bool
is_addressee none i = false
is_addressee (some u) i = same_address u.email i.email

abbrev pub accepted_row : ℕ → InvitationRow → InvitationRow
accepted_row now i = record i { accepted_at = some now; updated_at = now }

unfoldable pub accept_for_user : String → ℕ → Request (ℕ × UserRole)
accept_for_user token user_id = do
  now ← query λ db. db.clock
  found ← query (find_invitation token)
  (i, o) ← or_throw (valid_invitation now found) invitation_invalid
  user ← find_user user_id
  throw_if (not (is_addressee user i))
      (bad_request "This invitation was issued to a different email address")
  throw_if (not o.is_active) (bad_request "Organisation is not active")
  set_membership user_id (some i.organisation_id) i.role none
  execute λ db. record db {
    invitations = update_where (is_invitation i.id) (accepted_row now) db.invitations;
  }
  pure (i.organisation_id, i.role)
