-- ===== src/Organisations/InviteLinks.antt =====
-- InviteLinksService, src/modules/organisations/invite-links.service.ts. The random bytes of a token
-- are an argument and SHA-256 is the parameter `hash_token`; days are of 24 hours.
use ecotrack_api.Common.{
  Bool, List, Option, String, [], any, false, find, get_or, is_none, leb, ltb, none, not, select,
  some, sort_desc_by, str_eq, update_where, ℕ, ◌&&◌, ◌*◌, ◌++◌, ◌+◌, ◌==◌, ◌∷◌,
}
use ecotrack_api.Db.{
  Db, GeographyPoint, HttpException, InviteLinkRow, MetaValue, OrganisationRow, Request, UserRole,
  bad_request, execute, fresh_id, not_found, or_throw, pure, query, throw_if, ◌>>=◌, ◌>>◌,
}
use ecotrack_api.Incidents.Pool.{organisation_by_id}
use ecotrack_api.Organisations.{assert_no_membership, assert_within}
use ecotrack_api.Platform.Audit.{AuditEntry, record_audit}
use ecotrack_api.Tasks.{day}
use ecotrack_api.Users.{duplicate_key, find_user, set_membership}

-- DEFAULT_EXPIRES_IN_DAYS
abbrev pub default_expires_in_days : ℕ
default_expires_in_days = 7

abbrev pub has_hash : String → InviteLinkRow → Bool
has_hash hash l = str_eq l.token_hash hash

abbrev pub is_link : ℕ → InviteLinkRow → Bool
is_link id l = l.id == id

abbrev pub is_scoped_link : ℕ → ℕ → InviteLinkRow → Bool
is_scoped_link organisation_id id l = l.id == id && l.organisation_id == organisation_id

abbrev pub link_entry : ℕ → ℕ → String → ℕ → Option (List (String × MetaValue)) → AuditEntry
link_entry organisation_id acting_user_id action entity_id metadata = record {
  organisation_id = some organisation_id;
  acting_user_id = some acting_user_id;
  action = action;
  entity_type = "invite_link";
  entity_id = some entity_id;
  metadata = metadata;
}

abbrev pub link_not_found : HttpException
link_not_found = not_found "Invite link not found"

abbrev pub link_revoked : HttpException
link_revoked = bad_request "This invite link has been revoked."

abbrev pub link_expired : HttpException
link_expired = bad_request "This invite link has expired."

abbrev pub link_exhausted : HttpException
link_exhausted = bad_request "This invite link has reached its usage limit."

abbrev pub new_link : ℕ → ℕ → ℕ → String → Option ℕ → Option ℕ → ℕ → InviteLinkRow
new_link now id organisation_id hash max_uses expires_in_days acting_user_id = record {
  id = id;
  organisation_id = organisation_id;
  token_hash = hash;
  max_uses = max_uses;
  uses_count = 0;
  expires_at = now + get_or expires_in_days default_expires_in_days * day;
  created_by_user_id = some acting_user_id;
  revoked_at = none;
  created_at = now;
  updated_at = now;
}

abbrev pub number_or_null : Option ℕ → MetaValue
number_or_null none = MetaValue.null
number_or_null (some n) = MetaValue.number n

unfoldable pub list_links : ℕ → Request (List InviteLinkRow)
list_links organisation_id = query λ db.
    sort_desc_by (λ (l : InviteLinkRow). l.created_at)
      (select (λ (l : InviteLinkRow). l.organisation_id == organisation_id) db.invite_links)

abbrev pub revoke_row : ℕ → InviteLinkRow → InviteLinkRow
revoke_row now l = record l { revoked_at = some now; updated_at = now }

unfoldable pub revoke : ℕ → ℕ → ℕ → Request InviteLinkRow
revoke organisation_id invite_link_id acting_user_id = do
  found ← query λ db. find (is_scoped_link organisation_id invite_link_id) db.invite_links
  existing ← or_throw found link_not_found
  now ← query λ db. db.clock
  execute λ db. record db {
    invite_links = update_where (is_link invite_link_id) (revoke_row now) db.invite_links;
  }
  record_audit (link_entry organisation_id acting_user_id "invite_link.revoked" invite_link_id none)
  pure (revoke_row now existing)

-- `maxUses !== null ? usesCount >= maxUses : false`
abbrev pub is_exhausted : Option ℕ → ℕ → Bool
is_exhausted none uses = false
is_exhausted (some limit) uses = leb limit uses

pub record LinkInfo : Type 0 where
  pub organisation_name : String
  pub expired : Bool
  pub revoked : Bool
  pub exhausted : Bool

-- The WHERE of the conditional UPDATE; `limit` is the limit of the row that was read.
abbrev pub is_usable : ℕ → Option ℕ → InviteLinkRow → Bool
is_usable id none l = is_link id l
is_usable id (some limit) l = is_link id l && ltb l.uses_count limit

abbrev pub use_row : ℕ → InviteLinkRow → InviteLinkRow
use_row now l = record l { uses_count = l.uses_count + 1; updated_at = now }

unfoldable pub claim_use : InviteLinkRow → Request (Unit {0})
claim_use link = do
  won ← query λ db. find (is_usable link.id link.max_uses) db.invite_links
  execute λ db. record db {
    invite_links =
        update_where (is_usable link.id link.max_uses) (use_row db.clock) db.invite_links;
  }
  claimed ← or_throw won link_exhausted
  pure tt

-- What `accept` does from the conditional UPDATE on, for the link that was read.
unfoldable pub redeem : InviteLinkRow → ℕ → GeographyPoint → Request (ℕ × UserRole)
redeem link user_id location = do
  claim_use link
  record_audit (link_entry link.organisation_id user_id "invite_link.redeemed" link.id none)
  set_membership user_id (some link.organisation_id) UserRole.volunteer (some location)
  pure (link.organisation_id, UserRole.volunteer)

module _ (hash_token : String → String) where
  unfoldable pub generate : ℕ → String → Option ℕ → Option ℕ → ℕ → Request (InviteLinkRow × String)
  generate organisation_id token max_uses expires_in_days acting_user_id = do
    now ← query λ db. db.clock
    id ← fresh_id
    clash ← query λ db. any (has_hash (hash_token token)) db.invite_links
    throw_if clash duplicate_key
    let link =
        new_link now id organisation_id (hash_token token) max_uses expires_in_days acting_user_id
    execute λ db. record db { invite_links = db.invite_links ++ link ∷ [] }
    record_audit (
        link_entry organisation_id acting_user_id "invite_link.created" id (
          some (
            ("maxUses", number_or_null max_uses)
            ∷ ("expiresAt", MetaValue.number link.expires_at)
            ∷ [])))
    pure (link, token)

  -- `findByTokenWithOrg`: the inner join of the link with its organisation.
  unfoldable pub find_by_token : String → Db → Option (InviteLinkRow × OrganisationRow)
  find_by_token token db = elim (find (has_hash (hash_token token)) db.invite_links) [
    | none ↦ none
    | some link ↦ elim (organisation_by_id link.organisation_id db) [
      | none ↦ none
      | some org ↦ some (link, org)
    ]
  ]

  unfoldable pub get_public_info : String → Request LinkInfo
  get_public_info token = do
    found ← query (find_by_token token)
    (link, org) ← or_throw found link_not_found
    now ← query λ db. db.clock
    pure (record {
      organisation_name = org.name;
      expired = ltb link.expires_at now;
      revoked = not (is_none link.revoked_at);
      exhausted = is_exhausted link.max_uses link.uses_count;
    })

  module _ (st_dwithin : GeographyPoint → GeographyPoint → ℕ → Bool) where
    -- Everything in `accept` before the conditional UPDATE; the result is the link that was read.
    unfoldable pub accept_check : String → ℕ → GeographyPoint → Request InviteLinkRow
    accept_check token user_id location = do
      found ← query (find_by_token token)
      (link, org) ← or_throw found link_not_found
      now ← query λ db. db.clock
      throw_if (not (is_none link.revoked_at)) link_revoked
      throw_if (ltb link.expires_at now) link_expired
      throw_if (is_exhausted link.max_uses link.uses_count) link_exhausted
      assert_within st_dwithin org location
      user ← find_user user_id
      assert_no_membership user
      pure link

    unfoldable pub accept : String → ℕ → GeographyPoint → Request (ℕ × UserRole)
    accept token user_id location = do
      link ← accept_check token user_id location
      redeem link user_id location
