-- ===== src/Organisations/JoinRequests.antt =====
-- JoinRequestsService, src/modules/organisations/join-requests.service.ts. The partial UNIQUE index on
-- (organisation, user) of the requests that are not rejected
-- (database/drizzle/migrations/0014_join_requests_rls.sql) answers with an internal error.
use ecotrack_api.Common.{
  Bool, List, Option, String, [], any, false, find, is_none, map, none, not, select, some,
  sort_desc_by, true, update_where, ℕ, ◌&&◌, ◌++◌, ◌<>◌, ◌==◌, ◌∷◌,
}
use ecotrack_api.Db.{
  GeographyPoint, HttpException, JoinRequestRow, JoinRequestStatus, NotificationType,
  OrganisationRow, Request, UserRole, UserRow, bad_request, conflict, execute, for_each, fresh_id,
  not_found, or_throw, pure, query, throw_if, when, ◌>>=◌, ◌>>◌,
}
use ecotrack_api.Incidents.Pool.{organisation_by_id}
use ecotrack_api.Members.{PublicMember, list_members}
use ecotrack_api.Organisations.{assert_no_membership, assert_within, membership}
use ecotrack_api.Platform.Audit.{AuditEntry, Paginated, paginate, record_audit}
use ecotrack_api.Platform.Notifications.{Notice, notify}
use ecotrack_api.Users.{duplicate_key, find_user, set_home_location, set_membership}

abbrev pub is_request_of : ℕ → ℕ → JoinRequestRow → Bool
is_request_of organisation_id user_id j =
    j.organisation_id == organisation_id && j.user_id == user_id

abbrev pub is_rejected : JoinRequestStatus → Bool
is_rejected JoinRequestStatus.rejected = true
is_rejected _ = false

abbrev pub is_open : JoinRequestStatus → Bool
is_open JoinRequestStatus.pending = true
is_open _ = false

-- The rows of the index.
abbrev pub is_standing : ℕ → ℕ → JoinRequestRow → Bool
is_standing organisation_id user_id j =
    is_request_of organisation_id user_id j && not (is_rejected j.status)

abbrev pub is_request : ℕ → JoinRequestRow → Bool
is_request id j = j.id == id

abbrev pub is_scoped_request : ℕ → ℕ → JoinRequestRow → Bool
is_scoped_request organisation_id id j = j.id == id && j.organisation_id == organisation_id

-- `existing && existing.status !== 'rejected'`
abbrev pub stands : Option JoinRequestRow → Bool
stands none = false
stands (some j) = not (is_rejected j.status)

abbrev pub new_request : ℕ → ℕ → ℕ → ℕ → Option String → JoinRequestRow
new_request now id organisation_id user_id message = record {
  id = id;
  organisation_id = organisation_id;
  user_id = user_id;
  message = message;
  status = JoinRequestStatus.pending;
  created_at = now;
  updated_at = now;
}

abbrev pub request_entry : ℕ → ℕ → String → ℕ → AuditEntry
request_entry organisation_id acting_user_id action entity_id = record {
  organisation_id = some organisation_id;
  acting_user_id = some acting_user_id;
  action = action;
  entity_type = "join_request";
  entity_id = some entity_id;
  metadata = none;
}

abbrev pub request_notice : ℕ → ℕ → ℕ → NotificationType → String → String → Notice
request_notice organisation_id user_id request_id type title message = record {
  user_id = user_id;
  organisation_id = some organisation_id;
  type = type;
  title = title;
  message = message;
  related_entity_type = some "join_request";
  related_entity_id = some request_id;
}

abbrev pub name_or : Option UserRow → String → String
name_or none text = text
name_or (some u) text = u.full_name

abbrev pub organisation_name_or : Option OrganisationRow → String → String
organisation_name_or none text = text
organisation_name_or (some o) text = o.name

-- The pre-check on an existing request, and the INSERT.
unfoldable pub insert_request : ℕ → ℕ → Option String → Request JoinRequestRow
insert_request organisation_id user_id message = do
  existing ← query λ db. find (is_request_of organisation_id user_id) db.join_requests
  throw_if (stands existing)
      (conflict "You already have a pending or approved request to this organisation.")
  clash ← query λ db. any (is_standing organisation_id user_id) db.join_requests
  throw_if clash duplicate_key
  now ← query λ db. db.clock
  id ← fresh_id
  let created = new_request now id organisation_id user_id message
  execute λ db. record db { join_requests = db.join_requests ++ created ∷ [] }
  pure created

-- What `submit` does once the request is there.
unfoldable pub announce_request :
    OrganisationRow → Option UserRow → ℕ → JoinRequestRow → GeographyPoint → Request (Unit {0})
announce_request org user user_id created location = do
  admins ← list_members org.id (some UserRole.org_admin)
  for_each admins λ (a : PublicMember). notify (
      request_notice org.id a.id created.id NotificationType.join_request_submitted
        "New volunteer join request"
        (name_or user "A citizen" <> " wants to join " <> org.name <> "."))
  record_audit (request_entry org.id user_id "join_request.submitted" created.id)
  set_home_location user_id location

module _ (st_dwithin : GeographyPoint → GeographyPoint → ℕ → Bool) where
  -- The guards of `submit` that do not concern earlier requests.
  unfoldable pub assert_eligible :
      ℕ → ℕ → GeographyPoint → Request (OrganisationRow × Option UserRow)
  assert_eligible user_id organisation_id location = do
    found ← query (organisation_by_id organisation_id)
    org ← or_throw found (not_found "Organisation not found")
    assert_within st_dwithin org location
    user ← find_user user_id
    assert_no_membership user
    pure (org, user)

  unfoldable pub submit : ℕ → ℕ → GeographyPoint → Option String → Request JoinRequestRow
  submit user_id organisation_id location message = do
    (org, user) ← assert_eligible user_id organisation_id location
    created ← insert_request organisation_id user_id message
    announce_request org user user_id created location
    pure created

abbrev pub same_request_status : JoinRequestStatus → JoinRequestStatus → Bool
same_request_status JoinRequestStatus.pending JoinRequestStatus.pending = true
same_request_status JoinRequestStatus.approved JoinRequestStatus.approved = true
same_request_status JoinRequestStatus.rejected JoinRequestStatus.rejected = true
same_request_status _ _ = false

abbrev pub is_listed : ℕ → Option JoinRequestStatus → JoinRequestRow → Bool
is_listed organisation_id none j = j.organisation_id == organisation_id
is_listed organisation_id (some status) j =
    j.organisation_id == organisation_id && same_request_status j.status status

-- JoinRequestWithRequester: the id, the name and the email of the requester.
abbrev pub requester : List UserRow → JoinRequestRow → Option (ℕ × String × String)
requester users j = elim (find (λ (u : UserRow). u.id == j.user_id) users) [
  | none ↦ none
  | some u ↦ some (u.id, u.full_name, u.email)
]

abbrev pub with_requester :
    List UserRow → JoinRequestRow → JoinRequestRow × Option (ℕ × String × String)
with_requester users j = (j, requester users j)

unfoldable pub list_requests :
    ℕ
    → ℕ
    → ℕ
    → Option JoinRequestStatus
    → Request (Paginated (JoinRequestRow × Option (ℕ × String × String)))
unfolding paginate
list_requests organisation_id page limit status = query λ db.
    paginate
      (map (with_requester db.users) (
        sort_desc_by (λ (j : JoinRequestRow). j.created_at)
          (select (is_listed organisation_id status) db.join_requests)))
      page limit

abbrev pub decision : Bool → JoinRequestStatus
decision true = JoinRequestStatus.approved
decision false = JoinRequestStatus.rejected

abbrev pub resolved_row : ℕ → Bool → JoinRequestRow → JoinRequestRow
resolved_row now approve j = record j { status = decision approve; updated_at = now }

abbrev pub request_resolved : HttpException
request_resolved = bad_request "This join request has already been resolved."

abbrev pub resolution_notice : ℕ → JoinRequestRow → Option OrganisationRow → Bool → Notice
resolution_notice organisation_id j org true =
    request_notice organisation_id j.user_id j.id NotificationType.join_request_approved
      "Join request approved"
      ("You are now a volunteer with " <> organisation_name_or org "the organisation" <> ".")
resolution_notice organisation_id j org false =
    request_notice organisation_id j.user_id j.id NotificationType.join_request_rejected
      "Join request update"
      ("Your join request to "
        <> organisation_name_or org "the organisation"
        <> " was not approved at this time.")

abbrev pub resolution_action : Bool → String
resolution_action true = "join_request.approved"
resolution_action false = "join_request.rejected"

-- The re-check of an approval: the requester may have joined elsewhere meanwhile.
unfoldable pub assert_free : ℕ → Request (Unit {0})
assert_free user_id = do
  user ← find_user user_id
  throw_if (not (is_none (membership user)))
      (conflict "This user already belongs to another organisation")

-- `approve` is `status === 'approved'`.
unfoldable pub update_request : ℕ → ℕ → Bool → ℕ → Request JoinRequestRow
update_request organisation_id request_id approve acting_user_id = do
  found ← query λ db. find (is_scoped_request organisation_id request_id) db.join_requests
  request ← or_throw found (not_found "Join request not found")
  throw_if (not (is_open request.status)) request_resolved
  org ← query (organisation_by_id organisation_id)
  when approve (assert_free request.user_id)
  now ← query λ db. db.clock
  execute λ db. record db {
    join_requests =
        update_where (is_request request_id) (resolved_row now approve) db.join_requests;
  }
  notify (resolution_notice organisation_id request org approve)
  record_audit (request_entry organisation_id acting_user_id (resolution_action approve) request_id)
  when approve (set_membership request.user_id (some organisation_id) UserRole.volunteer none)
  pure (resolved_row now approve request)
