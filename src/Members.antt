-- ===== src/Members.antt =====
-- OrganisationMembersService, src/modules/organisations/organisation-members.service.ts; its
-- `findMembership` is with the tasks.
pub mod Loops
pub mod Removal
pub mod Attendance
use ecotrack_api.Common.{
  Bool, List, Option, String, is_value, map, none, not, select, some, sort_desc_by, true, ℕ, ◌&&◌,
  ◌==◌,
}
use ecotrack_api.Db.{
  Db, DispatchKind, EventRsvpRow, NotificationType, Request, TaskAssignmentRow, UserRole, UserRow,
  bad_request, for_each, is_active, is_volunteer, not_found, or_throw, query, same_role, throw_if,
  when, ◌>>=◌, ◌>>◌,
}
use ecotrack_api.Events.{event_by_id}
use ecotrack_api.Platform.Audit.{AuditEntry, Paginated, paginate, record_audit}
use ecotrack_api.Platform.Notifications.{Notice, notify}
use ecotrack_api.Platform.Outbox.{cancel}
use ecotrack_api.Tasks.{find_membership}
use ecotrack_api.Users.{set_membership}
use ecotrack_api.Users.Deletion.{delete_rsvp, give_back, has_run, rsvp_of, uncount}

-- PublicMemberRow, the columns that the lists select.
pub record PublicMember : Type 0 where
  pub id : ℕ
  pub email : String
  pub full_name : String
  pub role : UserRole
  pub is_active : Bool
  pub created_at : ℕ

abbrev pub public_member : UserRow → PublicMember
public_member u = record {
  id = u.id;
  email = u.email;
  full_name = u.full_name;
  role = u.role;
  is_active = u.is_active;
  created_at = u.created_at;
}

-- `role ? and(organisationId, role) : organisationId`
abbrev pub is_member : ℕ → Option UserRole → UserRow → Bool
is_member organisation_id none u = is_value u.organisation_id organisation_id
is_member organisation_id (some role) u =
    is_value u.organisation_id organisation_id && same_role u.role role

abbrev pub members : ℕ → Option UserRole → Db → List UserRow
members organisation_id role db = select (is_member organisation_id role) db.users

abbrev pub list_members : ℕ → Option UserRole → Request (List PublicMember)
list_members organisation_id role = query λ db. map public_member (members organisation_id role db)

unfoldable pub list_members_paginated :
    ℕ → ℕ → ℕ → Option UserRole → Request (Paginated PublicMember)
unfolding paginate
list_members_paginated organisation_id page limit role = query λ db.
    paginate
      (map public_member
        (sort_desc_by (λ (u : UserRow). u.created_at) (members organisation_id role db)))
      page limit

abbrev pub is_available : ℕ → UserRow → Bool
is_available organisation_id u =
    is_value u.organisation_id organisation_id && is_volunteer u.role && u.is_active

-- The id, the email and the name.
unfoldable pub list_available_volunteers : ℕ → Request (List (ℕ × String × String))
list_available_volunteers organisation_id = query λ db.
    map (λ (u : UserRow). (u.id, u.email, u.full_name))
      (select (is_available organisation_id) db.users)

-- `activeAssignments` of `removeVolunteer`
abbrev pub is_duty : ℕ → ℕ → TaskAssignmentRow → Bool
is_duty organisation_id user_id a =
    a.organisation_id == organisation_id && a.volunteer_user_id == user_id && is_active a.status

-- The rows are those of the admin's own organisation, which row-level security shows.
abbrev pub relieve : TaskAssignmentRow → Request (Unit {0})
relieve a = do give_back (λ o. true) a; cancel DispatchKind.task_due_reminder a.task_id

unfoldable pub withdraw_open : ℕ → EventRsvpRow → Request (Unit {0})
withdraw_open user_id r = do
  event ← query (event_by_id r.event_id)
  when (not (has_run event)) do delete_rsvp r.event_id user_id; uncount r.event_id

abbrev pub removal_entry : ℕ → ℕ → ℕ → AuditEntry
removal_entry organisation_id volunteer_user_id acting_user_id = record {
  organisation_id = some organisation_id;
  acting_user_id = some acting_user_id;
  action = "organisation.volunteer_removed";
  entity_type = "user";
  entity_id = some volunteer_user_id;
  metadata = none;
}

abbrev pub removal_notice : ℕ → ℕ → Notice
removal_notice organisation_id volunteer_user_id = record {
  user_id = volunteer_user_id;
  organisation_id = some organisation_id;
  type = NotificationType.volunteer_removed;
  title = "Membership ended";
  message = "Your volunteer membership with this organisation has ended.";
  related_entity_type = some "organisation";
  related_entity_id = some organisation_id;
}

-- The guards of `removeVolunteer`.
unfoldable pub assert_removable : ℕ → ℕ → ℕ → Request (Unit {0})
assert_removable organisation_id volunteer_user_id acting_user_id = do
  throw_if (volunteer_user_id == acting_user_id)
      (bad_request "You cannot remove yourself this way.")
  found ← query (find_membership organisation_id volunteer_user_id)
  member ← or_throw found (not_found "This user is not a member of this organisation.")
  throw_if (not (is_volunteer member.role)) (bad_request "Only volunteers can be removed this way")

unfoldable pub relieve_all : ℕ → ℕ → Request (Unit {0})
relieve_all organisation_id volunteer_user_id = do
  duties ← query λ db. select (is_duty organisation_id volunteer_user_id) db.task_assignments
  for_each duties relieve

unfoldable pub withdraw_all_open : ℕ → ℕ → Request (Unit {0})
withdraw_all_open organisation_id volunteer_user_id = do
  rsvps ← query λ db. select (rsvp_of organisation_id volunteer_user_id) db.event_rsvps
  for_each rsvps (withdraw_open volunteer_user_id)

-- What `removeVolunteer` writes once the tables of the organisation are clear of the volunteer.
unfoldable pub end_membership : ℕ → ℕ → ℕ → Request (Unit {0})
end_membership organisation_id volunteer_user_id acting_user_id = do
  set_membership volunteer_user_id none UserRole.citizen none
  record_audit (removal_entry organisation_id volunteer_user_id acting_user_id)
  notify (removal_notice organisation_id volunteer_user_id)

unfoldable pub remove_volunteer : ℕ → ℕ → ℕ → Request (Unit {0})
remove_volunteer organisation_id volunteer_user_id acting_user_id = do
  assert_removable organisation_id volunteer_user_id acting_user_id
  relieve_all organisation_id volunteer_user_id
  withdraw_all_open organisation_id volunteer_user_id
  end_membership organisation_id volunteer_user_id acting_user_id
