-- ===== src/Users/Deletion.antt =====
-- `deleteAccount` of src/modules/users/users.service.ts. The DELETE of a user takes the rows with it
-- that the foreign keys of src/database/schema cascade to, and clears the references that are set null.
use ecotrack_api.Common.{
  Bool, List, Option, any, count_where, delete_where, false, if◌then◌else◌, is_value, ltb, map,
  none, not, select, some, update_where, ℕ, ◌&&◌, ◌==◌, ◌||◌,
}
use ecotrack_api.Db.{
  AuditLogRow, Db, EventRow, EventRsvpRow, IncidentRow, InvitationRow, InviteLinkRow,
  JoinRequestRow, NotificationRow, Request, TaskAssignmentRow, TaskNoteRow, TaskPhotoRow, TaskRow,
  TaskStatus, UserRow, conflict, execute, for_each, is_active, is_completed, is_org_admin, is_over,
  query, throw_if, when, when_some, ◌>>=◌, ◌>>◌,
}
use ecotrack_api.Events.{event_by_id, is_rsvp}
use ecotrack_api.Events.Attendance.{count_down}
use ecotrack_api.Tasks.Assignment.{cancel_row, has_assignment_id, is_own}
use ecotrack_api.Users.{find_user, is_user}

-- DELETED_USER_SENTINEL_ID, the uuid of zeros.
abbrev pub deleted_user_sentinel_id : ℕ
deleted_user_sentinel_id = 0

abbrev pub is_other_admin : ℕ → ℕ → UserRow → Bool
is_other_admin organisation_id user_id u =
    is_value u.organisation_id organisation_id
    && is_org_admin u.role
    && u.is_active
    && not (u.id == user_id)

-- The organisation that the user is an admin of.
abbrev pub administered : UserRow → Option ℕ
administered u = if is_org_admin u.role then u.organisation_id else none

unfoldable pub assert_not_last_admin : ℕ → ℕ → Request (Unit {0})
assert_not_last_admin user_id organisation_id = do
  remaining ← query λ db. count_where (is_other_admin organisation_id user_id) db.users
  throw_if (remaining == 0) (conflict "You are the last admin of an active organisation")

abbrev pub works_for : ℕ → TaskAssignmentRow → Bool
works_for user_id a = a.volunteer_user_id == user_id

abbrev pub sentinel_row : ℕ → TaskAssignmentRow → TaskAssignmentRow
sentinel_row now a = record a { volunteer_user_id = deleted_user_sentinel_id; updated_at = now }

-- The row-level security of the tenant's tables (migration 0003): a request sees, reads and writes
-- the rows of its user's organisation, and a platform admin's those of all.
abbrev pub sees : UserRow → ℕ → Bool
sees u organisation_id = u.is_platform_admin || is_value u.organisation_id organisation_id

abbrev pub seen_of : (ℕ → Bool) → ℕ → TaskAssignmentRow → Bool
seen_of visible user_id a = visible a.organisation_id && works_for user_id a

abbrev pub seen_own : (ℕ → Bool) → ℕ → ℕ → TaskAssignmentRow → Bool
seen_own visible task_id user_id a = visible a.organisation_id && is_own task_id user_id a

-- UPDATE … WHERE volunteer_user_id = … AND NOT EXISTS (the sentinel's row on the task)
abbrev pub is_repointed : (ℕ → Bool) → ℕ → List TaskAssignmentRow → TaskAssignmentRow → Bool
is_repointed visible user_id rows a =
    seen_of visible user_id a
    && not (any (seen_own visible a.task_id deleted_user_sentinel_id) rows)

unfoldable pub repoint : (ℕ → Bool) → ℕ → ℕ → List TaskAssignmentRow → List TaskAssignmentRow
repoint visible now user_id rows =
    update_where (is_repointed visible user_id rows) (sentinel_row now) rows

abbrev pub is_unfinished : (ℕ → Bool) → ℕ → TaskRow → Bool
is_unfinished visible task_id t =
    visible t.organisation_id && t.id == task_id && not (is_completed t.status)

abbrev pub pending_row : ℕ → TaskRow → TaskRow
pending_row now t = record t { status = TaskStatus.pending; started_at = none; updated_at = now }

abbrev pub seen_assignment : (ℕ → Bool) → ℕ → TaskAssignmentRow → Bool
seen_assignment visible id a = visible a.organisation_id && has_assignment_id id a

-- The body of the loop over the sentinel's active assignments.
abbrev pub give_back : (ℕ → Bool) → TaskAssignmentRow → Request (Unit {0})
give_back visible a = do
  execute λ db. record db {
    task_assignments =
        update_where (seen_assignment visible a.id) (cancel_row db.clock) db.task_assignments;
  }
  execute λ db. record db {
    tasks = update_where (is_unfinished visible a.task_id) (pending_row db.clock) db.tasks;
  }

abbrev pub is_current_of : (ℕ → Bool) → ℕ → TaskAssignmentRow → Bool
is_current_of visible user_id a = seen_of visible user_id a && is_active a.status

unfoldable pub reassign_task_assignments : (ℕ → Bool) → ℕ → Request (Unit {0})
reassign_task_assignments visible user_id = do
  execute
      λ db. record db { task_assignments = repoint visible db.clock user_id db.task_assignments }
  execute λ db. record db {
    task_assignments = delete_where (seen_of visible user_id) db.task_assignments;
  }
  active ← query λ db. select (is_current_of visible deleted_user_sentinel_id) db.task_assignments
  for_each active (give_back visible)

-- `event && (event.status === 'completed' || event.status === 'cancelled')`
abbrev pub has_run : Option EventRow → Bool
has_run none = false
has_run (some e) = is_over e.status

abbrev pub is_counted : ℕ → EventRow → Bool
is_counted event_id e = e.id == event_id && ltb 0 e.rsvp_count

abbrev pub rsvp_of : ℕ → ℕ → EventRsvpRow → Bool
rsvp_of organisation_id user_id r = r.organisation_id == organisation_id && r.user_id == user_id

-- The DELETE and the UPDATE of the counter for one RSVP.
abbrev pub delete_rsvp : ℕ → ℕ → Request (Unit {0})
delete_rsvp event_id user_id =
    execute λ db. record db { event_rsvps = delete_where (is_rsvp event_id user_id) db.event_rsvps }

abbrev pub uncount : ℕ → Request (Unit {0})
uncount event_id =
    execute λ db. record db {
      events = update_where (is_counted event_id) (count_down db.clock) db.events;
    }

unfoldable pub withdraw : ℕ → EventRsvpRow → Request (Unit {0})
withdraw user_id r = do
  event ← query (event_by_id r.event_id)
  delete_rsvp r.event_id user_id
  when (not (has_run event)) (uncount r.event_id)

unfoldable pub withdraw_future_rsvps : ℕ → ℕ → Request (Unit {0})
withdraw_future_rsvps organisation_id user_id = do
  rsvps ← query λ db. select (rsvp_of organisation_id user_id) db.event_rsvps
  for_each rsvps (withdraw user_id)

-- ON DELETE SET NULL
abbrev pub cleared : ℕ → Option ℕ → Option ℕ
cleared user_id reference = if is_value reference user_id then none else reference

unfoldable pub erase_user : ℕ → Db → Db
erase_user id db = record db {
  users = delete_where (is_user id) db.users;
  task_assignments = delete_where (works_for id) db.task_assignments;
  event_rsvps = delete_where (λ (r : EventRsvpRow). r.user_id == id) db.event_rsvps;
  join_requests = delete_where (λ (j : JoinRequestRow). j.user_id == id) db.join_requests;
  notifications = delete_where (λ (n : NotificationRow). n.user_id == id) db.notifications;
  incidents =
      map
        (λ (i : IncidentRow). record i {
          reported_by_user_id = cleared id i.reported_by_user_id;
          claimed_by_user_id = cleared id i.claimed_by_user_id;
        })
        db.incidents;
  tasks =
      map (λ (t : TaskRow). record t { created_by_user_id = cleared id t.created_by_user_id })
        db.tasks;
  task_notes =
      map (λ (n : TaskNoteRow). record n { author_user_id = cleared id n.author_user_id })
        db.task_notes;
  task_photos =
      map
        (λ (p : TaskPhotoRow). record p { uploaded_by_user_id = cleared id p.uploaded_by_user_id })
        db.task_photos;
  events =
      map (λ (e : EventRow). record e { created_by_user_id = cleared id e.created_by_user_id })
        db.events;
  invite_links =
      map (λ (l : InviteLinkRow). record l { created_by_user_id = cleared id l.created_by_user_id })
        db.invite_links;
  invitations =
      map (λ (i : InvitationRow). record i { invited_by_user_id = cleared id i.invited_by_user_id })
        db.invitations;
  audit_logs =
      map (λ (a : AuditLogRow). record a { acting_user_id = cleared id a.acting_user_id })
        db.audit_logs;
}

-- The tenant's rows first, where the user is a member.
abbrev pub leave_organisation : (ℕ → Bool) → ℕ → ℕ → Request (Unit {0})
leave_organisation visible user_id organisation_id = do
  reassign_task_assignments visible user_id
  withdraw_future_rsvps organisation_id user_id

unfoldable pub delete_found : UserRow → Request (Unit {0})
delete_found u = do
  when_some (administered u) (assert_not_last_admin u.id)
  when_some u.organisation_id (leave_organisation (sees u) u.id)
  execute (erase_user u.id)

unfoldable pub delete_account : ℕ → Request (Unit {0})
delete_account user_id = do found ← find_user user_id; when_some found delete_found
