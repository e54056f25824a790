-- ===== src/Tasks.antt =====
-- TasksService, src/modules/tasks/tasks.service.ts: lookups, membership and reminders. The children
-- hold the operations. Photo URLs are returned as stored: presigning them (MediaService) is left out.
pub mod Creation
pub mod Assignment
pub mod Progress
pub mod Listing
pub mod Released
pub mod Assignees
pub mod Completion
use ecotrack_api.Common.{
  Bool, List, Option, String, [], false, find, is_value, leb, map, none, not, select, some, sort_by,
  ℕ, ◌&&◌, ◌++◌, ◌-◌, ◌==◌, ◌∷◌,
}
use ecotrack_api.Db.{
  AssignmentStatus, Db, DispatchKind, HttpException, MetaValue, NotificationType, Request,
  TaskAssignmentRow, TaskNoteRow, TaskPhotoRow, TaskRow, UserRow, bad_request, execute,
  is_volunteer, not_found, or_throw, pure, query, throw_if, when, ◌>>=◌, ◌>>◌,
}
use ecotrack_api.Platform.Audit.{AuditEntry}
use ecotrack_api.Platform.Notifications.{Notice}
use ecotrack_api.Platform.Outbox.{cancel, schedule}

abbrev pub task_not_found : HttpException
task_not_found = not_found "Task not found"

abbrev pub is_task : ℕ → TaskRow → Bool
is_task id t = t.id == id

abbrev pub of_task : ℕ → TaskAssignmentRow → Bool
of_task task_id a = a.task_id == task_id

-- TaskFull: the row with its assignments (each with its volunteer), notes and photos.
pub record TaskFull : Type 0 where
  pub task : TaskRow
  pub assignments : List (TaskAssignmentRow × Option UserRow)
  pub notes : List TaskNoteRow
  pub photos : List TaskPhotoRow

abbrev pub user_by_id : ℕ → Db → Option UserRow
user_by_id id db = find (λ (u : UserRow). u.id == id) db.users

-- The lookups of `findById` after the task's own row.
unfoldable pub complete_task : TaskRow → Db → TaskFull
complete_task t db = record {
  task = t;
  assignments =
      map (λ (a : TaskAssignmentRow). (a, user_by_id a.volunteer_user_id db))
        (select (of_task t.id) db.task_assignments);
  notes =
      sort_by (λ (n : TaskNoteRow). n.created_at)
        (select (λ (n : TaskNoteRow). n.task_id == t.id) db.task_notes);
  photos = select (λ (p : TaskPhotoRow). p.task_id == t.id) db.task_photos;
}

abbrev pub find_task : ℕ → Request TaskFull
find_task id = do
  found ← query λ db. find (is_task id) db.tasks
  t ← or_throw found task_not_found
  query (complete_task t)

abbrev pub find_scoped_task : ℕ → ℕ → Request TaskFull
find_scoped_task organisation_id task_id = do
  full ← find_task task_id
  throw_if (not (full.task.organisation_id == organisation_id)) task_not_found
  pure full

-- OrganisationMembersService.findMembership, organisation-members.service.ts
abbrev pub find_membership : ℕ → ℕ → Db → Option UserRow
find_membership organisation_id user_id db =
    find (λ (u : UserRow). u.id == user_id && is_value u.organisation_id organisation_id) db.users

abbrev pub is_active_volunteer : Option UserRow → Bool
is_active_volunteer none = false
is_active_volunteer (some u) = u.is_active && is_volunteer u.role

abbrev pub assert_active_volunteer : ℕ → ℕ → Request (Unit {0})
assert_active_volunteer organisation_id volunteer_user_id = do
  member ← query (find_membership organisation_id volunteer_user_id)
  throw_if (not (is_active_volunteer member))
      (bad_request "not an active volunteer of this organisation")

-- 24 * 60 * 60 * 1000
abbrev pub day : ℕ
day = 86400000

-- `scheduleDueReminder`. A due date within a day schedules nothing.
unfoldable pub schedule_due_reminder : ℕ → ℕ → Request (Unit {0})
schedule_due_reminder task_id due_date = do
  now ← query λ db. db.clock
  when (not (leb (due_date - day) now))
      (schedule DispatchKind.task_due_reminder "task" task_id (due_date - day))

abbrev pub cancel_due_reminder : ℕ → Request (Unit {0})
cancel_due_reminder task_id = cancel DispatchKind.task_due_reminder task_id

abbrev pub task_entry : ℕ → ℕ → String → ℕ → Option (List (String × MetaValue)) → AuditEntry
task_entry organisation_id acting_user_id action entity_id metadata = record {
  organisation_id = some organisation_id;
  acting_user_id = some acting_user_id;
  action = action;
  entity_type = "task";
  entity_id = some entity_id;
  metadata = metadata;
}

abbrev pub task_notice : ℕ → ℕ → NotificationType → String → String → ℕ → Notice
task_notice organisation_id task_id type title message user_id = record {
  user_id = user_id;
  organisation_id = some organisation_id;
  type = type;
  title = title;
  message = message;
  related_entity_type = some "task";
  related_entity_id = some task_id;
}

abbrev pub insert_assignment : TaskAssignmentRow → Request (Unit {0})
insert_assignment a = execute λ db. record db { task_assignments = db.task_assignments ++ a ∷ [] }

abbrev pub new_assignment : ℕ → ℕ → ℕ → ℕ → ℕ → TaskAssignmentRow
new_assignment now id organisation_id task_id volunteer_user_id = record {
  id = id;
  organisation_id = organisation_id;
  task_id = task_id;
  volunteer_user_id = volunteer_user_id;
  status = AssignmentStatus.assigned;
  responded_at = none;
  decline_reason = none;
  updated_at = now;
}
