-- ===== src/Tasks/Assignment.antt =====
-- Who works on a task: `update`, `reassign`, `findOwnAssignment` and `respondToAssignment` of
-- src/modules/tasks/tasks.service.ts.
use ecotrack_api.Common.{
  Bool, List, Option, String, [], false, find, get_or, if◌then◌else◌, is_value, none, not, select,
  some, str_eq, suc, true, update_where, ℕ, ◌&&◌, ◌++◌, ◌<>◌, ◌==◌, ◌||◌, ◌∷◌,
}
use ecotrack_api.Db.{
  AssignmentStatus, MetaValue, NotificationType, Request, TaskAssignmentRow, TaskPriority, TaskRow,
  UserRow, bad_request, execute, for_each, forbidden, is_active, is_assigned, or_throw, pure, query,
  same_priority, throw_if, when, when_some, ◌>>=◌, ◌>>◌,
}
use ecotrack_api.Platform.Audit.{record_audit}
use ecotrack_api.Platform.Notifications.{Notice, notify}
use ecotrack_api.Tasks.{
  TaskFull, assert_active_volunteer, find_scoped_task, find_task, is_task, new_assignment,
  schedule_due_reminder, task_entry, task_notice,
}
use ecotrack_api.Workflow.Rules.{uuid_or_null}

-- `taskId = … AND status IN (ASSIGNED, ACCEPTED)`
abbrev pub is_current : ℕ → TaskAssignmentRow → Bool
is_current task_id a = a.task_id == task_id && is_active a.status

-- `taskId = … AND volunteerUserId = …`
abbrev pub is_own : ℕ → ℕ → TaskAssignmentRow → Bool
is_own task_id user_id a = a.task_id == task_id && a.volunteer_user_id == user_id

abbrev pub has_assignment_id : ℕ → TaskAssignmentRow → Bool
has_assignment_id id a = a.id == id

abbrev pub cancel_row : ℕ → TaskAssignmentRow → TaskAssignmentRow
cancel_row now a = record a {
  status = AssignmentStatus.cancelled;
  responded_at = some now;
  updated_at = now;
}

abbrev pub reopen_row : ℕ → TaskAssignmentRow → TaskAssignmentRow
reopen_row now a = record a {
  status = AssignmentStatus.assigned;
  responded_at = none;
  decline_reason = none;
  updated_at = now;
}

-- The update of the current assignment's row, if there is one.
unfoldable pub release :
    ℕ → Option TaskAssignmentRow → List TaskAssignmentRow → List TaskAssignmentRow
release now none rows = rows
release now (some current) rows = update_where (has_assignment_id current.id) (cancel_row now) rows

-- The incoming volunteer's row on this task is reused, or a new one inserted.
unfoldable pub take_on : ℕ → ℕ → ℕ → ℕ → ℕ → List TaskAssignmentRow → List TaskAssignmentRow
take_on now id organisation_id task_id user_id rows = elim (find (is_own task_id user_id) rows) [
  | some existing ↦ update_where (has_assignment_id existing.id) (reopen_row now) rows
  | none ↦ rows ++ new_assignment now id organisation_id task_id user_id ∷ []
]

abbrev pub volunteer_of : Option TaskAssignmentRow → Option ℕ
volunteer_of none = none
volunteer_of (some a) = some a.volunteer_user_id

-- `reassign` once it is known that the volunteer changes.
unfoldable pub hand_over : ℕ → TaskRow → Option TaskAssignmentRow → ℕ → ℕ → Request (Unit {0})
hand_over organisation_id t current user_id acting_user_id = do
  execute λ db. record db { task_assignments = release db.clock current db.task_assignments }
  when_some (volunteer_of current) (λ previous. notify (
      task_notice organisation_id t.id NotificationType.task_status_changed
        "Cleanup task reassigned" ("You have been unassigned from: " <> t.title) previous))
  execute λ db. record db {
    next_id = suc db.next_id;
    task_assignments = take_on db.clock db.next_id organisation_id t.id user_id db.task_assignments;
  }
  record_audit (
      task_entry organisation_id acting_user_id "task.reassigned" t.id (
        some (("from", uuid_or_null (volunteer_of current)) ∷ ("to", MetaValue.uuid user_id) ∷ [])))
  notify (
      task_notice organisation_id t.id NotificationType.task_assigned "New cleanup task assigned"
        ("You have been assigned to: " <> t.title) user_id)

unfoldable pub reassign : ℕ → TaskRow → ℕ → ℕ → Request (Unit {0})
reassign organisation_id t user_id acting_user_id = do
  current ← query λ db. find (is_current t.id) db.task_assignments
  if is_value (volunteer_of current) user_id
      then pure tt
      else hand_over organisation_id t current user_id acting_user_id

-- UpdateTaskDto
pub record UpdateTask : Type 0 where
  pub priority : Option TaskPriority
  pub due_date : Option ℕ
  pub assigned_to : Option ℕ

abbrev pub priority_differs : Option TaskPriority → TaskPriority → Bool
priority_differs none p = false
priority_differs (some q) p = not (same_priority p q)

abbrev pub due_date_differs : Option ℕ → ℕ → Bool
due_date_differs none d = false
due_date_differs (some e) d = not (d == e)

abbrev pub update_row : ℕ → UpdateTask → TaskRow → TaskRow
update_row now d t = record t {
  priority = get_or d.priority t.priority;
  due_date = get_or d.due_date t.due_date;
  updated_at = now;
}

abbrev pub priority_text : TaskPriority → String
priority_text TaskPriority.low = "low"
priority_text TaskPriority.medium = "medium"
priority_text TaskPriority.high = "high"

-- `to_iso_string` is JavaScript's `Date.toISOString`.
module _ (to_iso_string : ℕ → String) where
  -- The notices of `update` to the current assignees.
  unfoldable pub announce : ℕ → TaskRow → Bool → Bool → Request (Unit {0})
  announce organisation_id t schedule_changed priority_changed = do
    current ← query λ db. select (is_current t.id) db.task_assignments
    when schedule_changed (
        for_each current λ a. notify (
          task_notice organisation_id t.id NotificationType.cleanup_scheduled
            "Cleanup task scheduled"
            ("\"" <> t.title <> "\" is now due " <> to_iso_string t.due_date <> ".")
            a.volunteer_user_id))
    when priority_changed (
        for_each current λ a. notify (
          task_notice organisation_id t.id NotificationType.task_status_changed
            "Cleanup task priority changed"
            ("\"" <> t.title <> "\" priority was changed to " <> priority_text t.priority <> ".")
            a.volunteer_user_id))

  unfoldable pub update_task : ℕ → ℕ → UpdateTask → ℕ → Request TaskFull
  update_task organisation_id task_id d acting_user_id = do
    full ← find_scoped_task organisation_id task_id
    let priority_changed = priority_differs d.priority full.task.priority
    let schedule_changed = due_date_differs d.due_date full.task.due_date
    when_some d.assigned_to (assert_active_volunteer organisation_id)
    now ← query λ db. db.clock
    execute λ db. record db { tasks = update_where (is_task task_id) (update_row now d) db.tasks }
    let updated = update_row now d full.task
    when schedule_changed (schedule_due_reminder task_id updated.due_date)
    when (schedule_changed || priority_changed)
        (announce organisation_id updated schedule_changed priority_changed)
    when_some d.assigned_to (λ user_id. reassign organisation_id updated user_id acting_user_id)
    find_task task_id

-- `findOwnAssignment`
abbrev pub find_own_assignment : ℕ → ℕ → ℕ → Request (TaskFull × TaskAssignmentRow)
find_own_assignment organisation_id task_id volunteer_user_id = do
  full ← find_scoped_task organisation_id task_id
  own ← query λ db. find (is_own task_id volunteer_user_id) db.task_assignments
  assignment ← or_throw own (forbidden "You are not assigned to this task")
  pure (full, assignment)

abbrev pub answer : Bool → AssignmentStatus
answer true = AssignmentStatus.accepted
answer false = AssignmentStatus.declined

abbrev pub respond_row : ℕ → Bool → Option String → TaskAssignmentRow → TaskAssignmentRow
respond_row now accept reason a = record a {
  status = answer accept;
  responded_at = some now;
  decline_reason = if accept then none else reason;
  updated_at = now;
}

abbrev pub name_in : List (TaskAssignmentRow × Option UserRow) → ℕ → String
name_in [] user_id = "A volunteer"
name_in ((a, none) ∷ rest) user_id =
    if a.volunteer_user_id == user_id then "A volunteer" else name_in rest user_id
name_in ((a, some u) ∷ rest) user_id =
    if a.volunteer_user_id == user_id then u.full_name else name_in rest user_id

abbrev pub reason_text : Option String → String
reason_text none = ""
reason_text (some r) = if str_eq r "" then "" else " Reason: " <> r <> "."

abbrev pub answer_notice : ℕ → TaskFull → ℕ → Bool → Option String → ℕ → Notice
answer_notice organisation_id full volunteer_user_id true reason user_id =
    task_notice organisation_id full.task.id NotificationType.task_status_changed
      "Volunteer accepted a task"
      (name_in full.assignments volunteer_user_id <> " accepted: " <> full.task.title) user_id
answer_notice organisation_id full volunteer_user_id false reason user_id =
    task_notice organisation_id full.task.id NotificationType.task_status_changed
      "Volunteer declined a task"
      (name_in full.assignments volunteer_user_id
        <> " declined: "
        <> full.task.title
        <> "."
        <> reason_text reason
        <> " It may need reassigning.")
      user_id

unfoldable pub respond_to_assignment : ℕ → ℕ → ℕ → Bool → Option String → Request TaskFull
respond_to_assignment organisation_id task_id volunteer_user_id accept reason = do
  (full, assignment) ← find_own_assignment organisation_id task_id volunteer_user_id
  throw_if (not (is_assigned assignment.status))
      (bad_request "You have already responded to this assignment")
  execute λ db. record db {
    task_assignments =
        update_where (has_assignment_id assignment.id) (respond_row db.clock accept reason)
          db.task_assignments;
  }
  when_some full.task.created_by_user_id (λ user_id.
      notify (answer_notice organisation_id full volunteer_user_id accept reason user_id))
  find_task task_id
