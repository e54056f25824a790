-- ===== src/Tasks/Progress.antt =====
-- The volunteer's work on an accepted task: `markInProgress`, `addNote`, `addPhotos` and
-- `markCompleted` of src/modules/tasks/tasks.service.ts.
use ecotrack_api.Common.{
  Bool, List, Option, String, [], count_where, if◌then◌else◌, is_none, length, none, not, some, suc,
  update_where, ℕ, ◌&&◌, ◌++◌, ◌+◌, ◌<>◌, ◌==◌, ◌∷◌,
}
use ecotrack_api.Db.{
  IncidentRow, NotificationType, Request, TaskPhotoRow, TaskRow, TaskStatus, bad_request, execute,
  forbidden, fresh_id, is_accepted, is_completed, is_in_progress, is_pending, pure, query, throw_if,
  when, when_some, ◌>>=◌, ◌>>◌,
}
use ecotrack_api.Incidents.{find_incident}
use ecotrack_api.Incidents.Advance.{auto_advance}
use ecotrack_api.Platform.Audit.{record_audit}
use ecotrack_api.Platform.Notifications.{notify}
use ecotrack_api.Tasks.{TaskFull, cancel_due_reminder, find_task, is_task, task_entry, task_notice}
use ecotrack_api.Tasks.Assignment.{find_own_assignment}
use ecotrack_api.Workflow.Rules.{StageRuleTrigger}
use ecotrack_api.Workflow.Stages.{find_by_id}

-- `assertAcceptedAssignee`
abbrev pub assert_accepted_assignee : ℕ → ℕ → ℕ → Request TaskFull
assert_accepted_assignee organisation_id task_id volunteer_user_id = do
  (full, assignment) ← find_own_assignment organisation_id task_id volunteer_user_id
  throw_if (not (is_accepted assignment.status))
      (forbidden "You must accept this task before updating its progress")
  pure full

abbrev pub start_row : ℕ → TaskRow → TaskRow
start_row now t = record t {
  status = TaskStatus.in_progress;
  started_at = some now;
  updated_at = now;
}

unfoldable pub mark_in_progress : ℕ → ℕ → ℕ → Request TaskFull
mark_in_progress organisation_id task_id volunteer_user_id = do
  full ← assert_accepted_assignee organisation_id task_id volunteer_user_id
  throw_if (not (is_pending full.task.status))
      (bad_request "This task has already been started or completed")
  execute λ db. record db { tasks = update_where (is_task task_id) (start_row db.clock) db.tasks }
  when_some full.task.created_by_user_id (λ user_id. notify (
      task_notice full.task.organisation_id full.task.id NotificationType.task_status_changed
        "Cleanup task in progress" ("\"" <> full.task.title <> "\" is now in progress.") user_id))
  find_task task_id

unfoldable pub add_note : ℕ → ℕ → ℕ → String → Request TaskFull
add_note organisation_id task_id volunteer_user_id note = do
  full ← assert_accepted_assignee organisation_id task_id volunteer_user_id
  id ← fresh_id
  execute λ db. record db {
    task_notes =
        db.task_notes
        ++ record {
          id = id;
          organisation_id = organisation_id;
          task_id = task_id;
          author_user_id = some volunteer_user_id;
          note = note;
          created_at = db.clock;
        }
          ∷ [];
  }
  find_task task_id

unfoldable pub photos_from : ℕ → ℕ → ℕ → ℕ → List String → List TaskPhotoRow
photos_from id organisation_id task_id user_id [] = []
photos_from id organisation_id task_id user_id (url ∷ urls) =
    record {
      id = id;
      organisation_id = organisation_id;
      task_id = task_id;
      url = url;
      uploaded_by_user_id = some user_id;
    }
    ∷ photos_from (suc id) organisation_id task_id user_id urls

unfoldable pub add_photos : ℕ → ℕ → ℕ → List String → Request TaskFull
add_photos organisation_id task_id volunteer_user_id photo_urls = do
  full ← assert_accepted_assignee organisation_id task_id volunteer_user_id
  throw_if (length photo_urls == 0) (bad_request "At least one photo is required")
  execute λ db. record db {
    next_id = db.next_id + length photo_urls;
    task_photos =
        db.task_photos
        ++ photos_from db.next_id organisation_id task_id volunteer_user_id photo_urls;
  }
  find_task task_id

abbrev pub complete_row : ℕ → TaskRow → TaskRow
complete_row now t = record t {
  status = TaskStatus.completed;
  completed_at = some now;
  updated_at = now;
}

-- `incidentId = … AND status <> 'completed'`
abbrev pub is_open_for : ℕ → TaskRow → Bool
is_open_for incident_id t = t.incident_id == incident_id && not (is_completed t.status)

-- `incident.organisationId && incident.currentStageId`
abbrev pub claimed_stage : IncidentRow → Option ℕ
claimed_stage i = if is_none i.organisation_id then none else i.current_stage_id

-- The advance of the parent incident by the Task Completion rule.
unfoldable pub advance_parent : TaskRow → ℕ → Request (Unit {0})
advance_parent t volunteer_user_id = do
  incident ← find_incident t.incident_id
  when_some (claimed_stage incident) λ at. do
    current ← find_by_id at
    auto_advance t.organisation_id incident.id StageRuleTrigger.task_completion current
        volunteer_user_id "task.completed"

-- The writes of `markCompleted` once its checks have passed.
unfoldable pub complete_and_announce : TaskRow → ℕ → Request (Unit {0})
complete_and_announce t volunteer_user_id = do
  execute λ db. record db { tasks = update_where (is_task t.id) (complete_row db.clock) db.tasks }
  cancel_due_reminder t.id
  record_audit (task_entry t.organisation_id volunteer_user_id "task.completed" t.id none)
  when_some t.created_by_user_id (λ user_id. notify (
      task_notice t.organisation_id t.id NotificationType.task_completed "Cleanup task completed"
        ("\"" <> t.title <> "\" has been marked complete.") user_id))

unfoldable pub mark_completed : ℕ → ℕ → ℕ → Request TaskFull
mark_completed organisation_id task_id volunteer_user_id = do
  full ← assert_accepted_assignee organisation_id task_id volunteer_user_id
  throw_if (not (is_in_progress full.task.status))
      (bad_request "Mark this task in progress before completing it")
  throw_if (length full.photos == 0)
      (bad_request "At least one completion photo is required before marking this task complete")
  complete_and_announce full.task volunteer_user_id
  incomplete ← query λ db. count_where (is_open_for full.task.incident_id) db.tasks
  when (incomplete == 0) (advance_parent full.task volunteer_user_id)
  find_task task_id
