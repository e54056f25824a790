-- ===== src/Tasks/Creation.antt =====
-- TasksService.create, src/modules/tasks/tasks.service.ts.
use ecotrack_api.Common.{Option, String, [], get_or, if◌then◌else◌, none, some, ℕ, ◌++◌, ◌<>◌, ◌∷◌}
use ecotrack_api.Db.{
  IncidentRow, MetaValue, NotificationType, Request, TaskPriority, TaskRow, TaskStatus,
  WorkflowStageRow, bad_request, execute, fresh_id, or_throw, pure, query, ◌>>=◌, ◌>>◌,
}
use ecotrack_api.Incidents.{find_scoped_incident}
use ecotrack_api.Incidents.Actions.{is_verified}
use ecotrack_api.Incidents.Advance.{auto_advance}
use ecotrack_api.Platform.Audit.{record_audit}
use ecotrack_api.Platform.Notifications.{notify}
use ecotrack_api.Tasks.{
  TaskFull, assert_active_volunteer, find_task, insert_assignment, new_assignment,
  schedule_due_reminder, task_entry, task_notice,
}
use ecotrack_api.Workflow.Rules.{CreationTrigger, StageRuleTrigger, assert_required_stage}
use ecotrack_api.Workflow.Stages.{find_by_id}

-- CreateTaskDto
pub record CreateTask : Type 0 where
  pub incident_id : ℕ
  pub title : String
  pub description : Option String
  pub assigned_to : ℕ
  pub due_date : ℕ
  pub priority : Option TaskPriority

abbrev pub new_task : ℕ → ℕ → ℕ → ℕ → CreateTask → TaskRow
new_task now id organisation_id created_by_user_id d = record {
  id = id;
  organisation_id = organisation_id;
  incident_id = d.incident_id;
  title = d.title;
  description = d.description;
  priority = get_or d.priority TaskPriority.medium;
  due_date = d.due_date;
  status = TaskStatus.pending;
  started_at = none;
  completed_at = none;
  created_by_user_id = some created_by_user_id;
  created_at = now;
  updated_at = now;
}

-- `verificationStatus !== APPROVED || !currentStageId`: the stage of an approved incident.
abbrev pub approved_stage : IncidentRow → Option ℕ
approved_stage i = if is_verified i.verification_status then i.current_stage_id else none

-- The checks of `create`; the result is the incident's current stage.
unfoldable pub check_creation : ℕ → CreateTask → Request WorkflowStageRow
check_creation organisation_id d = do
  incident ← find_scoped_incident organisation_id d.incident_id
  at ←
      or_throw (approved_stage incident)
        (bad_request "A cleanup task can only be created from a claimed incident")
  current ← find_by_id at
  assert_required_stage organisation_id CreationTrigger.task_creation current
  assert_active_volunteer organisation_id d.assigned_to
  pure current

-- The inserts and messages of `create`.
unfoldable pub write_task : ℕ → ℕ → CreateTask → Request TaskRow
write_task organisation_id created_by_user_id d = do
  now ← query λ db. db.clock
  id ← fresh_id
  let saved = new_task now id organisation_id created_by_user_id d
  execute λ db. record db { tasks = db.tasks ++ saved ∷ [] }
  assignment_id ← fresh_id
  insert_assignment (new_assignment now assignment_id organisation_id id d.assigned_to)
  schedule_due_reminder id d.due_date
  record_audit (
      task_entry organisation_id created_by_user_id "task.created" id
        (some (("assignedTo", MetaValue.uuid d.assigned_to) ∷ [])))
  notify (
      task_notice organisation_id id NotificationType.task_assigned "New cleanup task assigned"
        ("You have been assigned to: " <> d.title) d.assigned_to)
  pure saved

unfoldable pub create_task : ℕ → ℕ → CreateTask → Request TaskFull
create_task organisation_id created_by_user_id d = do
  current ← check_creation organisation_id d
  saved ← write_task organisation_id created_by_user_id d
  auto_advance organisation_id d.incident_id StageRuleTrigger.task_creation current
      created_by_user_id "task.created"
  find_task saved.id
