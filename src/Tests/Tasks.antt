-- ===== src/Tests/Tasks.antt =====
-- Tasks on the small database: a reassignment and a completion.
use ecotrack_api.Common.{
  Option, [], any, arith, count_where, false, find, insert_by, none, refl, select, some, sort_by,
  true, update_where, ℕ, ◌<◌, ◌∷◌, ◌≡◌,
}
use ecotrack_api.Db.{
  AssignmentStatus, Db, DispatchKind, DispatchRow, IncidentRow, TaskAssignmentRow, TaskPhotoRow,
  TaskPriority, TaskRow, TaskStatus, UserRole, is_accepted, is_in_progress, ok,
}
use ecotrack_api.Dispatch.{handle_task_due}
use ecotrack_api.Dispatch.Recipients.{mark_completed-handle_task_due}
use ecotrack_api.Incidents.{incident_by_id}
use ecotrack_api.Incidents.Actions.{advance_stage}
use ecotrack_api.Incidents.Advance.{advance_if_other, auto_advance}
use ecotrack_api.Platform.Outbox.{tombstone}
use ecotrack_api.Tasks.{complete_task, is_task, new_assignment}
use ecotrack_api.Tasks.Assignees.{reassign-current}
use ecotrack_api.Tasks.Assignment.{
  hand_over, is_current, is_own, reassign, release, take_on, volunteer_of,
}
use ecotrack_api.Tasks.Completion.{is_pending_reminder, is_photo_of, mark_completed-done}
use ecotrack_api.Tasks.Progress.{
  advance_parent, complete_and_announce, complete_row, mark_completed,
}
use ecotrack_api.Tests.Fixtures.{alert, base, state_after, user}
use ecotrack_api.Workflow.Rules.{get_rules, resolve_target}
use ecotrack_api.Workflow.Stages.{stages_of}

abbrev task : TaskRow
task = record {
  id = 50;
  organisation_id = 1;
  incident_id = 11;
  title = "Remove the tyres";
  description = none;
  priority = TaskPriority.high;
  due_date = 500;
  status = TaskStatus.in_progress;
  started_at = some 60;
  completed_at = none;
  created_by_user_id = none;
  created_at = 40;
  updated_at = 60;
}

abbrev assignment : TaskAssignmentRow
assignment = record (new_assignment 40 60 1 50 5) {
  status = AssignmentStatus.accepted;
  responded_at = some 50;
}

abbrev photo : TaskPhotoRow
photo = record {
  id = 70;
  organisation_id = 1;
  task_id = 50;
  url = "after.jpg";
  uploaded_by_user_id = some 5;
}

abbrev reminder : DispatchRow
reminder = record alert {
  id = 41;
  kind = DispatchKind.task_due_reminder;
  entity_type = "task";
  entity_id = 50;
  due_at = 400;
}

abbrev at_work : Db
at_work = record base {
  tasks = task ∷ [];
  task_assignments = assignment ∷ [];
  task_photos = photo ∷ [];
  notification_dispatches = reminder ∷ [];
}

abbrev after_reassign : Db
after_reassign = state_after (reassign 1 task 6 2) at_work

reassign-current_example :
    (count_where (is_current 50) after_reassign.task_assignments ≡ 1)
    × (volunteer_of (find (is_current 50) after_reassign.task_assignments) ≡ some 6)
unfolding reassign hand_over release take_on find update_where count_where
reassign-current_example =
    reassign-current 1 task 6 2 at_work after_reassign (tt, tt) (omega arith) refl

abbrev after_completion : Db
after_completion = state_after (mark_completed 1 50 5) at_work

mark_completed-done_example :
    (t : TaskRow) × (find (is_task 50) at_work.tasks ≡ some t)
    × (t.organisation_id ≡ 1)
    × (is_in_progress t.status ≡ true)
    × (0 < count_where (is_photo_of 50) at_work.task_photos)
    × ((a : TaskAssignmentRow) × (find (is_own 50 5) at_work.task_assignments ≡ some a)
        × (is_accepted a.status ≡ true))
    × (find (is_task 50) after_completion.tasks ≡ some (complete_row 100 t))
    × (any (is_pending_reminder 50) after_completion.notification_dispatches ≡ false)
unfolding mark_completed complete_task complete_and_announce advance_parent auto_advance
    resolve_target get_rules advance_if_other advance_stage tombstone stages_of select sort_by
    insert_by find any update_where count_where
mark_completed-done_example =
    mark_completed-done 1 50 5 at_work after_completion
      (record {
        task = complete_row 100 task;
        assignments = (assignment, some (user 5 UserRole.volunteer)) ∷ [];
        notes = [];
        photos = photo ∷ [];
      })
      refl

abbrev stage_of_incident : Option IncidentRow → Option ℕ
stage_of_incident none = none
stage_of_incident (some i) = i.current_stage_id

-- The completion of the incident's last task moved it on to the next stage.
advanced_incident : stage_of_incident (incident_by_id 11 after_completion) ≡ some 103
unfolding mark_completed complete_task complete_and_announce advance_parent auto_advance
    resolve_target get_rules advance_if_other advance_stage tombstone stages_of select sort_by
    insert_by find any update_where count_where
advanced_incident = refl

mark_completed-handle_task_due_example :
    handle_task_due 50 after_completion ≡ ok (tt, after_completion)
unfolding mark_completed complete_task complete_and_announce advance_parent auto_advance
    resolve_target get_rules advance_if_other advance_stage tombstone stages_of select sort_by
    insert_by find any update_where count_where
mark_completed-handle_task_due_example =
    mark_completed-handle_task_due 1 50 5 at_work after_completion
      (record {
        task = complete_row 100 task;
        assignments = (assignment, some (user 5 UserRole.volunteer)) ∷ [];
        notes = [];
        photos = photo ∷ [];
      })
      refl
