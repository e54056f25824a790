-- ===== src/Db/Tables.antt =====
-- One state of the database: a list of rows per table, the clock that `new Date()` and `now()` read
-- and the supply of `defaultRandom()` identifiers.
use Prim.Native.Nat.{ℕ}
use mathlib.Core.List.{List}
use ecotrack_api.Db.Rows.{
  UserRow, OrganisationRow, WorkflowStageRow, WorkflowStageRuleRow, IncidentRow, IncidentImageRow,
  TaskRow, TaskAssignmentRow, TaskNoteRow, TaskPhotoRow, EventRow, EventIncidentRow, EventRsvpRow,
  JoinRequestRow, InviteLinkRow, InvitationRow, DispatchRow, NotificationRow, AuditLogRow,
}

pub record Db : Type 0 where
  pub clock : ℕ
  pub next_id : ℕ
  pub users : List UserRow
  pub organisations : List OrganisationRow
  pub workflow_stages : List WorkflowStageRow
  pub workflow_stage_rules : List WorkflowStageRuleRow
  pub incidents : List IncidentRow
  pub incident_images : List IncidentImageRow
  pub tasks : List TaskRow
  pub task_assignments : List TaskAssignmentRow
  pub task_notes : List TaskNoteRow
  pub task_photos : List TaskPhotoRow
  pub events : List EventRow
  pub event_incidents : List EventIncidentRow
  pub event_rsvps : List EventRsvpRow
  pub join_requests : List JoinRequestRow
  pub invite_links : List InviteLinkRow
  pub invitations : List InvitationRow
  pub notification_dispatches : List DispatchRow
  pub notifications : List NotificationRow
  pub audit_logs : List AuditLogRow
