-- ===== src/Db/Enums.antt =====
-- src/common/enums and src/database/schema/enums.schema.ts: each enum is a data type with the
-- source's members.
use mathlib.Core.Bool.{Bool, true, false}

-- user-role.enum.ts
pub data UserRole : Type 0 where
  citizen volunteer org_admin : UserRole

-- app-role.enum.ts: a user's role, or the platform-wide flag.
pub data AppRole : Type 0 where
  user_role : UserRole → AppRole
  platform_admin : AppRole

-- incident.enum.ts
pub data IncidentCategory : Type 0 where
  illegal_dumping water_pollution air_pollution deforestation wildlife_hazard : IncidentCategory
  other : IncidentCategory

pub data IncidentSeverity : Type 0 where
  low medium high critical : IncidentSeverity

pub data VerificationStatus : Type 0 where
  approved rejected duplicate : VerificationStatus

-- task.enum.ts
pub data TaskPriority : Type 0 where
  low medium high : TaskPriority

pub data TaskStatus : Type 0 where
  pending in_progress completed : TaskStatus

pub data AssignmentStatus : Type 0 where
  assigned accepted declined cancelled : AssignmentStatus

-- schema/enums.schema.ts, eventStatusEnum
pub data EventStatus : Type 0 where
  scheduled ongoing completed cancelled : EventStatus

-- schema/enums.schema.ts, joinRequestStatusEnum
pub data JoinRequestStatus : Type 0 where
  pending approved rejected : JoinRequestStatus

-- schema/notification-dispatches.schema.ts
pub data DispatchKind : Type 0 where
  incident_proximity task_due_reminder event_reminder : DispatchKind

-- notification.enum.ts
pub data NotificationType : Type 0 where
  task_assigned incident_claimed incident_rejected task_status_changed : NotificationType
  cleanup_scheduled task_completed join_request_submitted join_request_approved : NotificationType
  join_request_rejected event_cancelled incident_proximity task_due_reminder : NotificationType
  event_reminder volunteer_removed : NotificationType

abbrev pub is_volunteer : UserRole → Bool
is_volunteer UserRole.volunteer = true
is_volunteer _ = false

abbrev pub is_org_admin : UserRole → Bool
is_org_admin UserRole.org_admin = true
is_org_admin _ = false

abbrev pub is_approved : VerificationStatus → Bool
is_approved VerificationStatus.approved = true
is_approved _ = false

abbrev pub is_assigned : AssignmentStatus → Bool
is_assigned AssignmentStatus.assigned = true
is_assigned _ = false

abbrev pub is_accepted : AssignmentStatus → Bool
is_accepted AssignmentStatus.accepted = true
is_accepted _ = false

-- `inArray(status, [ASSIGNED, ACCEPTED])`: the assignment is current.
abbrev pub is_active : AssignmentStatus → Bool
is_active AssignmentStatus.assigned = true
is_active AssignmentStatus.accepted = true
is_active _ = false

abbrev pub is_completed : TaskStatus → Bool
is_completed TaskStatus.completed = true
is_completed _ = false

abbrev pub is_pending : TaskStatus → Bool
is_pending TaskStatus.pending = true
is_pending _ = false

abbrev pub is_in_progress : TaskStatus → Bool
is_in_progress TaskStatus.in_progress = true
is_in_progress _ = false

-- `===` on dispatch kinds, task priorities and event statuses.
abbrev pub same_kind : DispatchKind → DispatchKind → Bool
same_kind DispatchKind.incident_proximity DispatchKind.incident_proximity = true
same_kind DispatchKind.task_due_reminder DispatchKind.task_due_reminder = true
same_kind DispatchKind.event_reminder DispatchKind.event_reminder = true
same_kind _ _ = false

abbrev pub same_priority : TaskPriority → TaskPriority → Bool
same_priority TaskPriority.low TaskPriority.low = true
same_priority TaskPriority.medium TaskPriority.medium = true
same_priority TaskPriority.high TaskPriority.high = true
same_priority _ _ = false

abbrev pub same_event_status : EventStatus → EventStatus → Bool
same_event_status EventStatus.scheduled EventStatus.scheduled = true
same_event_status EventStatus.ongoing EventStatus.ongoing = true
same_event_status EventStatus.completed EventStatus.completed = true
same_event_status EventStatus.cancelled EventStatus.cancelled = true
same_event_status _ _ = false

abbrev pub same_role : UserRole → UserRole → Bool
same_role UserRole.citizen UserRole.citizen = true
same_role UserRole.volunteer UserRole.volunteer = true
same_role UserRole.org_admin UserRole.org_admin = true
same_role _ _ = false

abbrev pub same_app_role : AppRole → AppRole → Bool
same_app_role platform_admin platform_admin = true
same_app_role (user_role r) (user_role s) = same_role r s
same_app_role _ _ = false

abbrev pub same_severity : IncidentSeverity → IncidentSeverity → Bool
same_severity IncidentSeverity.low IncidentSeverity.low = true
same_severity IncidentSeverity.medium IncidentSeverity.medium = true
same_severity IncidentSeverity.high IncidentSeverity.high = true
same_severity IncidentSeverity.critical IncidentSeverity.critical = true
same_severity _ _ = false

-- `=== 'completed' || === 'cancelled'`: the event has run its course.
abbrev pub is_over : EventStatus → Bool
is_over EventStatus.completed = true
is_over EventStatus.cancelled = true
is_over _ = false
