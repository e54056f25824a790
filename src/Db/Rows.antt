-- ===== src/Db/Rows.antt =====
-- src/database/schema: one record per table, with the columns that the modelled services read or
-- write. A uuid and an instant are numbers; a nullable column is an `Option`.
use Prim.Native.Nat.{ℕ}
use Prim.Native.String.{String}
use mathlib.Core.Bool.{Bool}
use mathlib.Core.Option.{Option}
use mathlib.Core.List.{List}
use ecotrack_api.Db.Enums.{
  UserRole, IncidentCategory, IncidentSeverity, VerificationStatus, TaskPriority, TaskStatus,
  AssignmentStatus, EventStatus, JoinRequestStatus, DispatchKind, NotificationType,
}

-- columns.helpers.ts. Coordinates are only stored and handed to PostGIS: in whole units, from an
-- origin at which they are not negative.
pub record GeographyPoint : Type 0 where
  pub lat : ℕ
  pub lng : ℕ

-- users.schema.ts
pub record NotificationPreferences : Type 0 where
  -- none where the stored object has no such key
  pub task_assigned : Option Bool
  pub schedule_changed : Option Bool
  pub cleanup_scheduled : Option Bool

pub record UserRow : Type 0 where
  pub id : ℕ
  pub auth_subject : String
  pub email : String
  pub full_name : String
  pub role : UserRole
  pub organisation_id : Option ℕ
  pub is_platform_admin : Bool
  pub is_active : Bool
  pub push_token : Option String
  pub home_location : Option GeographyPoint
  pub notification_preferences : NotificationPreferences
  pub notification_radius_meters : ℕ
  pub notification_min_urgency : IncidentSeverity
  pub alert_center : Option GeographyPoint
  pub alert_center_updated_at : Option ℕ
  pub created_at : ℕ
  pub updated_at : ℕ

-- organisations.schema.ts
pub record OrganisationRow : Type 0 where
  pub id : ℕ
  pub name : String
  -- the character codes of the slug
  pub slug : List ℕ
  pub description : Option String
  pub contact_email : String
  pub is_active : Bool
  pub service_area_center : Option GeographyPoint
  pub service_area_radius_km : Option ℕ
  pub updated_at : ℕ

-- workflow.schema.ts
pub record WorkflowStageRow : Type 0 where
  pub id : ℕ
  pub organisation_id : ℕ
  pub name : String
  -- the character codes of the slug
  pub slug : List ℕ
  pub description : Option String
  pub color : String
  pub position : ℕ
  pub is_final : Bool
  pub updated_at : ℕ

-- workflow-stage-rules.schema.ts
pub record WorkflowStageRuleRow : Type 0 where
  pub organisation_id : ℕ
  pub task_creation_min_stage_id : Option ℕ
  pub task_creation_target_stage_id : Option ℕ
  pub event_creation_min_stage_id : Option ℕ
  pub event_creation_target_stage_id : Option ℕ
  pub task_completion_target_stage_id : Option ℕ
  pub event_completion_target_stage_id : Option ℕ
  pub updated_at : ℕ

-- incidents.schema.ts
pub record IncidentRow : Type 0 where
  pub id : ℕ
  pub organisation_id : Option ℕ
  pub reported_by_user_id : Option ℕ
  pub title : String
  pub description : String
  pub category : IncidentCategory
  pub severity : IncidentSeverity
  pub location : GeographyPoint
  pub address : Option String
  pub verification_status : Option VerificationStatus
  pub current_stage_id : Option ℕ
  pub rejection_reason : Option String
  pub duplicate_of_id : Option ℕ
  pub claimed_by_user_id : Option ℕ
  pub claimed_at : Option ℕ
  pub version : ℕ
  pub created_at : ℕ
  pub updated_at : ℕ

pub record IncidentImageRow : Type 0 where
  pub id : ℕ
  pub incident_id : ℕ
  pub url : String

-- tasks.schema.ts
pub record TaskRow : Type 0 where
  pub id : ℕ
  pub organisation_id : ℕ
  pub incident_id : ℕ
  pub title : String
  pub description : Option String
  pub priority : TaskPriority
  pub due_date : ℕ
  pub status : TaskStatus
  pub started_at : Option ℕ
  pub completed_at : Option ℕ
  pub created_by_user_id : Option ℕ
  pub created_at : ℕ
  pub updated_at : ℕ

pub record TaskAssignmentRow : Type 0 where
  pub id : ℕ
  pub organisation_id : ℕ
  pub task_id : ℕ
  pub volunteer_user_id : ℕ
  pub status : AssignmentStatus
  pub responded_at : Option ℕ
  pub decline_reason : Option String
  pub updated_at : ℕ

pub record TaskNoteRow : Type 0 where
  pub id : ℕ
  pub organisation_id : ℕ
  pub task_id : ℕ
  pub author_user_id : Option ℕ
  pub note : String
  pub created_at : ℕ

pub record TaskPhotoRow : Type 0 where
  pub id : ℕ
  pub organisation_id : ℕ
  pub task_id : ℕ
  pub url : String
  pub uploaded_by_user_id : Option ℕ

-- events.schema.ts
pub record EventRow : Type 0 where
  pub id : ℕ
  pub organisation_id : ℕ
  pub title : String
  pub description : Option String
  pub location : GeographyPoint
  pub scheduled_at : ℕ
  pub ends_at : ℕ
  pub max_attendees : Option ℕ
  pub status : EventStatus
  pub rsvp_count : ℕ
  pub created_by_user_id : Option ℕ
  pub updated_at : ℕ

pub record EventIncidentRow : Type 0 where
  pub organisation_id : ℕ
  pub event_id : ℕ
  pub incident_id : ℕ

pub record EventRsvpRow : Type 0 where
  pub organisation_id : ℕ
  pub event_id : ℕ
  pub user_id : ℕ
  pub rsvped_at : ℕ

-- join-requests.schema.ts
pub record JoinRequestRow : Type 0 where
  pub id : ℕ
  pub organisation_id : ℕ
  pub user_id : ℕ
  pub message : Option String
  pub status : JoinRequestStatus
  pub created_at : ℕ
  pub updated_at : ℕ

-- invite-links.schema.ts
pub record InviteLinkRow : Type 0 where
  pub id : ℕ
  pub organisation_id : ℕ
  pub token_hash : String
  pub max_uses : Option ℕ
  pub uses_count : ℕ
  pub expires_at : ℕ
  pub created_by_user_id : Option ℕ
  pub revoked_at : Option ℕ
  pub created_at : ℕ
  pub updated_at : ℕ

-- invitations.schema.ts
pub record InvitationRow : Type 0 where
  pub id : ℕ
  pub organisation_id : ℕ
  pub email : String
  pub invited_full_name : Option String
  pub role : UserRole
  pub token : String
  pub invited_by_user_id : Option ℕ
  pub expires_at : ℕ
  pub accepted_at : Option ℕ
  pub created_at : ℕ
  pub updated_at : ℕ

-- notification-dispatches.schema.ts
pub record DispatchRow : Type 0 where
  pub id : ℕ
  pub kind : DispatchKind
  pub entity_type : String
  pub entity_id : ℕ
  pub due_at : ℕ
  pub dispatched_at : Option ℕ
  pub attempts : ℕ
  pub updated_at : ℕ

-- notifications.schema.ts
pub record NotificationRow : Type 0 where
  pub id : ℕ
  pub user_id : ℕ
  pub organisation_id : Option ℕ
  pub type : NotificationType
  pub title : String
  pub message : String
  pub related_entity_type : Option String
  pub related_entity_id : Option ℕ
  pub is_read : Bool
  pub created_at : ℕ
  pub updated_at : ℕ

-- audit.schema.ts. The jsonb column holds the keys and values that the services write.
pub data MetaValue : Type 0 where
  null : MetaValue
  uuid : ℕ → MetaValue
  uuids : List ℕ → MetaValue
  text : String → MetaValue
  number : ℕ → MetaValue
  flag : Bool → MetaValue

pub record AuditLogRow : Type 0 where
  pub id : ℕ
  pub organisation_id : Option ℕ
  pub acting_user_id : Option ℕ
  pub action : String
  pub entity_type : String
  pub entity_id : Option ℕ
  pub metadata : Option (List (String × MetaValue))
  pub created_at : ℕ
