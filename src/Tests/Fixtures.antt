-- ===== src/Tests/Fixtures.antt =====
-- A small database for the examples: organisation 1 with three stages, an incident in the pool and
-- two that it has claimed, two volunteers and an event.
use Prim.Native.String.{String}
use ecotrack_api.Common.{Bool, [], codes, false, none, some, true, ℕ, ◌∷◌}
use ecotrack_api.Db.{
  Db, DispatchKind, DispatchRow, EventRow, EventRsvpRow, EventStatus, GeographyPoint,
  IncidentCategory, IncidentRow, IncidentSeverity, OrganisationRow, Request, UserRole, UserRow,
  VerificationStatus, WorkflowStageRow, err, ok,
}
use ecotrack_api.Workflow.Slug.{slugify}

abbrev pub here_point : GeographyPoint
here_point = record { lat = 10; lng = 20 }

abbrev pub stage : ℕ → String → ℕ → Bool → WorkflowStageRow
stage id name position is_final = record {
  id = id;
  organisation_id = 1;
  name = name;
  slug = slugify (codes name);
  description = none;
  color = "#111111";
  position = position;
  is_final = is_final;
  updated_at = 0;
}

abbrev pub reported : WorkflowStageRow
reported = stage 101 "Reported" 0 false

abbrev pub claimed : WorkflowStageRow
claimed = stage 102 "Claimed" 1 false

abbrev pub resolved : WorkflowStageRow
resolved = stage 103 "Resolved" 2 true

abbrev pub pooled_incident : IncidentRow
pooled_incident = record {
  id = 10;
  organisation_id = none;
  reported_by_user_id = some 7;
  title = "Tyres by the creek";
  description = "";
  category = IncidentCategory.illegal_dumping;
  severity = IncidentSeverity.high;
  location = here_point;
  address = none;
  verification_status = none;
  current_stage_id = none;
  rejection_reason = none;
  duplicate_of_id = none;
  claimed_by_user_id = none;
  claimed_at = none;
  version = 0;
  created_at = 0;
  updated_at = 0;
}

abbrev pub claimed_incident : ℕ → IncidentRow
claimed_incident id = record pooled_incident {
  id = id;
  organisation_id = some 1;
  verification_status = some VerificationStatus.approved;
  current_stage_id = some 102;
  claimed_by_user_id = some 2;
  claimed_at = some 5;
  version = 1;
}

abbrev pub user : ℕ → UserRole → UserRow
user id role = record {
  id = id;
  auth_subject = "subject";
  email = "someone@example.org";
  full_name = "Someone";
  role = role;
  organisation_id = some 1;
  is_platform_admin = false;
  is_active = true;
  push_token = none;
  home_location = none;
  notification_preferences = record {
    task_assigned = some true;
    schedule_changed = some true;
    cleanup_scheduled = some false;
  };
  notification_radius_meters = 10000;
  notification_min_urgency = IncidentSeverity.high;
  alert_center = none;
  alert_center_updated_at = none;
  created_at = 0;
  updated_at = 0;
}

abbrev pub green_creek : OrganisationRow
green_creek = record {
  id = 1;
  name = "Green Creek";
  slug = codes "green-creek";
  description = none;
  contact_email = "office@example.org";
  is_active = true;
  service_area_center = some here_point;
  service_area_radius_km = some 10;
  updated_at = 0;
}

abbrev pub cleanup : EventRow
cleanup = record {
  id = 30;
  organisation_id = 1;
  title = "Creek cleanup";
  description = none;
  location = here_point;
  scheduled_at = 200;
  ends_at = 300;
  max_attendees = some 2;
  status = EventStatus.scheduled;
  rsvp_count = 1;
  created_by_user_id = some 2;
  updated_at = 0;
}

abbrev pub going : ℕ → EventRsvpRow
going user_id = record { organisation_id = 1; event_id = 30; user_id = user_id; rsvped_at = 50 }

abbrev pub alert : DispatchRow
alert = record {
  id = 40;
  kind = DispatchKind.incident_proximity;
  entity_type = "incident";
  entity_id = 10;
  due_at = 90;
  dispatched_at = none;
  attempts = 0;
  updated_at = 0;
}

abbrev pub base : Db
base = record {
  clock = 100;
  next_id = 1000;
  users = user 2 UserRole.org_admin ∷ user 5 UserRole.volunteer ∷ user 6 UserRole.volunteer ∷ [];
  organisations = green_creek ∷ [];
  workflow_stages = reported ∷ claimed ∷ resolved ∷ [];
  workflow_stage_rules = [];
  incidents = pooled_incident ∷ claimed_incident 11 ∷ claimed_incident 12 ∷ [];
  incident_images = [];
  tasks = [];
  task_assignments = [];
  task_notes = [];
  task_photos = [];
  events = cleanup ∷ [];
  event_incidents = [];
  event_rsvps = going 5 ∷ [];
  join_requests = [];
  invite_links = [];
  invitations = [];
  notification_dispatches = alert ∷ [];
  notifications = [];
  audit_logs = [];
}

-- The state that a request leaves; the state before, where it throws.
abbrev pub state_after : {A : Type 0} → Request A → Db → Db
state_after m db = elim (m db) [ ok (_, db') ↦ db' | err _ ↦ db ]
