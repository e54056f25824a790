-- ===== src/Events/Status.antt =====
-- The life cycle of an event: `updateStatus` of src/modules/events/events.service.ts.
use ecotrack_api.Common.{
  Bool, List, String, [], any, none, not, select, some, update_where, ℕ, ◌<>◌, ◌∷◌,
}
use ecotrack_api.Db.{
  EventRow, EventRsvpRow, EventStatus, NotificationType, Request, bad_request, execute, for_each,
  pure, query, same_event_status, throw_if, when_some, ◌>>=◌, ◌>>◌,
}
use ecotrack_api.Events.{
  EventFull, cancel_reminder, event_entry, find_event, find_scoped_event, is_event, linked,
  rsvp_for,
}
use ecotrack_api.Incidents.{find_scoped_incident}
use ecotrack_api.Incidents.Advance.{auto_advance}
use ecotrack_api.Platform.Audit.{record_audit}
use ecotrack_api.Platform.Notifications.{Notice, notify}
use ecotrack_api.Workflow.Rules.{StageRuleTrigger}
use ecotrack_api.Workflow.Stages.{find_by_id}

-- VALID_TRANSITIONS
abbrev pub valid_transitions : EventStatus → List EventStatus
valid_transitions EventStatus.scheduled = EventStatus.ongoing ∷ EventStatus.cancelled ∷ []
valid_transitions EventStatus.ongoing = EventStatus.completed ∷ EventStatus.cancelled ∷ []
valid_transitions EventStatus.completed = []
valid_transitions EventStatus.cancelled = []

abbrev pub can_move : EventStatus → EventStatus → Bool
can_move from to = any (same_event_status to) (valid_transitions from)

abbrev pub status_row : ℕ → EventStatus → EventRow → EventRow
status_row now status e = record e { status = status; updated_at = now }

-- event.${status}
abbrev pub status_action : EventStatus → String
status_action EventStatus.scheduled = "event.scheduled"
status_action EventStatus.ongoing = "event.ongoing"
status_action EventStatus.completed = "event.completed"
status_action EventStatus.cancelled = "event.cancelled"

abbrev pub cancelled_notice : ℕ → EventRow → EventRsvpRow → Notice
cancelled_notice organisation_id e r = record {
  user_id = r.user_id;
  organisation_id = some organisation_id;
  type = NotificationType.event_cancelled;
  title = "Event cancelled";
  message = "\"" <> e.title <> "\" has been cancelled.";
  related_entity_type = some "event";
  related_entity_id = some e.id;
}

unfoldable pub announce_cancellation : ℕ → EventRow → Request (Unit {0})
announce_cancellation organisation_id e = do
  cancel_reminder e.id
  rsvps ← query λ db. select (rsvp_for e.id) db.event_rsvps
  for_each rsvps λ r. notify (cancelled_notice organisation_id e r)

-- The advance of one linked incident of a completed event.
unfoldable pub complete_incident : ℕ → ℕ → ℕ → Request (Unit {0})
complete_incident organisation_id acting_user_id incident_id = do
  incident ← find_scoped_incident organisation_id incident_id
  when_some incident.current_stage_id λ at. do
    current ← find_by_id at
    auto_advance organisation_id incident.id StageRuleTrigger.event_completion current
        acting_user_id "event.completed"

unfoldable pub complete_incidents : ℕ → ℕ → ℕ → Request (Unit {0})
complete_incidents organisation_id event_id acting_user_id = do
  ids ← query λ db. linked event_id db.event_incidents
  for_each ids (complete_incident organisation_id acting_user_id)

unfoldable pub consequences : ℕ → EventRow → EventStatus → ℕ → Request (Unit {0})
consequences organisation_id e EventStatus.cancelled acting_user_id =
    announce_cancellation organisation_id e
consequences organisation_id e EventStatus.completed acting_user_id =
    complete_incidents organisation_id e.id acting_user_id
consequences organisation_id e _ acting_user_id = pure tt

unfoldable pub update_status : ℕ → ℕ → EventStatus → ℕ → Request EventFull
update_status organisation_id event_id status acting_user_id = do
  full ← find_scoped_event organisation_id event_id
  throw_if (not (can_move full.event.status status))
      (bad_request "Cannot move an event between these statuses.")
  execute λ db. record db {
    events = update_where (is_event event_id) (status_row db.clock status) db.events;
  }
  record_audit (event_entry organisation_id acting_user_id (status_action status) event_id none)
  consequences organisation_id full.event status acting_user_id
  find_event event_id
