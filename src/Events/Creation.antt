-- ===== src/Events/Creation.antt =====
-- EventsService.create, src/modules/events/events.service.ts.
use ecotrack_api.Common.{Bool, List, Option, String, [], any, false, some, ℕ, ◌++◌, ◌==◌, ◌||◌, ◌∷◌}
use ecotrack_api.Db.{
  EventIncidentRow, EventRow, EventStatus, GeographyPoint, MetaValue, Request, WorkflowStageRow,
  bad_request, execute, for_each, fresh_id, internal, or_throw, pure, query, throw_if, ◌>>=◌, ◌>>◌,
}
use ecotrack_api.Events.{EventFull, event_entry, find_event, schedule_reminder}
use ecotrack_api.Incidents.{find_scoped_incident}
use ecotrack_api.Incidents.Advance.{auto_advance}
use ecotrack_api.Platform.Audit.{record_audit}
use ecotrack_api.Tasks.Creation.{approved_stage}
use ecotrack_api.Workflow.Rules.{CreationTrigger, StageRuleTrigger, assert_required_stage}
use ecotrack_api.Workflow.Stages.{find_by_id}

-- CreateEventDto
pub record CreateEvent : Type 0 where
  pub incident_ids : List ℕ
  pub title : String
  pub description : Option String
  pub location : GeographyPoint
  pub scheduled_at : ℕ
  pub ends_at : ℕ
  pub max_attendees : Option ℕ

-- The loop that validates every incident and gathers its current stage, before any write.
unfoldable pub gather : ℕ → List ℕ → Request (List (ℕ × WorkflowStageRow))
gather organisation_id [] = pure []
gather organisation_id (incident_id ∷ ids) = do
  incident ← find_scoped_incident organisation_id incident_id
  at ←
      or_throw (approved_stage incident)
        (bad_request "Incident can only be linked to an event once claimed")
  current ← find_by_id at
  assert_required_stage organisation_id CreationTrigger.event_creation current
  rest ← gather organisation_id ids
  pure ((incident_id, current) ∷ rest)

abbrev pub new_event : ℕ → ℕ → ℕ → ℕ → CreateEvent → EventRow
new_event now id organisation_id created_by_user_id d = record {
  id = id;
  organisation_id = organisation_id;
  title = d.title;
  description = d.description;
  location = d.location;
  scheduled_at = d.scheduled_at;
  ends_at = d.ends_at;
  max_attendees = d.max_attendees;
  status = EventStatus.scheduled;
  rsvp_count = 0;
  created_by_user_id = some created_by_user_id;
  updated_at = now;
}

-- PRIMARY KEY (event_id, incident_id): the list of a new event's links may not repeat an incident.
unfoldable pub repeats : List ℕ → Bool
repeats [] = false
repeats (id ∷ ids) = any (λ other. other == id) ids || repeats ids

unfoldable pub links_from : ℕ → ℕ → List ℕ → List EventIncidentRow
links_from organisation_id event_id [] = []
links_from organisation_id event_id (id ∷ ids) =
    record { organisation_id = organisation_id; event_id = event_id; incident_id = id }
    ∷ links_from organisation_id event_id ids

-- The inserts of `create`.
unfoldable pub write_event : ℕ → ℕ → CreateEvent → Request EventRow
write_event organisation_id created_by_user_id d = do
  now ← query λ db. db.clock
  id ← fresh_id
  let saved = new_event now id organisation_id created_by_user_id d
  execute λ db. record db { events = db.events ++ saved ∷ [] }
  throw_if (repeats d.incident_ids) (internal "duplicate key value violates unique constraint")
  execute λ db. record db {
    event_incidents = db.event_incidents ++ links_from organisation_id id d.incident_ids;
  }
  schedule_reminder id d.scheduled_at
  record_audit (
      event_entry organisation_id created_by_user_id "event.created" id
        (some (("incidentIds", MetaValue.uuids d.incident_ids) ∷ [])))
  pure saved

unfoldable pub create_event : ℕ → ℕ → CreateEvent → Request EventFull
create_event organisation_id created_by_user_id d = do
  stages ← gather organisation_id d.incident_ids
  saved ← write_event organisation_id created_by_user_id d
  for_each stages λ (incident_id, current).
      auto_advance organisation_id incident_id StageRuleTrigger.event_creation current
        created_by_user_id "event.created"
  find_event saved.id
