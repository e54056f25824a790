-- ===== src/Events.antt =====
-- EventsService, src/modules/events/events.service.ts: lookups, the list and the reminder. The
-- children hold creation, the status machine and attendance.
pub mod Creation
pub mod Status
pub mod Attendance
pub mod Capacity
pub mod Attendees
pub mod Transitions
use ecotrack_api.Common.{
  Bool, List, Option, String, [], any, find, leb, map, none, not, select, some, sort_by, ℕ, ◌&&◌,
  ◌-◌, ◌==◌, ◌∷◌,
}
use ecotrack_api.Db.{
  Db, DispatchKind, EventIncidentRow, EventRow, EventRsvpRow, EventStatus, HttpException,
  IncidentRow, MetaValue, Request, UserRow, not_found, or_throw, pure, query, same_event_status,
  throw_if, when, ◌>>=◌, ◌>>◌,
}
use ecotrack_api.Incidents.{find_incident}
use ecotrack_api.Platform.Audit.{AuditEntry, Paginated, paginate}
use ecotrack_api.Platform.Outbox.{cancel, schedule}

abbrev pub event_not_found : HttpException
event_not_found = not_found "Event not found"

abbrev pub is_event : ℕ → EventRow → Bool
is_event id e = e.id == id

abbrev pub event_by_id : ℕ → Db → Option EventRow
event_by_id id db = find (is_event id) db.events

abbrev pub rsvp_for : ℕ → EventRsvpRow → Bool
rsvp_for event_id r = r.event_id == event_id

abbrev pub link_of : ℕ → EventIncidentRow → Bool
link_of event_id l = l.event_id == event_id

-- The ids of the incidents linked to an event.
unfoldable pub linked : ℕ → List EventIncidentRow → List ℕ
linked event_id rows =
    map (λ (l : EventIncidentRow). l.incident_id) (select (link_of event_id) rows)

-- EventFull: the row with its incidents, and its RSVPs each with its user.
pub record EventFull : Type 0 where
  pub event : EventRow
  pub incidents : List IncidentRow
  pub rsvps : List (EventRsvpRow × Option UserRow)

-- `for (const incidentId of incidentIds) linkedIncidents.push(await findById(incidentId))`
unfoldable pub find_incidents : List ℕ → Request (List IncidentRow)
find_incidents [] = pure []
find_incidents (id ∷ ids) = do
  incident ← find_incident id
  rest ← find_incidents ids
  pure (incident ∷ rest)

unfoldable pub attendees : ℕ → Db → List (EventRsvpRow × Option UserRow)
attendees event_id db =
    map (λ (r : EventRsvpRow). (r, find (λ (u : UserRow). u.id == r.user_id) db.users))
      (select (rsvp_for event_id) db.event_rsvps)

unfoldable pub find_event : ℕ → Request EventFull
find_event id = do
  found ← query (event_by_id id)
  event ← or_throw found event_not_found
  ids ← query λ db. linked id db.event_incidents
  incidents ← find_incidents ids
  rsvps ← query (attendees id)
  pure (record { event = event; incidents = incidents; rsvps = rsvps })

abbrev pub find_scoped_event : ℕ → ℕ → Request EventFull
find_scoped_event organisation_id event_id = do
  full ← find_event event_id
  throw_if (not (full.event.organisation_id == organisation_id)) event_not_found
  pure full

-- 24 * 60 * 60 * 1000
abbrev pub reminder_lead : ℕ
reminder_lead = 86400000

-- `scheduleReminder`. An event within a day schedules nothing.
unfoldable pub schedule_reminder : ℕ → ℕ → Request (Unit {0})
schedule_reminder event_id scheduled_at = do
  now ← query λ db. db.clock
  when (not (leb (scheduled_at - reminder_lead) now))
      (schedule DispatchKind.event_reminder "event" event_id (scheduled_at - reminder_lead))

abbrev pub cancel_reminder : ℕ → Request (Unit {0})
cancel_reminder event_id = cancel DispatchKind.event_reminder event_id

abbrev pub event_entry : ℕ → ℕ → String → ℕ → Option (List (String × MetaValue)) → AuditEntry
event_entry organisation_id acting_user_id action entity_id metadata = record {
  organisation_id = some organisation_id;
  acting_user_id = some acting_user_id;
  action = action;
  entity_type = "event";
  entity_id = some entity_id;
  metadata = metadata;
}

-- The condition of `listForOrganisation`.
abbrev pub shown : ℕ → Option EventStatus → EventRow → Bool
shown organisation_id none e = e.organisation_id == organisation_id
shown organisation_id (some status) e =
    e.organisation_id == organisation_id && same_event_status e.status status

abbrev pub is_rsvp : ℕ → ℕ → EventRsvpRow → Bool
is_rsvp event_id user_id r = r.event_id == event_id && r.user_id == user_id

-- A page of events, each with `rsvpedByMe`.
unfoldable pub list_for_organisation :
    ℕ → ℕ → ℕ → ℕ → Option EventStatus → Request (Paginated (EventRow × Bool))
unfolding paginate
list_for_organisation organisation_id user_id page limit status = query λ db.
    let rows = select (shown organisation_id status) db.events in
    paginate
      (map (λ (e : EventRow). (e, any (is_rsvp e.id user_id) db.event_rsvps))
        (sort_by (λ (e : EventRow). e.scheduled_at) rows))
      page limit
