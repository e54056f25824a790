-- ===== src/Events/Attendance.antt =====
-- Who attends an event: `rsvp` and `cancelRsvp` of src/modules/events/events.service.ts. The row lock
-- that both take on the event makes them one step each.
use ecotrack_api.Common.{
  Bool, Option, [], any, delete_where, false, find, leb, none, not, some, update_where, ℕ, ◌&&◌,
  ◌++◌, ◌+◌, ◌-◌, ◌==◌, ◌∷◌,
}
use ecotrack_api.Db.{
  EventRow, EventStatus, Request, bad_request, conflict, execute, gone, or_throw, pure, query,
  throw, throw_if, when, ◌>>=◌, ◌>>◌,
}
use ecotrack_api.Events.{EventFull, event_entry, event_not_found, find_event, is_event, is_rsvp}
use ecotrack_api.Platform.Audit.{record_audit}

abbrev pub is_scoped_event : ℕ → ℕ → EventRow → Bool
is_scoped_event organisation_id event_id e =
    e.id == event_id && e.organisation_id == organisation_id

-- `maxAttendees !== null && rsvpCount >= maxAttendees`
abbrev pub is_full : Option ℕ → ℕ → Bool
is_full none count = false
is_full (some capacity) count = leb capacity count

abbrev pub count_up : ℕ → EventRow → EventRow
count_up now e = record e { rsvp_count = e.rsvp_count + 1; updated_at = now }

-- `GREATEST(rsvp_count - 1, 0)`: subtraction on ℕ.
abbrev pub count_down : ℕ → EventRow → EventRow
count_down now e = record e { rsvp_count = e.rsvp_count - 1; updated_at = now }

abbrev pub assert_open : EventStatus → Request (Unit {0})
assert_open EventStatus.cancelled = throw (gone "This event has been cancelled.")
assert_open EventStatus.completed = throw (bad_request "This event has already taken place.")
assert_open _ = pure tt

-- The writes of `rsvp` for a volunteer who is not going yet.
unfoldable pub join_event : ℕ → EventRow → ℕ → Request (Unit {0})
join_event organisation_id e user_id = do
  throw_if (is_full e.max_attendees e.rsvp_count) (conflict "This event has reached capacity.")
  execute λ db. record db {
    event_rsvps =
        db.event_rsvps
        ++ record {
          organisation_id = organisation_id;
          event_id = e.id;
          user_id = user_id;
          rsvped_at = db.clock;
        }
          ∷ [];
  }
  execute λ db. record db { events = update_where (is_event e.id) (count_up db.clock) db.events }
  record_audit (event_entry organisation_id user_id "event.rsvp" e.id none)

unfoldable pub rsvp : ℕ → ℕ → ℕ → Request EventFull
rsvp organisation_id event_id user_id = do
  found ← query λ db. find (is_scoped_event organisation_id event_id) db.events
  event ← or_throw found event_not_found
  assert_open event.status
  going ← query λ db. any (is_rsvp event_id user_id) db.event_rsvps
  when (not going) (join_event organisation_id event user_id)
  find_event event_id

-- The writes of `cancelRsvp` once a row has been deleted.
unfoldable pub leave_event : ℕ → ℕ → ℕ → Request (Unit {0})
leave_event organisation_id event_id user_id = do
  execute
      λ db. record db { events = update_where (is_event event_id) (count_down db.clock) db.events }
  record_audit (event_entry organisation_id user_id "event.rsvp_cancelled" event_id none)

unfoldable pub cancel_rsvp : ℕ → ℕ → ℕ → Request EventFull
cancel_rsvp organisation_id event_id user_id = do
  found ← query λ db. find (is_scoped_event organisation_id event_id) db.events
  event ← or_throw found event_not_found
  going ← query λ db. any (is_rsvp event_id user_id) db.event_rsvps
  execute λ db. record db { event_rsvps = delete_where (is_rsvp event_id user_id) db.event_rsvps }
  when going (leave_event organisation_id event_id user_id)
  find_event event_id
