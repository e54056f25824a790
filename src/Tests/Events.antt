-- ===== src/Tests/Events.antt =====
-- Events and the outbox on the small database.
use ecotrack_api.Common.{
  List, [], any, arith, count_where, delete_where, find, map, refl, select, some, true,
  update_where, ℕ, ◌∷◌, ◌≡◌,
}
use ecotrack_api.Db.{Db, EventRow, EventRsvpRow, EventStatus, UserRole}
use ecotrack_api.Events.{EventFull, attendees, event_by_id, find_event, find_incidents, linked}
use ecotrack_api.Events.Attendance.{cancel_rsvp, join_event, leave_event, rsvp}
use ecotrack_api.Events.Attendees.{cancel_rsvp-AttendanceOk, rsvp-AttendanceOk}
use ecotrack_api.Events.Capacity.{AttendanceOk}
use ecotrack_api.Events.Status.{can_move, consequences, status_row, update_status}
use ecotrack_api.Events.Transitions.{update_status-moves}
use ecotrack_api.Platform.Outbox.{claim_batch}
use ecotrack_api.Tests.Fixtures.{base, cleanup, going, state_after, user}

base-AttendanceOk : AttendanceOk base
unfolding count_where
base-AttendanceOk = record {
  unique = (tt, tt);
  counted = (refl, tt);
  capped = (refl, tt);
  once = λ e u. ground arith;
}

abbrev event_with : ℕ → List EventRsvpRow → EventFull
event_with count rows = record {
  event = record cleanup { rsvp_count = count; updated_at = 100 };
  incidents = [];
  rsvps = map (λ (r : EventRsvpRow). (r, some (user r.user_id UserRole.volunteer))) rows;
}

abbrev after_rsvp : Db
after_rsvp = state_after (rsvp 1 30 6) base

rsvp-AttendanceOk_example : AttendanceOk after_rsvp
unfolding rsvp join_event find_event find_incidents linked attendees select find any update_where
rsvp-AttendanceOk_example =
    rsvp-AttendanceOk 1 30 6 base after_rsvp
      (event_with 2 (going 5 ∷ record (going 6) { rsvped_at = 100 } ∷ [])) base-AttendanceOk refl

abbrev after_withdrawal : Db
after_withdrawal = state_after (cancel_rsvp 1 30 5) base

cancel_rsvp-AttendanceOk_example : AttendanceOk after_withdrawal
unfolding cancel_rsvp leave_event find_event find_incidents linked attendees select find any
    update_where delete_where
cancel_rsvp-AttendanceOk_example =
    cancel_rsvp-AttendanceOk 1 30 5 base after_withdrawal (event_with 0 []) base-AttendanceOk refl

abbrev after_start : Db
after_start = state_after (update_status 1 30 EventStatus.ongoing 2) base

update_status-moves_example :
    (e : EventRow) × (event_by_id 30 base ≡ some e)
    × (e.organisation_id ≡ 1)
    × (can_move e.status EventStatus.ongoing ≡ true)
    × (event_by_id 30 after_start ≡ some (status_row 100 EventStatus.ongoing e))
unfolding update_status consequences find_event find_incidents linked attendees select find any
    update_where
update_status-moves_example =
    update_status-moves 1 30 EventStatus.ongoing 2 base after_start
      (record {
        event = status_row 100 EventStatus.ongoing cleanup;
        incidents = [];
        rsvps = (going 5, some (user 5 UserRole.volunteer)) ∷ [];
      })
      refl

abbrev after_poll : Db
after_poll = state_after (claim_batch (λ xs. xs)) base
