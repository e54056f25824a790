-- ===== src/Events/Transitions.antt =====
-- The status machine of src/modules/events/events.service.ts over a whole `updateStatus`: what its
-- consequences leave alone, and the status that it leaves behind.
use ecotrack_api.Common.{
  ==_iff, Bool-cases, List, arith, find-update_found, find_holds, inl, inr, none, refl, select,
  some, true, update_where, ℕ, ◌≡◌,
}
use ecotrack_api.Db.{
  >>=-eq-ok, AuditLogRow, Db, EventRow, EventStatus, IncidentRow, Keeps, Keeps->>=, Keeps-eq,
  Keeps-for_each, Keeps-pure, Keeps-query, Keeps-when_some, WorkflowStageRuleRow, ok, query, ◌>>◌,
}
use ecotrack_api.Events.{
  EventFull, cancel_reminder, event_by_id, event_entry, find_event, find_scoped_event, is_event,
  linked, rsvp_for,
}
use ecotrack_api.Events.Capacity.{find_event_found, find_event_state}
use ecotrack_api.Events.Status.{
  announce_cancellation, can_move, cancelled_notice, complete_incident, complete_incidents,
  consequences, status_action, status_row, update_status,
}
use ecotrack_api.Incidents.{find_scoped_incident}
use ecotrack_api.Incidents.Frames.{
  advanced_parts, auto_advance-Keeps, find_by_id-Keeps, find_scoped_incident-Keeps,
}
use ecotrack_api.Platform.Audit.{append_log}
use ecotrack_api.Platform.Notifications.{Notice, notify}
use ecotrack_api.Workflow.Rules.{StageRuleTrigger}
use ecotrack_api.Workflow.Stages.{find_by_id}

-- The table of events.
abbrev event_table : Db → List EventRow
event_table db = db.events

-- Advancing an incident does not touch it.
event_table_blind :
    (db : Db) (n : ℕ) (is : List IncidentRow) (rs : List WorkflowStageRuleRow)
    (ls : List AuditLogRow)
    → event_table (advanced_parts n is rs ls db) ≡ event_table db
event_table_blind db n is rs ls = refl

complete_incident-Keeps :
    (organisation_id user_id id : ℕ)
    → Keeps event_table (complete_incident organisation_id user_id id)
unfolding complete_incident
complete_incident-Keeps organisation_id user_id id =
    Keeps->>= event_table (find_scoped_incident organisation_id id) _
      (find_scoped_incident-Keeps event_table event_table_blind organisation_id id)
      (λ i. Keeps-when_some event_table i.current_stage_id _ (λ at.
        Keeps->>= event_table (find_by_id at) _ (find_by_id-Keeps event_table event_table_blind at)
          (λ current.
            auto_advance-Keeps event_table event_table_blind organisation_id i.id
              StageRuleTrigger.event_completion current user_id "event.completed")))

notify-Keeps : (n : Notice) → Keeps event_table (notify n)
unfolding Keeps
notify-Keeps n db db' r h = ground arith

cancel_reminder-Keeps : (id : ℕ) → Keeps event_table (cancel_reminder id)
unfolding Keeps
cancel_reminder-Keeps id db db' r h = ground arith

consequences-Keeps :
    (organisation_id : ℕ) (e : EventRow) (status : EventStatus) (user_id : ℕ)
    → Keeps event_table (consequences organisation_id e status user_id)
unfolding consequences announce_cancellation complete_incidents
consequences-Keeps organisation_id e EventStatus.cancelled user_id =
    Keeps->>= event_table (cancel_reminder e.id) _ (cancel_reminder-Keeps e.id) (λ _.
      Keeps->>= event_table (query λ db. select (rsvp_for e.id) db.event_rsvps) _
        (Keeps-query event_table _)
        (λ rsvps.
          Keeps-for_each event_table rsvps (λ r. notify (cancelled_notice organisation_id e r))
            (λ r. notify-Keeps (cancelled_notice organisation_id e r))))
consequences-Keeps organisation_id e EventStatus.completed user_id =
    Keeps->>= event_table (query λ db. linked e.id db.event_incidents) _ (Keeps-query event_table _)
      (λ ids.
        Keeps-for_each event_table ids (complete_incident organisation_id user_id)
          (complete_incident-Keeps organisation_id user_id))
consequences-Keeps organisation_id e EventStatus.scheduled user_id = Keeps-pure event_table tt
consequences-Keeps organisation_id e EventStatus.ongoing user_id = Keeps-pure event_table tt

-- `findScoped` succeeds on an event of the organisation, and changes nothing.
scoped_event_found :
    (organisation_id event_id : ℕ) (db s : Db) (full : EventFull)
    → find_scoped_event organisation_id event_id db ≡ ok (full, s)
    → (s ≡ db)
      × (event_by_id event_id db ≡ some full.event)
      × (full.event.organisation_id ≡ organisation_id)
scoped_event_found organisation_id event_id db s full h =
    let (t, e, k) = >>=-eq-ok (find_event event_id) _ db h in
    let same = find_event_state event_id db t.1 t.0 e in
    let found = find_event_found event_id db t.1 t.0 e in (ground arith, ground arith, ground arith)

-- The state between the status write of `updateStatus` and its consequences.
abbrev status_written : ℕ → ℕ → EventStatus → ℕ → Db → Db
status_written organisation_id event_id status user_id db =
    append_log (event_entry organisation_id user_id (status_action status) event_id none)
      (record db {
        events = update_where (is_event event_id) (status_row db.clock status) db.events;
      })

-- A successful `updateStatus` found the event in the organisation and in a status that
-- VALID_TRANSITIONS moves to the new one; afterwards the event has the new status, and is otherwise
-- as it was.
pub update_status-moves :
    (organisation_id event_id : ℕ) (status : EventStatus) (user_id : ℕ) (db db' : Db)
    (r : EventFull)
    → update_status organisation_id event_id status user_id db ≡ ok (r, db')
    → (e : EventRow) × (event_by_id event_id db ≡ some e)
      × (e.organisation_id ≡ organisation_id)
      × (can_move e.status status ≡ true)
      × (event_by_id event_id db' ≡ some (status_row db.clock status e))
unfolding update_status
update_status-moves organisation_id event_id status user_id db db' r h =
    let (s, e, k) = >>=-eq-ok (find_scoped_event organisation_id event_id) _ db h in
    let (same, found, own) = scoped_event_found organisation_id event_id db s.1 s.0 e in
    let middle = status_written organisation_id event_id status user_id db in
    let legal : can_move s.0.event.status status ≡ true =
      elim (Bool-cases (can_move s.0.event.status status)) [
        | inl yes' ↦ yes'
        | inr no' ↦ absurd (ground arith)
      ] in
    let next : (consequences organisation_id s.0.event status user_id >> find_event event_id) middle
        ≡ ok (r, db') =
      rw⁻¹ same (ground arith) in
    let (t, f, g) =
      >>=-eq-ok (consequences organisation_id s.0.event status user_id) _ middle next in
    let kept : t.1.events ≡ middle.events =
      Keeps-eq event_table (consequences organisation_id s.0.event status user_id)
        (consequences-Keeps organisation_id s.0.event status user_id) middle t.1 t.0 f in
    let last : db' ≡ t.1 = find_event_state event_id t.1 db' r g in
    (
      s.0.event,
      found,
      own,
      legal,
      rw (last, kept)
          (find-update_found (λ (y : EventRow). y.id) event_id (is_event event_id)
            (status_row db.clock status) db.events (λ y. refl) found
            (find_holds (is_event event_id) db.events found) (λ y q. (==_iff _ _).0 q)),
    )
