-- ===== src/Dispatch.antt =====
-- The poll of the outbox, src/modules/notifications/dispatch: `runDueDispatches` and the handlers of
-- dispatch-handlers. A poll is one transaction (src/database/system-db.service.ts),
-- in which a statement can fail. The push that
-- `create` starts is left out here; `Push` has it.
pub mod Backlog
pub mod Delivered
pub mod Recipients
use ecotrack_api.Common.{
  Bool, List, Option, String, [], any, false, find, if◌then◌else◌, is_none, none, not, select, some,
  take, ℕ, ◌&&◌, ◌+◌, ◌<>◌, ◌==◌, ◌∷◌,
}
use ecotrack_api.Db.{
  Db, DispatchKind, DispatchRow, EventRow, EventRsvpRow, GeographyPoint, HttpException, IncidentRow,
  IncidentSeverity, NotificationType, Request, Result, TaskAssignmentRow, TaskRow, UserRow, err,
  for_each, internal, is_completed, is_over, ok, query, same_severity, when, when_some, ◌>>=◌, ◌>>◌,
}
use ecotrack_api.Events.{event_by_id, rsvp_for}
use ecotrack_api.Incidents.{incident_by_id}
use ecotrack_api.Platform.Notifications.{Notice, notify}
use ecotrack_api.Platform.Outbox.{claim_batch}
use ecotrack_api.Tasks.{is_task}
use ecotrack_api.Tasks.Assignment.{is_current}

-- SEVERITY_ORDER
abbrev pub severity_order : List IncidentSeverity
severity_order =
    IncidentSeverity.low ∷ IncidentSeverity.medium ∷ IncidentSeverity.high
    ∷ IncidentSeverity.critical ∷ []

-- `indexOf`; none where it is -1.
unfoldable pub index_of : IncidentSeverity → List IncidentSeverity → Option ℕ
index_of severity [] = none
index_of severity (s ∷ rest) =
    let later = index_of severity rest in
    if same_severity s severity then some 0 else elim later [ none ↦ none | some i ↦ some (i + 1) ]

unfoldable pub thresholds_satisfied_by : IncidentSeverity → List IncidentSeverity
unfolding index_of
thresholds_satisfied_by severity = elim (index_of severity severity_order) [
  | none ↦ []
  | some index ↦ take (index + 1) severity_order
]

abbrev pub severity_text : IncidentSeverity → String
severity_text IncidentSeverity.low = "low"
severity_text IncidentSeverity.medium = "medium"
severity_text IncidentSeverity.high = "high"
severity_text IncidentSeverity.critical = "critical"

-- `id <> reference` in SQL: not true where the reference is null.
abbrev pub differs : ℕ → Option ℕ → Bool
differs id none = false
differs id (some other) = not (id == other)

abbrev pub task_due_notice : TaskRow → TaskAssignmentRow → Notice
task_due_notice t a = record {
  user_id = a.volunteer_user_id;
  organisation_id = some t.organisation_id;
  type = NotificationType.task_due_reminder;
  title = "Task due tomorrow";
  message = "\"" <> t.title <> "\" is due tomorrow.";
  related_entity_type = some "task";
  related_entity_id = some t.id;
}

abbrev pub remind_assignee : TaskRow → Request (Unit {0})
remind_assignee t = do
  assignment ← query λ db. find (is_current t.id) db.task_assignments
  when_some assignment (λ a. notify (task_due_notice t a))

-- TaskDueReminderHandler.handle
unfoldable pub handle_task_due : ℕ → Request (Unit {0})
handle_task_due task_id = do
  found ← query λ db. find (is_task task_id) db.tasks
  when_some found (λ t. when (not (is_completed t.status)) (remind_assignee t))

abbrev pub event_notice : EventRow → EventRsvpRow → Notice
event_notice e r = record {
  user_id = r.user_id;
  organisation_id = some e.organisation_id;
  type = NotificationType.event_reminder;
  title = "Event tomorrow";
  message = "\"" <> e.title <> "\" is happening tomorrow.";
  related_entity_type = some "event";
  related_entity_id = some e.id;
}

abbrev pub remind_attendees : EventRow → Request (Unit {0})
remind_attendees e = do
  rsvps ← query λ db. select (rsvp_for e.id) db.event_rsvps
  for_each rsvps (λ r. notify (event_notice e r))

-- EventReminderHandler.handle
unfoldable pub handle_event : ℕ → Request (Unit {0})
handle_event event_id = do
  found ← query (event_by_id event_id)
  when_some found (λ e. when (not (is_over e.status)) (remind_attendees e))

abbrev pub proximity_notice : IncidentRow → UserRow → Notice
proximity_notice i u = record {
  user_id = u.id;
  organisation_id = none;
  type = NotificationType.incident_proximity;
  title = "New " <> severity_text i.severity <> " hazard reported nearby";
  message = i.title;
  related_entity_type = some "incident";
  related_entity_id = some i.id;
}

-- How a handler leaves its transaction, which is none once one of its statements has failed:
-- PostgreSQL then refuses all others.
pub data Tried : Type 0 where
  ended : Option Db → Tried
  thrown : HttpException → Option Db → Tried

abbrev pub settle : Result (Unit {0} × Db) → Tried
settle (ok (_, db)) = Tried.ended (some db)
settle (err e) = Tried.thrown e none

-- Every handler begins with a statement.
abbrev pub run_handler : Request (Unit {0}) → Option Db → Tried
run_handler m none = Tried.thrown (internal "current transaction is aborted") none
run_handler m (some db) = settle (m db)

-- `try { await … } catch { log }`
abbrev pub caught : Tried → Tried
caught (Tried.ended transaction) = Tried.ended transaction
caught (Tried.thrown e transaction) = Tried.ended transaction

abbrev pub attempt : Request (Unit {0}) → Option Db → Tried
attempt m transaction = caught (run_handler m transaction)

-- The end of `runAsSystem`: the COMMIT, which rolls back where a statement has failed and reports no
-- error, and the ROLLBACK where an error has come through.
abbrev pub commit : Db → Tried → Result (Unit {0} × Db)
commit before (Tried.ended none) = ok (tt, before)
commit before (Tried.ended (some db)) = ok (tt, db)
commit before (Tried.thrown e transaction) = err e

module _ (st_dwithin : GeographyPoint → GeographyPoint → ℕ → Bool) where
  -- `ST_DWithin(alert_center, point, meters)`, false where there is no centre.
  abbrev pub is_near : Option GeographyPoint → GeographyPoint → ℕ → Bool
  is_near none point meters = false
  is_near (some center) point meters = st_dwithin center point meters

  -- The WHERE of the query for the matched users.
  abbrev pub is_alerted : IncidentRow → UserRow → Bool
  is_alerted i u =
      u.is_active
      && not (is_none u.push_token)
      && differs u.id i.reported_by_user_id
      && is_near u.alert_center i.location 50000
      && is_near u.alert_center i.location u.notification_radius_meters
      && any (same_severity u.notification_min_urgency) (thresholds_satisfied_by i.severity)

  abbrev pub alert_users : IncidentRow → Request (Unit {0})
  alert_users i = do
    matched ← query λ db. select (is_alerted i) db.users
    for_each matched (λ u. notify (proximity_notice i u))

  -- IncidentProximityHandler.handle
  unfoldable pub handle_proximity : ℕ → Request (Unit {0})
  handle_proximity incident_id = do
    found ← query (incident_by_id incident_id)
    when_some found alert_users

  abbrev pub handler : DispatchKind → ℕ → Request (Unit {0})
  handler DispatchKind.incident_proximity entity_id = handle_proximity entity_id
  handler DispatchKind.task_due_reminder entity_id = handle_task_due entity_id
  handler DispatchKind.event_reminder entity_id = handle_event entity_id

  -- `returning` is the order of the claimed rows, and `fails` tells for which dispatches a statement
  -- of the handler fails in this poll.
  module _ (returning : List DispatchRow → List DispatchRow) (fails : DispatchRow → Bool) where
    abbrev pub outcome : Bool → DispatchRow → Request (Unit {0})
    outcome broken d db =
        if broken then err (internal "statement failed") else handler d.kind d.entity_id db

    abbrev pub route : DispatchRow → Request (Unit {0})
    route d = outcome (fails d) d

    unfoldable pub handle_all : List DispatchRow → Option Db → Tried
    handle_all [] transaction = Tried.ended transaction
    handle_all (d ∷ ds) transaction = elim (attempt (route d) transaction) [
      | Tried.ended transaction' ↦ handle_all ds transaction'
      | Tried.thrown e transaction' ↦ Tried.thrown e transaction'
    ]

    unfoldable pub run_due_dispatches : Request (Unit {0})
    unfolding handle_all
    run_due_dispatches db = elim (claim_batch returning db) [
      | ok (claimed, db') ↦ commit db (handle_all claimed (some db'))
      | err e ↦ err e
    ]
