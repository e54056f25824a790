-- ===== src/Tests/Dispatch.antt =====
-- A poll of the outbox on the small database, and a token's account.
use ecotrack_api.Auth.{
  JwtPayload, claims_of, display_name, has_text, local_part, non_empty, validate,
}
use ecotrack_api.Auth.Validation.{validate-account}
use ecotrack_api.Common.{
  Bool, List, [], any, arith, count_where, false, find, insert_by, ltb, map, none, refl, select,
  some, sort_by, true, update_where, ℕ, ◌+◌, ◌==◌, ◌↔◌, ◌∷◌, ◌≡◌, ◌≤◌,
}
use ecotrack_api.Db.{
  Db, DispatchKind, DispatchRow, GeographyPoint, IncidentSeverity, NotificationRow, UserRole,
  UserRow, for_each, ok,
}
use ecotrack_api.Dispatch.{
  handle_all, handle_event, handle_proximity, index_of, is_alerted, run_due_dispatches,
  thresholds_satisfied_by,
}
use ecotrack_api.Dispatch.Backlog.{Polls, run_due_dispatches-drains}
use ecotrack_api.Dispatch.Delivered.{deliver, notices_of, run_due_dispatches-delivers}
use ecotrack_api.Dispatch.Recipients.{Wants, is_alerted-Wants}
use ecotrack_api.Platform.Outbox.{claim_batch, due_batch, is_due, mark_claimed}
use ecotrack_api.Tests.Fixtures.{alert, base, here_point, pooled_incident, state_after, user}
use ecotrack_api.Users.{find_or_provision, new_user, provision_user}
use ecotrack_api.Workflow.Slug.{is_space, trim, trim_start}

abbrev near_by : GeographyPoint → GeographyPoint → ℕ → Bool
near_by a b meters = ltb 9999 meters

-- Account 6 wants to hear of incidents; account 7 has reported this one.
abbrev listener : UserRow
listener = record (user 6 UserRole.volunteer) {
  push_token = some "token";
  alert_center = some here_point;
  notification_min_urgency = IncidentSeverity.medium;
}

abbrev event_alert : DispatchRow
event_alert = record alert {
  id = 41;
  kind = DispatchKind.event_reminder;
  entity_type = "event";
  entity_id = 30;
  due_at = 80;
}

abbrev polled : Db
polled = record base { users = listener ∷ []; notification_dispatches = alert ∷ event_alert ∷ [] }

abbrev as_they_come : List DispatchRow → List DispatchRow
as_they_come xs = xs

-- In the second poll a statement for the event fails.
abbrev healthy : DispatchRow → Bool
healthy d = false

abbrev event_fails : DispatchRow → Bool
event_fails d = d.id == 41

run_due_dispatches-delivers_example :
    (any event_fails (event_alert ∷ alert ∷ []) ≡ false
      → run_due_dispatches near_by as_they_come event_fails polled
        ≡ ok (
          tt,
          deliver (notices_of near_by polled (event_alert ∷ alert ∷ [])) (record polled {
            notification_dispatches =
                mark_claimed 100 (event_alert ∷ alert ∷ []) polled.notification_dispatches;
          }),
        ))
    × (any event_fails (event_alert ∷ alert ∷ []) ≡ true
        → run_due_dispatches near_by as_they_come event_fails polled ≡ ok (tt, polled))
unfolding due_batch select sort_by insert_by
run_due_dispatches-delivers_example =
    run_due_dispatches-delivers near_by as_they_come event_fails polled

-- Both reminders are due by 95, and one poll claims them.
abbrev after_poll : Db
after_poll = state_after (run_due_dispatches near_by as_they_come healthy) polled

run_due_dispatches-drains_example : any (is_due 95) after_poll.notification_dispatches ≡ false
unfolding run_due_dispatches claim_batch due_batch mark_claimed handle_all for_each handle_event
    handle_proximity thresholds_satisfied_by index_of find select any sort_by insert_by update_where
    count_where
run_due_dispatches-drains_example =
    run_due_dispatches-drains near_by {now = 95} {db = polled} {n = 1} {db' = after_poll}
      (omega arith) (Polls.polled as_they_come healthy Polls.here (omega arith) refl refl)

-- The attendee of the event comes first, whose reminder is due first, then the listener.
two_notices :
    map
      (λ (n : NotificationRow). n.user_id)
      (state_after (run_due_dispatches near_by as_they_come healthy) polled).notifications
    ≡ 5 ∷ 6 ∷ []
unfolding run_due_dispatches claim_batch due_batch mark_claimed handle_all for_each handle_event
    handle_proximity thresholds_satisfied_by index_of find select any sort_by insert_by update_where
two_notices = refl

is_alerted-Wants_example :
    (is_alerted near_by pooled_incident listener ≡ true) ↔ Wants near_by pooled_incident listener
is_alerted-Wants_example = is_alerted-Wants near_by pooled_incident listener

abbrev payload : JwtPayload
payload = record {
  sub = "sub-1";
  email = some "new@example.org";
  name = none;
  given_name = none;
  family_name = some " ";
  iat = some 5;
  exp = 3605;
}

abbrev account : UserRow
account = new_user 100 1000 (claims_of payload "new@example.org")

abbrev no_users : Db
no_users = record base { users = [] }

validate-account_example :
    (3605 ≤ 5 + 3660)
    × (non_empty payload.email ≡ some account.email)
    × (account.auth_subject ≡ payload.sub)
    × (account.is_active ≡ true)
    × (validate payload (state_after (validate payload) no_users)
        ≡ ok (account, state_after (validate payload) no_users))
unfolding validate find_or_provision provision_user find any
validate-account_example =
    validate-account payload no_users (state_after (validate payload) no_users) account refl

-- A blank name gives way to the address.
blank_name : account.full_name ≡ "new"
unfolding display_name has_text local_part trim trim_start is_space
blank_name = refl
