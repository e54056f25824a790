-- ===== src/Dispatch/Recipients.antt =====
-- Whom the handlers of src/modules/notifications/dispatch/dispatch-handlers address.
use ecotrack_api.Common.{
  ==_ne, Bool, Option-cases, any, arith, find, inl, inr, leb, none, refl, some, true, ℕ, ◌==◌, ◌↔◌,
  ◌≡◌, ◌≢◌, ◌≤◌,
}
use ecotrack_api.Db.{
  Db, GeographyPoint, IncidentRow, IncidentSeverity, TaskRow, UserRow, is_completed, ok,
  same_severity,
}
use ecotrack_api.Dispatch.{handle_task_due, index_of, is_alerted, thresholds_satisfied_by}
use ecotrack_api.Platform.Notifications.{Notice}
use ecotrack_api.Tasks.{TaskFull, is_task}
use ecotrack_api.Tasks.Completion.{mark_completed-done}
use ecotrack_api.Tasks.Progress.{complete_row, mark_completed}

abbrev pub rank : IncidentSeverity → ℕ
rank IncidentSeverity.low = 0
rank IncidentSeverity.medium = 1
rank IncidentSeverity.high = 2
rank IncidentSeverity.critical = 3

-- The thresholds that a severity satisfies are those up to it.
thresholds-rank :
    (threshold severity : IncidentSeverity)
    → any (same_severity threshold) (thresholds_satisfied_by severity)
      ≡ leb (rank threshold) (rank severity)
unfolding thresholds_satisfied_by index_of any
thresholds-rank IncidentSeverity.low IncidentSeverity.low = refl
thresholds-rank IncidentSeverity.low IncidentSeverity.medium = refl
thresholds-rank IncidentSeverity.low IncidentSeverity.high = refl
thresholds-rank IncidentSeverity.low IncidentSeverity.critical = refl
thresholds-rank IncidentSeverity.medium IncidentSeverity.low = refl
thresholds-rank IncidentSeverity.medium IncidentSeverity.medium = refl
thresholds-rank IncidentSeverity.medium IncidentSeverity.high = refl
thresholds-rank IncidentSeverity.medium IncidentSeverity.critical = refl
thresholds-rank IncidentSeverity.high IncidentSeverity.low = refl
thresholds-rank IncidentSeverity.high IncidentSeverity.medium = refl
thresholds-rank IncidentSeverity.high IncidentSeverity.high = refl
thresholds-rank IncidentSeverity.high IncidentSeverity.critical = refl
thresholds-rank IncidentSeverity.critical IncidentSeverity.low = refl
thresholds-rank IncidentSeverity.critical IncidentSeverity.medium = refl
thresholds-rank IncidentSeverity.critical IncidentSeverity.high = refl
thresholds-rank IncidentSeverity.critical IncidentSeverity.critical = refl

abbrev addressed_to : ℕ → Notice → Bool
addressed_to user_id n = n.user_id == user_id

module _ (st_dwithin : GeographyPoint → GeographyPoint → ℕ → Bool) where
  -- The account wants to hear of the incident: it is active, can be pushed to, did not report it,
  -- has an alert centre within both its own radius and 50 kilometres, and asks for no more urgency.
  pub record Wants (i : IncidentRow) (u : UserRow) : Type 0 where
    pub active : u.is_active ≡ true
    pub reachable : u.push_token ≢ none
    pub reporter : (r : ℕ) × (i.reported_by_user_id ≡ some r) × (u.id ≢ r)
    pub near :
        (c : GeographyPoint) × (u.alert_center ≡ some c)
        × (st_dwithin c i.location 50000 ≡ true)
        × (st_dwithin c i.location u.notification_radius_meters ≡ true)
    pub urgent : rank u.notification_min_urgency ≤ rank i.severity

  alerted-Wants : (i : IncidentRow) (u : UserRow) → is_alerted st_dwithin i u ≡ true → Wants i u
  alerted-Wants i u h =
      let level = thresholds-rank u.notification_min_urgency i.severity in
      elim (Option-cases i.reported_by_user_id) [
        | inl unknown ↦ absurd (ground arith)
        | inr (r, known) ↦ elim (Option-cases u.alert_center) [
          | inl nowhere ↦ absurd (ground arith)
          | inr (c, center) ↦ elim (Option-cases u.push_token) [
            | inl mute ↦ absurd (ground arith)
            | inr (t, token) ↦ record {
              active = ground arith;
              reachable = λ e. absurd (ground arith);
              reporter = (r, known, (λ e. absurd (ground arith)));
              near = (c, center, ground arith, ground arith);
              urgent = ground arith;
            }
          ]
        ]
      ]

  Wants-alerted : (i : IncidentRow) (u : UserRow) → Wants i u → is_alerted st_dwithin i u ≡ true
  Wants-alerted i u w =
      let level = thresholds-rank u.notification_min_urgency i.severity in
      let (r, known, other) = w.reporter in
      let (c, center, close, inside) = w.near in
      let apart = ==_ne u.id r other in
      elim (Option-cases u.push_token) [
        | inl mute ↦ absurd (w.reachable mute)
        | inr (t, token) ↦
            let urgent = w.urgent in
            let active = w.active in
            let low : leb (rank u.notification_min_urgency) (rank i.severity) ≡ true =
              ground arith in
            rw (active, token, known, apart, center, close, inside, level) low
      ]

  -- The query for an incident's alert selects an account exactly when the account is active, has a
  -- push token, is not that of the known reporter, has an alert centre within 50 kilometres and
  -- within its own radius, and asks for at most the incident's severity.
  pub is_alerted-Wants :
      (i : IncidentRow) (u : UserRow) → (is_alerted st_dwithin i u ≡ true) ↔ Wants i u
  is_alerted-Wants i u = (alerted-Wants i u, Wants-alerted i u)

completed_silent :
    (id : ℕ) (t : TaskRow) (db : Db)
    → find (is_task id) db.tasks ≡ some t
    → is_completed t.status ≡ true
    → handle_task_due id db ≡ ok (tt, db)
unfolding handle_task_due
completed_silent id t db found done = rw (found, done) refl

-- Once a volunteer has completed a task, the handler of due reminders sends nothing for it, even for a
-- dispatch that was claimed before.
pub mark_completed-handle_task_due :
    (organisation_id task_id volunteer_user_id : ℕ) (db db' : Db) (r : TaskFull)
    → mark_completed organisation_id task_id volunteer_user_id db ≡ ok (r, db')
    → handle_task_due task_id db' ≡ ok (tt, db')
mark_completed-handle_task_due organisation_id task_id volunteer_user_id db db' r h =
    let (t, _, _, _, _, _, after, _) =
      mark_completed-done organisation_id task_id volunteer_user_id db db' r h in
    completed_silent task_id (complete_row db.clock t) db' after refl
