-- ===== src/Dispatch/Delivered.antt =====
-- What one poll of src/modules/notifications/dispatch delivers, against a description without effects:
-- the notices of each claimed dispatch, in order.
use ecotrack_api.Common.{
  Bool, Bool-cases, List, Option, Option-cases, [], any, ap, arith, false, find, if◌then◌else◌, inl,
  inr, map, none, refl, select, some, true, ℕ, ◌++◌, ◌∙◌, ◌∷◌, ◌≡◌,
}
use ecotrack_api.Db.{
  Db, DispatchKind, DispatchRow, EventRow, EventRsvpRow, GeographyPoint, IncidentRow,
  TaskAssignmentRow, TaskRow, UserRow, for_each, is_completed, is_over, ok,
}
use ecotrack_api.Dispatch.{
  Tried, attempt, caught, commit, event_notice, handle_all, handle_event, handle_proximity,
  handle_task_due, handler, is_alerted, outcome, proximity_notice, route, run_due_dispatches,
  settle, task_due_notice,
}
use ecotrack_api.Events.{event_by_id, rsvp_for}
use ecotrack_api.Incidents.{incident_by_id}
use ecotrack_api.Platform.Notifications.{Notice, append_notice, notify}
use ecotrack_api.Platform.Outbox.{claim_batch, due_batch, mark_claimed}
use ecotrack_api.Tasks.{is_task}
use ecotrack_api.Tasks.Assignment.{is_current}

-- The notices inserted one after the other.
unfoldable pub deliver : List Notice → Db → Db
deliver [] db = db
deliver (n ∷ ns) db = deliver ns (append_notice n db)

abbrev assignee_notices : TaskRow → Option TaskAssignmentRow → List Notice
assignee_notices t none = []
assignee_notices t (some a) = task_due_notice t a ∷ []

abbrev due_notices : List TaskAssignmentRow → Option TaskRow → List Notice
due_notices rows none = []
due_notices rows (some t) =
    if is_completed t.status then [] else assignee_notices t (find (is_current t.id) rows)

abbrev attendee_notices : List EventRsvpRow → Option EventRow → List Notice
attendee_notices rows none = []
attendee_notices rows (some e) =
    if is_over e.status then [] else map (event_notice e) (select (rsvp_for e.id) rows)

deliver-append :
    (ms ns : List Notice) (db : Db) → deliver ns (deliver ms db) ≡ deliver (ms ++ ns) db
unfolding deliver
deliver-append [] ns db = refl
deliver-append (m ∷ ms) ns db = deliver-append ms ns (append_notice m db)

-- A loop of notices.
for_each-notify :
    {A : Type 0} (f : A → Notice) (xs : List A) (db : Db)
    → for_each xs (λ x. notify (f x)) db ≡ ok (tt, deliver (map f xs) db)
unfolding for_each deliver
for_each-notify f [] db = refl
for_each-notify f (x ∷ xs) db = for_each-notify f xs (append_notice (f x) db)

handle_task_due-deliver :
    (id : ℕ) (db : Db)
    → handle_task_due id db
      ≡ ok (tt, deliver (due_notices db.task_assignments (find (is_task id) db.tasks)) db)
unfolding handle_task_due deliver
handle_task_due-deliver id db = elim (Option-cases (find (is_task id) db.tasks)) [
  | inl none' ↦ rw none' refl
  | inr (t, found) ↦ elim (Bool-cases (is_completed t.status)) [
    | inl done ↦ rw (found, done) refl
    | inr open' ↦ elim (Option-cases (find (is_current t.id) db.task_assignments)) [
      | inl nobody ↦ rw (found, open', nobody) refl
      | inr (a, somebody) ↦ rw (found, open', somebody) refl
    ]
  ]
]

handle_event-deliver :
    (id : ℕ) (db : Db)
    → handle_event id db ≡ ok (tt, deliver (attendee_notices db.event_rsvps (event_by_id id db)) db)
unfolding handle_event deliver
handle_event-deliver id db = elim (Option-cases (event_by_id id db)) [
  | inl none' ↦ rw none' refl
  | inr (e, found) ↦ elim (Bool-cases (is_over e.status)) [
    | inl done ↦ rw (found, done) refl
    | inr open' ↦
        rw (found, open')
          (for_each-notify (event_notice e) (select (rsvp_for e.id) db.event_rsvps) db)
  ]
]

module _ (st_dwithin : GeographyPoint → GeographyPoint → ℕ → Bool) where
  abbrev alert_notices : List UserRow → Option IncidentRow → List Notice
  alert_notices rows none = []
  alert_notices rows (some i) = map (proximity_notice i) (select (is_alerted st_dwithin i) rows)

  -- The notices that a dispatch stands for in a state.
  abbrev pub entity_notices : Db → DispatchKind → ℕ → List Notice
  entity_notices db DispatchKind.incident_proximity id =
      alert_notices db.users (incident_by_id id db)
  entity_notices db DispatchKind.task_due_reminder id =
      due_notices db.task_assignments (find (is_task id) db.tasks)
  entity_notices db DispatchKind.event_reminder id =
      attendee_notices db.event_rsvps (event_by_id id db)

  abbrev pub notices_for : Db → DispatchRow → List Notice
  notices_for db d = entity_notices db d.kind d.entity_id

  unfoldable pub notices_of : Db → List DispatchRow → List Notice
  notices_of db [] = []
  notices_of db (d ∷ ds) = notices_for db d ++ notices_of db ds

  handle_proximity-deliver :
      (id : ℕ) (db : Db)
      → handle_proximity st_dwithin id db
        ≡ ok (tt, deliver (alert_notices db.users (incident_by_id id db)) db)
  unfolding handle_proximity deliver
  handle_proximity-deliver id db = elim (Option-cases (incident_by_id id db)) [
    | inl none' ↦ rw none' refl
    | inr (i, found) ↦
        rw found
          (for_each-notify (proximity_notice i) (select (is_alerted st_dwithin i) db.users) db)
  ]

  -- No delivery changes what a dispatch stands for, nor does a claim.
  entity_notices-append :
      (n : Notice) (db : Db) (kind : DispatchKind) (id : ℕ)
      → entity_notices (append_notice n db) kind id ≡ entity_notices db kind id
  entity_notices-append n db DispatchKind.incident_proximity id = refl
  entity_notices-append n db DispatchKind.task_due_reminder id = refl
  entity_notices-append n db DispatchKind.event_reminder id = refl

  entity_notices-deliver :
      (ns : List Notice) (db : Db) (kind : DispatchKind) (id : ℕ)
      → entity_notices (deliver ns db) kind id ≡ entity_notices db kind id
  unfolding deliver
  entity_notices-deliver [] db kind id = refl
  entity_notices-deliver (n ∷ ns) db kind id =
      entity_notices-deliver ns (append_notice n db) kind id ∙ entity_notices-append n db kind id

  entity_notices-marked :
      (rows : List DispatchRow) (db : Db) (kind : DispatchKind) (id : ℕ)
      → entity_notices (record db { notification_dispatches = rows }) kind id
        ≡ entity_notices db kind id
  entity_notices-marked rows db DispatchKind.incident_proximity id = refl
  entity_notices-marked rows db DispatchKind.task_due_reminder id = refl
  entity_notices-marked rows db DispatchKind.event_reminder id = refl

  notices_of-same :
      (db db' : Db) (ds : List DispatchRow)
      → ((kind : DispatchKind) (id : ℕ) → entity_notices db' kind id ≡ entity_notices db kind id)
      → notices_of db' ds ≡ notices_of db ds
  unfolding notices_of
  notices_of-same db db' [] same = refl
  notices_of-same db db' (d ∷ ds) same =
      rw (same d.kind d.entity_id, notices_of-same db db' ds same) refl

  handler-deliver :
      (kind : DispatchKind) (id : ℕ) (db : Db)
      → handler st_dwithin kind id db ≡ ok (tt, deliver (entity_notices db kind id) db)
  handler-deliver DispatchKind.incident_proximity id db = handle_proximity-deliver id db
  handler-deliver DispatchKind.task_due_reminder id db = handle_task_due-deliver id db
  handler-deliver DispatchKind.event_reminder id db = handle_event-deliver id db

  module _ (returning : List DispatchRow → List DispatchRow) (fails : DispatchRow → Bool) where
    -- What the loop does after a handler.
    abbrev rest_of : List DispatchRow → Tried → Tried
    rest_of ds (Tried.ended transaction) = handle_all st_dwithin returning fails ds transaction
    rest_of ds (Tried.thrown e transaction) = Tried.thrown e transaction

    attempt-deliver :
        (d : DispatchRow) (db : Db)
        → fails d ≡ false
        → attempt (route st_dwithin returning fails d) (some db)
          ≡ Tried.ended (some (deliver (notices_for db d) db))
    attempt-deliver d db works =
        ap (λ broken. caught (settle (outcome st_dwithin returning fails broken d db))) works
        ∙ ap (λ r. caught (settle r)) (handler-deliver d.kind d.entity_id db)

    handle_all-next :
        (d : DispatchRow) (ds : List DispatchRow) (transaction : Option Db)
        → handle_all st_dwithin returning fails (d ∷ ds) transaction
          ≡ rest_of ds (attempt (route st_dwithin returning fails d) transaction)
    unfolding handle_all
    handle_all-next d ds transaction = ground arith

    handle_all-deliver :
        (ds : List DispatchRow) (db : Db)
        → any fails ds ≡ false
        → handle_all st_dwithin returning fails ds (some db)
          ≡ Tried.ended (some (deliver (notices_of db ds) db))
    unfolding handle_all notices_of deliver any
    handle_all-deliver [] db works = refl
    handle_all-deliver (d ∷ ds) db works =
        let first = deliver (notices_for db d) db in
        handle_all-next d ds (some db)
        ∙ ap (rest_of ds) (attempt-deliver d db (ground arith))
        ∙ handle_all-deliver ds first (ground arith)
        ∙ ap (λ ns. Tried.ended (some (deliver ns first)))
            (notices_of-same db first ds (entity_notices-deliver (notices_for db d) db))
        ∙ ap (λ x. Tried.ended (some x)) (deliver-append (notices_for db d) (notices_of db ds) db)

    handle_all-none :
        (ds : List DispatchRow) → handle_all st_dwithin returning fails ds none ≡ Tried.ended none
    unfolding handle_all
    handle_all-none [] = refl
    handle_all-none (d ∷ ds) = handle_all-none ds

    -- One failing statement is the end of the transaction, however many handlers follow.
    handle_all-fails :
        (ds : List DispatchRow) (db : Db)
        → any fails ds ≡ true
        → handle_all st_dwithin returning fails ds (some db) ≡ Tried.ended none
    unfolding any
    handle_all-fails [] db failed = absurd (cc)
    handle_all-fails (d ∷ ds) db failed =
        handle_all-next d ds (some db) ∙ elim (Bool-cases (fails d)) [
          | inl broken ↦
              ap (λ b. rest_of ds (caught (settle (outcome st_dwithin returning fails b d db))))
                broken
              ∙ handle_all-none ds
          | inr works ↦
              ap (rest_of ds) (attempt-deliver d db works)
              ∙ handle_all-fails ds (deliver (notices_for db d) db) (ground arith)
        ]

    -- Every poll ends without an error. Where no statement of its handlers fails, it marks the batch
    -- of due dispatches as claimed, and then inserts exactly the notices that these dispatches stand
    -- for, in the order in which the claim returns them, and does nothing else. Where one fails, it
    -- changes nothing at all: the claim of the whole batch is rolled back with it.
    pub run_due_dispatches-delivers :
        (db : Db)
        → let due = due_batch db.clock db.notification_dispatches in
          (any fails (returning due) ≡ false
            → run_due_dispatches st_dwithin returning fails db
              ≡ ok (
                tt,
                deliver (notices_of db (returning due)) (record db {
                  notification_dispatches = mark_claimed db.clock due db.notification_dispatches;
                }),
              ))
          × (any fails (returning due) ≡ true
              → run_due_dispatches st_dwithin returning fails db ≡ ok (tt, db))
    unfolding run_due_dispatches claim_batch
    run_due_dispatches-delivers db =
        let due = due_batch db.clock db.notification_dispatches in
        let claimed : Db = record db {
          notification_dispatches = mark_claimed db.clock due db.notification_dispatches;
        } in
        (
          (λ works.
              ap (commit db) (handle_all-deliver (returning due) claimed works)
              ∙ ap (λ ns. ok (tt, deliver ns claimed))
                  (notices_of-same db claimed (returning due) (
                    entity_notices-marked (mark_claimed db.clock due db.notification_dispatches)
                      db))),
          (λ failed. ap (commit db) (handle_all-fails (returning due) claimed failed)),
        )
