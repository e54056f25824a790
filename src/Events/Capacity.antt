-- ===== src/Events/Capacity.antt =====
-- The attendance counter of src/modules/events/events.service.ts: what the events and RSVP tables keep
-- to over `rsvp` and `cancelRsvp`.
use ecotrack_api.Common.{
  All, Bool, Bool-cases, List, Option, Option-cases, UniqueBy, [], any, ap, arith, count_where,
  delete_where, false, find, inl, inr, leb, none, some, true, update_where, ℕ, ◌++◌, ◌∷◌, ◌≡◌, ◌≤◌,
  ◌⊎◌,
}
use ecotrack_api.Db.{>>=-eq-ok, Db, EventRow, EventRsvpRow, IncidentRow, ok, pure, query, ◌>>=◌}
use ecotrack_api.Events.{
  EventFull, attendees, event_by_id, event_entry, find_event, find_incidents, is_event, is_rsvp,
  linked, rsvp_for,
}
use ecotrack_api.Events.Attendance.{
  cancel_rsvp, count_down, count_up, is_full, is_scoped_event, join_event, leave_event, rsvp,
}
use ecotrack_api.Incidents.{find_incident, incident_by_id}
use ecotrack_api.Platform.Audit.{append_log}

-- `rsvpCount <= maxAttendees`, where there is a limit.
abbrev pub fits : Option ℕ → ℕ → Bool
fits none count = true
fits (some capacity) count = leb count capacity

-- The counter is the number of RSVP rows, within the capacity, and nobody has two rows.
pub record AttendanceOk (db : Db) : Type 0 where
  pub unique : UniqueBy (λ (e : EventRow). e.id) db.events
  pub counted :
      All (λ (e : EventRow). e.rsvp_count ≡ count_where (rsvp_for e.id) db.event_rsvps) db.events
  pub capped : All (λ (e : EventRow). fits e.max_attendees e.rsvp_count ≡ true) db.events
  pub once : (event_id user_id : ℕ) → count_where (is_rsvp event_id user_id) db.event_rsvps ≤ 1

find_incidents_state :
    (ids : List ℕ) (db db' : Db) (r : List IncidentRow)
    → find_incidents ids db ≡ ok (r, db')
    → db' ≡ db
unfolding find_incidents
find_incidents_state [] db db' r h = ground arith
find_incidents_state (id ∷ ids) db db' r h =
    let (i, e, k) = >>=-eq-ok (find_incident id) _ db h in
    let (rest, e', k') = >>=-eq-ok (find_incidents ids) _ i.1 k in
    let same : i.1 ≡ db = elim (Option-cases (incident_by_id id db)) [
      | inl none' ↦ absurd (ground arith)
      | inr (_, some') ↦ ground arith
    ] in
    let same' : rest.1 ≡ i.1 = find_incidents_state ids i.1 rest.1 rest.0 e' in ground arith

pub find_event_state :
    (id : ℕ) (db db' : Db) (r : EventFull) → find_event id db ≡ ok (r, db') → db' ≡ db
unfolding find_event
find_event_state id db db' r h = elim (Option-cases (event_by_id id db)) [
  | inl none' ↦ absurd (ground arith)
  | inr (e, some') ↦
      let k : (find_incidents (linked id db.event_incidents) >>= λ incidents.
      query (attendees id) >>= λ rsvps.
      pure (record { event = e; incidents = incidents; rsvps = rsvps }))
            db
          ≡ ok (r, db') =
        ground arith in
      let (s, f, g) = >>=-eq-ok (find_incidents (linked id db.event_incidents)) _ db k in
      let same : s.1 ≡ db = find_incidents_state _ db s.1 s.0 f in ground arith
]

pub find_event_found :
    (id : ℕ) (db db' : Db) (r : EventFull)
    → find_event id db ≡ ok (r, db')
    → event_by_id id db ≡ some r.event
unfolding find_event
find_event_found id db db' r h = elim (Option-cases (event_by_id id db)) [
  | inl none' ↦ absurd (ground arith)
  | inr (e, some') ↦
      let k : (find_incidents (linked id db.event_incidents) >>= λ incidents.
      query (attendees id) >>= λ rsvps.
      pure (record { event = e; incidents = incidents; rsvps = rsvps }))
            db
          ≡ ok (r, db') =
        ground arith in
      let (s, f, g) = >>=-eq-ok (find_incidents (linked id db.event_incidents)) _ db k in
      ground arith
]

abbrev pub rsvp_row : ℕ → ℕ → ℕ → ℕ → EventRsvpRow
rsvp_row now organisation_id event_id user_id = record {
  organisation_id = organisation_id;
  event_id = event_id;
  user_id = user_id;
  rsvped_at = now;
}

-- The state after the writes of `rsvp`, and after those of `cancelRsvp`.
abbrev joined_state : ℕ → EventRow → ℕ → Db → Db
joined_state organisation_id e user_id db =
    append_log (event_entry organisation_id user_id "event.rsvp" e.id none) (record db {
      event_rsvps = db.event_rsvps ++ rsvp_row db.clock organisation_id e.id user_id ∷ [];
      events = update_where (is_event e.id) (count_up db.clock) db.events;
    })

abbrev left_state : ℕ → ℕ → ℕ → Db → Db
left_state organisation_id event_id user_id db =
    append_log (event_entry organisation_id user_id "event.rsvp_cancelled" event_id none)
      (record db {
        event_rsvps = delete_where (is_rsvp event_id user_id) db.event_rsvps;
        events = update_where (is_event event_id) (count_down db.clock) db.events;
      })

-- What a successful `rsvp` does to the two tables: nothing for a volunteer who is going already.
pub rsvp_effect :
    (organisation_id event_id user_id : ℕ) (db db' : Db) (r : EventFull)
    → rsvp organisation_id event_id user_id db ≡ ok (r, db')
    → (e : EventRow) × (find (is_scoped_event organisation_id event_id) db.events ≡ some e)
      × (((any (is_rsvp event_id user_id) db.event_rsvps ≡ true) × (db' ≡ db))
          ⊎ ((any (is_rsvp event_id user_id) db.event_rsvps ≡ false)
              × (is_full e.max_attendees e.rsvp_count ≡ false)
              × (db'.event_rsvps
                  ≡ db.event_rsvps ++ rsvp_row db.clock organisation_id e.id user_id ∷ [])
              × (db'.events ≡ update_where (is_event e.id) (count_up db.clock) db.events)))
unfolding rsvp join_event
rsvp_effect organisation_id event_id user_id db db' r h =
    elim (Option-cases (find (is_scoped_event organisation_id event_id) db.events)) [
      | inl none' ↦ absurd (ground arith)
      | inr (e, some') ↦ elim (Bool-cases (any (is_rsvp event_id user_id) db.event_rsvps)) [
        | inl going ↦
            let k : find_event event_id db ≡ ok (r, db') = ground arith in
            (e, some', inl (going, find_event_state event_id db db' r k))
        | inr new ↦ elim (Bool-cases (is_full e.max_attendees e.rsvp_count)) [
          | inl full ↦ absurd (ground arith)
          | inr room ↦
              let k : find_event event_id (joined_state organisation_id e user_id db)
                  ≡ ok (r, db') =
                ground arith in
              let same = find_event_state event_id _ db' r k in
              (
                e,
                some',
                inr (
                  new,
                  room,
                  ap (λ (d : Db). d.event_rsvps) same,
                  ap (λ (d : Db). d.events) same,
                ),
              )
        ]
      ]
    ]

-- What a successful `cancelRsvp` does: nothing for a volunteer who is not going.
pub cancel_rsvp_effect :
    (organisation_id event_id user_id : ℕ) (db db' : Db) (r : EventFull)
    → cancel_rsvp organisation_id event_id user_id db ≡ ok (r, db')
    → (e : EventRow) × (find (is_scoped_event organisation_id event_id) db.events ≡ some e)
      × (db'.event_rsvps ≡ delete_where (is_rsvp event_id user_id) db.event_rsvps)
      × (((any (is_rsvp event_id user_id) db.event_rsvps ≡ false) × (db'.events ≡ db.events))
          ⊎ ((any (is_rsvp event_id user_id) db.event_rsvps ≡ true)
              × (db'.events ≡ update_where (is_event event_id) (count_down db.clock) db.events)))
unfolding cancel_rsvp leave_event
cancel_rsvp_effect organisation_id event_id user_id db db' r h =
    elim (Option-cases (find (is_scoped_event organisation_id event_id) db.events)) [
      | inl none' ↦ absurd (ground arith)
      | inr (e, some') ↦ elim (Bool-cases (any (is_rsvp event_id user_id) db.event_rsvps)) [
        | inl going ↦
            let k : find_event event_id (left_state organisation_id event_id user_id db)
                ≡ ok (r, db') =
              ground arith in
            let same = find_event_state event_id _ db' r k in
            (
              e,
              some',
              ap (λ (d : Db). d.event_rsvps) same,
              inr (going, ap (λ (d : Db). d.events) same),
            )
        | inr absent ↦
            let k : find_event event_id (record db {
              event_rsvps = delete_where (is_rsvp event_id user_id) db.event_rsvps;
            })
                ≡ ok (r, db') =
              ground arith in
            let same = find_event_state event_id _ db' r k in
            (
              e,
              some',
              ap (λ (d : Db). d.event_rsvps) same,
              inl (absent, ap (λ (d : Db). d.events) same),
            )
      ]
    ]
