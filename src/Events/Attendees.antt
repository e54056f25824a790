-- ===== src/Events/Attendees.antt =====
-- `rsvp` and `cancelRsvp`, src/modules/events/events.service.ts, keep the counter exact and within
-- the capacity.
use ecotrack_api.Common.{
  ==_iff, All-everywhere, All-find, All-map, All-update_change, All-update_found, All-update_where,
  Bool-cases, List, Option, UniqueBy-update_where, [], any, arith, count_and_le, count_pos_of_any,
  count_where, count_where-append, count_where-cong, count_where-delete_where, count_where-deleted,
  count_where-le-delete, count_zero_of_any, delete_where, false, find-UniqueBy, find_holds, inl,
  inr, none, refl, some, sym, true, ℕ, ◌&&◌, ◌++◌, ◌-◌, ◌==◌, ◌∙◌, ◌∷◌, ◌≡◌, ◌≤◌,
}
use ecotrack_api.Db.{Db, EventRow, EventRsvpRow, ok}
use ecotrack_api.Events.{EventFull, is_event, is_rsvp, rsvp_for}
use ecotrack_api.Events.Attendance.{cancel_rsvp, count_down, count_up, is_scoped_event, rsvp}
use ecotrack_api.Events.Capacity.{AttendanceOk, cancel_rsvp_effect, fits, rsvp_effect, rsvp_row}

scoped_id :
    (organisation_id event_id : ℕ) (y : EventRow)
    → is_scoped_event organisation_id event_id y ≡ true
    → y.id ≡ event_id
scoped_id organisation_id event_id y h = ground arith

counted_up :
    (now organisation_id id user_id : ℕ) (rsvps : List EventRsvpRow) (e : EventRow)
    → is_event id e ≡ true
    → e.rsvp_count ≡ count_where (rsvp_for e.id) rsvps
    → (count_up now e).rsvp_count
      ≡ count_where (rsvp_for e.id) (rsvps ++ rsvp_row now organisation_id id user_id ∷ [])
unfolding count_where
counted_up now organisation_id id user_id rsvps e hit h =
    rw (count_where-append (rsvp_for e.id) rsvps (rsvp_row now organisation_id id user_id ∷ []))
      (ground arith)

uncounted :
    (now organisation_id id user_id : ℕ) (rsvps : List EventRsvpRow) (e : EventRow)
    → is_event id e ≡ false
    → e.rsvp_count ≡ count_where (rsvp_for e.id) rsvps
    → e.rsvp_count
      ≡ count_where (rsvp_for e.id) (rsvps ++ rsvp_row now organisation_id id user_id ∷ [])
unfolding count_where
uncounted now organisation_id id user_id rsvps e miss h =
    rw (count_where-append (rsvp_for e.id) rsvps (rsvp_row now organisation_id id user_id ∷ []))
      (ground arith)

once_more :
    (now organisation_id id user_id : ℕ) (rsvps : List EventRsvpRow)
    → any (is_rsvp id user_id) rsvps ≡ false
    → ((e u : ℕ) → count_where (is_rsvp e u) rsvps ≤ 1)
    → (e u : ℕ)
    → count_where (is_rsvp e u) (rsvps ++ rsvp_row now organisation_id id user_id ∷ []) ≤ 1
unfolding count_where
once_more now organisation_id id user_id rsvps new h e u =
    rw (count_where-append (is_rsvp e u) rsvps (rsvp_row now organisation_id id user_id ∷ []))
      (elim (Bool-cases (id == e && user_id == u)) [
        | inl same ↦
            let at : e ≡ id = ground arith in
            let by : u ≡ user_id = ground arith in
            rw (at, by) (ground (arith, count_zero_of_any (is_rsvp id user_id) rsvps new))
        | inr other ↦ ground (arith, h e u)
      ])

-- A successful RSVP, on tables where all of this holds, keeps every counter equal to the number of
-- RSVP rows of its event and within the event's capacity, and gives no user a second row.
pub rsvp-AttendanceOk :
    (organisation_id event_id user_id : ℕ) (db db' : Db) (r : EventFull)
    → AttendanceOk db
    → rsvp organisation_id event_id user_id db ≡ ok (r, db')
    → AttendanceOk db'
rsvp-AttendanceOk organisation_id event_id user_id db db' r s h =
    let (e, found, cases) = rsvp_effect organisation_id event_id user_id db db' r h in
    elim cases [
      | inl (_, same) ↦ rw same s
      | inr (new, room, t, t') ↦
          let at : e.id ≡ event_id =
            scoped_id organisation_id event_id e
              (find_holds (is_scoped_event organisation_id event_id) db.events found) in
          let by_id =
            find-UniqueBy (λ (y : EventRow). y.id) event_id
              (is_scoped_event organisation_id event_id) db.events s.unique
              (scoped_id organisation_id event_id) found in
          let fit =
            (All-find (λ (y : EventRow). fits y.max_attendees y.rsvp_count ≡ true)
              (is_event event_id) db.events s.capped by_id).0 in
          record {
            unique = rw t' (
                UniqueBy-update_where (λ (y : EventRow). y.id) (is_event e.id) (count_up db.clock)
                  db.events (λ y. refl) s.unique);
            counted =
                rw (t, t')
                  (All-update_change _ _ (is_event e.id) (count_up db.clock) db.events
                    (λ y hit c.
                      counted_up db.clock organisation_id e.id user_id db.event_rsvps y hit c)
                    (λ y miss c.
                      uncounted db.clock organisation_id e.id user_id db.event_rsvps y miss c)
                    s.counted);
            capped = rw t' (
                All-update_found (λ (y : EventRow). y.id)
                  (λ (y : EventRow). fits y.max_attendees y.rsvp_count ≡ true) event_id
                  (is_event e.id) (count_up db.clock) db.events e s.unique by_id
                  (λ y q. ground arith) (ground arith) s.capped);
            once =
                rw t (
                  once_more db.clock organisation_id e.id user_id db.event_rsvps (rw at new)
                    s.once);
          }
    ]

pub counted_down :
    (event_id user_id : ℕ) (rsvps : List EventRsvpRow) (e : EventRow) (now : ℕ)
    → any (is_rsvp event_id user_id) rsvps ≡ true
    → ((e u : ℕ) → count_where (is_rsvp e u) rsvps ≤ 1)
    → is_event event_id e ≡ true
    → e.rsvp_count ≡ count_where (rsvp_for e.id) rsvps
    → (count_down now e).rsvp_count
      ≡ count_where (rsvp_for e.id) (delete_where (is_rsvp event_id user_id) rsvps)
counted_down event_id user_id rsvps e now going once hit h =
    let at : e.id ≡ event_id = (==_iff _ _).0 hit in
    let split = count_where-deleted (rsvp_for e.id) (is_rsvp event_id user_id) rsvps in
    let one : count_where (λ x. rsvp_for e.id x && is_rsvp event_id user_id x) rsvps
        ≡ count_where (is_rsvp event_id user_id) rsvps =
      count_where-cong _ _ rsvps (All-everywhere _ (λ x. ground arith) rsvps) in
    let some' = count_pos_of_any (is_rsvp event_id user_id) rsvps going in
    let most = once event_id user_id in omega arith

pub counted_same :
    (event_id user_id : ℕ) (rsvps : List EventRsvpRow) (e : EventRow)
    → is_event event_id e ≡ false
    → e.rsvp_count ≡ count_where (rsvp_for e.id) rsvps
    → e.rsvp_count ≡ count_where (rsvp_for e.id) (delete_where (is_rsvp event_id user_id) rsvps)
counted_same event_id user_id rsvps e miss h =
    h
    ∙ sym (
        count_where-delete_where (rsvp_for e.id) (is_rsvp event_id user_id) rsvps
          (All-everywhere _ (λ x q. ground arith) rsvps))

nobody_left :
    (event_id user_id : ℕ) (rsvps : List EventRsvpRow) (e : EventRow)
    → any (is_rsvp event_id user_id) rsvps ≡ false
    → e.rsvp_count ≡ count_where (rsvp_for e.id) rsvps
    → e.rsvp_count ≡ count_where (rsvp_for e.id) (delete_where (is_rsvp event_id user_id) rsvps)
nobody_left event_id user_id rsvps e absent h =
    let split = count_where-deleted (rsvp_for e.id) (is_rsvp event_id user_id) rsvps in
    let none' = count_zero_of_any (is_rsvp event_id user_id) rsvps absent in
    let le = count_and_le (rsvp_for e.id) (is_rsvp event_id user_id) rsvps in omega arith

pub fits_fewer : (limit : Option ℕ) (n : ℕ) → fits limit n ≡ true → fits limit (n - 1) ≡ true
fits_fewer none n h = refl
fits_fewer (some capacity) n h = ground arith

-- A successful withdrawal, where this holds and nobody has two rows, keeps every counter equal to
-- the number of RSVP rows of its event and within the event's capacity.
pub cancel_rsvp-AttendanceOk :
    (organisation_id event_id user_id : ℕ) (db db' : Db) (r : EventFull)
    → AttendanceOk db
    → cancel_rsvp organisation_id event_id user_id db ≡ ok (r, db')
    → AttendanceOk db'
cancel_rsvp-AttendanceOk organisation_id event_id user_id db db' r s h =
    let (e, found, t, cases) = cancel_rsvp_effect organisation_id event_id user_id db db' r h in
    let once' : (x u : ℕ)
        → count_where (is_rsvp x u) (delete_where (is_rsvp event_id user_id) db.event_rsvps) ≤ 1 =
      λ x u. omega (
        arith,
        s.once x u,
        count_where-le-delete (is_rsvp x u) (is_rsvp event_id user_id) db.event_rsvps,
      ) in
    elim cases [
      | inl (absent, t') ↦ record {
        unique = rw t' s.unique;
        counted =
            rw (t, t')
              (All-map _ _ (λ y c. nobody_left event_id user_id db.event_rsvps y absent c) db.events
                s.counted);
        capped = rw t' s.capped;
        once = rw t once';
      }
      | inr (going, t') ↦ record {
        unique = rw t' (
            UniqueBy-update_where (λ (y : EventRow). y.id) (is_event event_id) (count_down db.clock)
              db.events (λ y. refl) s.unique);
        counted =
            rw (t, t')
              (All-update_change _ _ (is_event event_id) (count_down db.clock) db.events
                (λ y hit c.
                  counted_down event_id user_id db.event_rsvps y db.clock going s.once hit c)
                (λ y miss c. counted_same event_id user_id db.event_rsvps y miss c) s.counted);
        capped = rw t' (
            All-update_where (λ (y : EventRow). fits y.max_attendees y.rsvp_count ≡ true)
              (is_event event_id) (count_down db.clock) db.events
              (λ y hit c. fits_fewer y.max_attendees y.rsvp_count c) s.capped);
        once = rw t once';
      }
    ]
