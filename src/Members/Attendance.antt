-- ===== src/Members/Attendance.antt =====
-- `removeVolunteer`, src/modules/organisations/organisation-members.service.ts, keeps the attendance
-- counters of src/modules/events/events.service.ts.
use ecotrack_api.Common.{
  ==_refl, All, All-any_own, All-selected_map, All-update_change, All-update_where, Bool-cases,
  List, UniqueBy, UniqueBy-update_where, [], any, any-delete_other, arith, count_where,
  count_where-le-delete, delete_where, false, inl, inr, not_true, refl, select, true, update_where,
  ℕ, ◌∷◌, ◌≡◌, ◌≢◌, ◌≤◌,
}
use ecotrack_api.Db.{
  Db, EventRow, EventRsvpRow, Keeps, Keeps-eq, Keeps-for_each, TaskAssignmentRow, for_each,
  for_each-drains, ok,
}
use ecotrack_api.Events.{is_event, is_rsvp, rsvp_for}
use ecotrack_api.Events.Attendance.{count_down}
use ecotrack_api.Events.Attendees.{counted_down, counted_same, fits_fewer}
use ecotrack_api.Events.Capacity.{AttendanceOk, fits}
use ecotrack_api.Members.{
  end_membership, is_duty, relieve, relieve_all, remove_volunteer, withdraw_all_open, withdraw_open,
}
use ecotrack_api.Members.Loops.{withdraw_open_effect}
use ecotrack_api.Members.Removal.{remove_volunteer_effect}
use ecotrack_api.Users.Deletion.{is_counted, rsvp_of}

-- Over the second loop: the tables are sound, and every RSVP still to come is there, once.
record Withdrawing (user_id : ℕ) (xs : List EventRsvpRow) (db : Db) : Type 0 where
  pub sound : AttendanceOk db
  pub there : All (λ (x : EventRsvpRow). any (is_rsvp x.event_id user_id) db.event_rsvps ≡ true) xs
  pub apart : UniqueBy (λ (x : EventRsvpRow). x.event_id) xs

uncounted_row :
    (now event_id user_id : ℕ) (rsvps : List EventRsvpRow) (e : EventRow)
    → any (is_rsvp event_id user_id) rsvps ≡ true
    → ((e u : ℕ) → count_where (is_rsvp e u) rsvps ≤ 1)
    → is_counted event_id e ≡ false
    → e.rsvp_count ≡ count_where (rsvp_for e.id) rsvps
    → e.rsvp_count ≡ count_where (rsvp_for e.id) (delete_where (is_rsvp event_id user_id) rsvps)
uncounted_row now event_id user_id rsvps e going once miss h =
    elim (Bool-cases (is_event event_id e)) [
      | inl here ↦
          let down = counted_down event_id user_id rsvps e now going once here h in ground arith
      | inr other ↦ counted_same event_id user_id rsvps e other h
    ]

withdraw_one-AttendanceOk :
    (event_id user_id : ℕ) (db : Db)
    → AttendanceOk db
    → any (is_rsvp event_id user_id) db.event_rsvps ≡ true
    → AttendanceOk (record db {
      event_rsvps = delete_where (is_rsvp event_id user_id) db.event_rsvps;
      events = update_where (is_counted event_id) (count_down db.clock) db.events;
    })
withdraw_one-AttendanceOk event_id user_id db s going = record {
  unique =
      UniqueBy-update_where (λ (y : EventRow). y.id) (is_counted event_id) (count_down db.clock)
        db.events (λ y. refl) s.unique;
  counted =
      All-update_change _ _ (is_counted event_id) (count_down db.clock) db.events
        (λ y hit c.
          counted_down event_id user_id db.event_rsvps y db.clock going s.once (ground arith) c)
        (λ y miss c. uncounted_row db.clock event_id user_id db.event_rsvps y going s.once miss c)
        s.counted;
  capped =
      All-update_where (λ (y : EventRow). fits y.max_attendees y.rsvp_count ≡ true)
        (is_counted event_id) (count_down db.clock) db.events
        (λ y hit c. fits_fewer y.max_attendees y.rsvp_count c) s.capped;
  once = λ x u. omega (
    arith,
    s.once x u,
    count_where-le-delete (is_rsvp x u) (is_rsvp event_id user_id) db.event_rsvps,
  );
}

withdraw_open-Withdrawing :
    (user_id : ℕ) (x : EventRsvpRow) (rest : List EventRsvpRow) (db db' : Db)
    → Withdrawing user_id (x ∷ rest) db
    → withdraw_open user_id x db ≡ ok (tt, db')
    → Withdrawing user_id rest db'
withdraw_open-Withdrawing user_id x rest db db' h e =
    elim (withdraw_open_effect user_id x db db' e) [
      | inl (over, same) ↦
          rw same (record { sound = h.sound; there = h.there.1; apart = h.apart.1 })
      | inr (open', at) ↦ rw at (record {
        sound = withdraw_one-AttendanceOk x.event_id user_id db h.sound h.there.0;
        there = others rest h.apart.0 h.there.1;
        apart = h.apart.1;
      })
    ]
  where
    others :
        (ys : List EventRsvpRow)
        → All (λ (y : EventRsvpRow). y.event_id ≢ x.event_id) ys
        → All (λ (y : EventRsvpRow). any (is_rsvp y.event_id user_id) db.event_rsvps ≡ true) ys
        → All
            (λ (y : EventRsvpRow).
              any
                (is_rsvp y.event_id user_id)
                (delete_where (is_rsvp x.event_id user_id) db.event_rsvps)
              ≡ true)
            ys
    others [] n t = tt
    others (y ∷ ys) n t = (
      any-delete_other (is_rsvp y.event_id user_id) (is_rsvp x.event_id user_id) db.event_rsvps
          (λ z own. not_true _ (λ hit. n.0 (ground arith))) t.0,
      others ys n.1 t.1,
    )

elsewhere :
    (organisation_id user_id event_id : ℕ) (rows : List EventRsvpRow)
    → count_where (is_rsvp event_id user_id) rows ≡ 0
    → All
        (λ (y : EventRsvpRow). y.event_id ≢ event_id)
        (select (rsvp_of organisation_id user_id) rows)
unfolding select count_where
elsewhere organisation_id user_id event_id [] h = tt
elsewhere organisation_id user_id event_id (x ∷ xs) h =
    elim (Bool-cases (rsvp_of organisation_id user_id x)) [
      | inl mine ↦ rw mine (
        (λ same. absurd (ground arith)),
        elsewhere organisation_id user_id event_id xs (ground arith),
      )
      | inr not_mine ↦ rw not_mine (elsewhere organisation_id user_id event_id xs (ground arith))
    ]

one_each :
    (organisation_id user_id : ℕ) (rows : List EventRsvpRow)
    → ((e : ℕ) → count_where (is_rsvp e user_id) rows ≤ 1)
    → UniqueBy (λ (x : EventRsvpRow). x.event_id) (select (rsvp_of organisation_id user_id) rows)
unfolding select count_where
one_each organisation_id user_id [] h = tt
one_each organisation_id user_id (x ∷ xs) h =
    let rest = one_each organisation_id user_id xs (λ e. ground (arith, h e)) in
    elim (Bool-cases (rsvp_of organisation_id user_id x)) [
      | inl mine ↦
          rw mine
            (elsewhere organisation_id user_id x.event_id xs (ground (arith, h x.event_id)), rest)
      | inr not_mine ↦ rw not_mine rest
    ]

AttendanceOk-transfer :
    (db db' : Db)
    → db'.events ≡ db.events
    → db'.event_rsvps ≡ db.event_rsvps
    → AttendanceOk db
    → AttendanceOk db'
AttendanceOk-transfer db db' es rs s = record {
  unique = rw es s.unique;
  counted = rw (es, rs) s.counted;
  capped = rw es s.capped;
  once = rw rs s.once;
}

relieve-events : (a : TaskAssignmentRow) → Keeps (λ db. db.events) (relieve a)
unfolding Keeps
relieve-events a db db' t h = ground arith

relieve-rsvps : (a : TaskAssignmentRow) → Keeps (λ db. db.event_rsvps) (relieve a)
unfolding Keeps
relieve-rsvps a db db' t h = ground arith

relieve_all-AttendanceOk :
    (organisation_id user_id : ℕ) (db db' : Db)
    → AttendanceOk db
    → relieve_all organisation_id user_id db ≡ ok (tt, db')
    → AttendanceOk db'
unfolding relieve_all
relieve_all-AttendanceOk organisation_id user_id db db' s h =
    let duties = select (is_duty organisation_id user_id) db.task_assignments in
    AttendanceOk-transfer db db'
      (Keeps-eq (λ d. d.events) (for_each duties relieve)
        (Keeps-for_each (λ d. d.events) duties relieve relieve-events) db db' tt h)
      (Keeps-eq (λ d. d.event_rsvps) (for_each duties relieve)
        (Keeps-for_each (λ d. d.event_rsvps) duties relieve relieve-rsvps) db db' tt h)
      s

withdraw_all_open-AttendanceOk :
    (organisation_id user_id : ℕ) (db db' : Db)
    → AttendanceOk db
    → withdraw_all_open organisation_id user_id db ≡ ok (tt, db')
    → AttendanceOk db'
unfolding withdraw_all_open
withdraw_all_open-AttendanceOk organisation_id user_id db db' s h =
    (for_each-drains (Withdrawing user_id) (withdraw_open user_id)
      (withdraw_open-Withdrawing user_id) (select (rsvp_of organisation_id user_id) db.event_rsvps)
      db db'
      (record {
        sound = s;
        there =
            All-selected_map
              (λ (x : EventRsvpRow). any (is_rsvp x.event_id x.user_id) db.event_rsvps ≡ true)
              (λ (x : EventRsvpRow). any (is_rsvp x.event_id user_id) db.event_rsvps ≡ true)
              (rsvp_of organisation_id user_id) db.event_rsvps
              (λ y mine own. let me : y.user_id ≡ user_id = ground arith in rw⁻¹ me own)
              (All-any_own (λ x. is_rsvp x.event_id x.user_id) db.event_rsvps
                (λ y. rw (==_refl y.event_id, ==_refl y.user_id) refl));
        apart = one_each organisation_id user_id db.event_rsvps (λ e. s.once e user_id);
      })
      h).sound

-- A successful removeVolunteer, on tables where this holds and nobody has two rows, keeps every
-- rsvp counter equal to the number of RSVP rows of its event and within the event's capacity.
pub remove_volunteer-AttendanceOk :
    (organisation_id user_id acting_user_id : ℕ) (db db' : Db)
    → AttendanceOk db
    → remove_volunteer organisation_id user_id acting_user_id db ≡ ok (tt, db')
    → AttendanceOk db'
unfolding end_membership
remove_volunteer-AttendanceOk organisation_id user_id acting_user_id db db' s h =
    let (db₁, db₂, checked, e₁, e₂, e₃) =
      remove_volunteer_effect organisation_id user_id acting_user_id db db' h in
    AttendanceOk-transfer db₂ db' (ground arith) (ground arith) (
      withdraw_all_open-AttendanceOk organisation_id user_id db₁ db₂
        (relieve_all-AttendanceOk organisation_id user_id db db₁ s e₁) e₂)
