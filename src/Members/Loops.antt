-- ===== src/Members/Loops.antt =====
-- The two loops of `removeVolunteer`, src/modules/organisations/organisation-members.service.ts.
use ecotrack_api.Common.{
  ==_refl, All, All-selected_among, All-delete_change, All-map, All-update_change, Bool, Bool-cases,
  List, [], any, any-refuted, arith, delete_where, false, find, inl, inr, refl, select, sym, true,
  update_where, ℕ, ◌==◌, ◌∙◌, ◌∷◌, ◌≡◌, ◌⊎◌,
}
use ecotrack_api.Db.{
  Db, EventRow, EventRsvpRow, Keeps, Keeps->>=, Keeps-for_each, Keeps-query, TaskAssignmentRow,
  for_each, for_each-drains, ok, query,
}
use ecotrack_api.Events.{event_by_id, is_event, is_rsvp}
use ecotrack_api.Events.Attendance.{count_down}
use ecotrack_api.Members.{is_duty, relieve, relieve_all, withdraw_all_open, withdraw_open}
use ecotrack_api.Tasks.Assignment.{cancel_row, has_assignment_id}
use ecotrack_api.Users.Deletion.{has_run, is_counted, rsvp_of}
use ecotrack_api.Users.Reassignment.{listed}

-- Over the first loop: the volunteer's duties are among the items still to come.
abbrev Draining : ℕ → ℕ → List TaskAssignmentRow → Db → Type 0
Draining organisation_id user_id xs db =
    All
      (λ (a : TaskAssignmentRow). is_duty organisation_id user_id a ≡ true → listed xs a.id ≡ true)
      db.task_assignments

relieve-Draining :
    (organisation_id user_id : ℕ) (x : TaskAssignmentRow) (rest : List TaskAssignmentRow)
    (db db' : Db)
    → Draining organisation_id user_id (x ∷ rest) db
    → relieve x db ≡ ok (tt, db')
    → Draining organisation_id user_id rest db'
unfolding any
relieve-Draining organisation_id user_id x rest db db' h e =
    let t : db'.task_assignments
        ≡ update_where (has_assignment_id x.id) (cancel_row db.clock) db.task_assignments =
      ground arith in
    rw t (
      All-update_change _ _ (has_assignment_id x.id) (cancel_row db.clock) db.task_assignments
        (λ a hit k. (λ current. absurd (ground arith)))
        (λ a miss k. (λ current. ground (arith, k current))) h)

pub relieve_all-idle :
    (organisation_id user_id : ℕ) (db db' : Db)
    → relieve_all organisation_id user_id db ≡ ok (tt, db')
    → any (is_duty organisation_id user_id) db'.task_assignments ≡ false
unfolding relieve_all any
relieve_all-idle organisation_id user_id db db' h =
    any-refuted (is_duty organisation_id user_id) db'.task_assignments (
      for_each-drains (Draining organisation_id user_id) relieve
        (relieve-Draining organisation_id user_id)
        (select (is_duty organisation_id user_id) db.task_assignments) db db'
        (All-selected_among (is_duty organisation_id user_id) (λ a x. x.id == a.id)
          db.task_assignments (λ y. ==_refl y.id))
        h)

abbrev to_come : List EventRsvpRow → ℕ → Bool
to_come xs event_id = any (λ (x : EventRsvpRow). x.event_id == event_id) xs

-- Over the second loop: no event starts or ends, and the volunteer's RSVPs on the events that have
-- not run are among the items still to come.
pub record Leaving (run : ℕ → Bool) (organisation_id user_id : ℕ) (xs : List EventRsvpRow) (db : Db)
    : Type 0 where
  pub steady : (id : ℕ) → has_run (event_by_id id db) ≡ run id
  pub left :
      All
        (λ (r : EventRsvpRow).
          rsvp_of organisation_id user_id r ≡ true
          → run r.event_id ≡ false
          → to_come xs r.event_id ≡ true)
        db.event_rsvps

has_run-uncount :
    (now event_id id : ℕ) (rows : List EventRow)
    → has_run (find (is_event id) (update_where (is_counted event_id) (count_down now) rows))
      ≡ has_run (find (is_event id) rows)
unfolding find update_where
has_run-uncount now event_id id [] = refl
has_run-uncount now event_id id (x ∷ xs) = ground (arith, has_run-uncount now event_id id xs)

-- What one round of the second loop does.
pub withdraw_open_effect :
    (user_id : ℕ) (x : EventRsvpRow) (db db' : Db)
    → withdraw_open user_id x db ≡ ok (tt, db')
    → ((has_run (event_by_id x.event_id db) ≡ true) × (db' ≡ db))
      ⊎ ((has_run (event_by_id x.event_id db) ≡ false)
          × (db' ≡ record db {
            event_rsvps = delete_where (is_rsvp x.event_id user_id) db.event_rsvps;
            events = update_where (is_counted x.event_id) (count_down db.clock) db.events;
          }))
unfolding withdraw_open
withdraw_open_effect user_id x db db' h = elim (Bool-cases (has_run (event_by_id x.event_id db))) [
  | inl over ↦ inl (over, ground arith)
  | inr open' ↦ inr (open', ground arith)
]

withdraw_open-Leaving :
    (run : ℕ → Bool) (organisation_id user_id : ℕ) (x : EventRsvpRow) (rest : List EventRsvpRow)
    (db db' : Db)
    → Leaving run organisation_id user_id (x ∷ rest) db
    → withdraw_open user_id x db ≡ ok (tt, db')
    → Leaving run organisation_id user_id rest db'
unfolding any
withdraw_open-Leaving run organisation_id user_id x rest db db' h e =
    elim (withdraw_open_effect user_id x db db' e) [
      | inl (over, same) ↦
          let ran : run x.event_id ≡ true = sym (h.steady x.event_id) ∙ over in
          rw same (record {
            steady = h.steady;
            left =
                All-map _ _ (λ r k. (λ mine open'. still r.event_id ran open' (k mine open')))
                  db.event_rsvps h.left;
          })
      | inr (open', at) ↦ rw at (record {
        steady = λ id. has_run-uncount db.clock x.event_id id db.events ∙ h.steady id;
        left =
            All-delete_change _ _ (is_rsvp x.event_id user_id) db.event_rsvps
              (λ r kept k. (λ mine open''. ground (arith, k mine open''))) h.left;
      })
    ]
  where
    still :
        (id : ℕ)
        → run x.event_id ≡ true
        → run id ≡ false
        → to_come (x ∷ rest) id ≡ true
        → to_come rest id ≡ true
    still id ran open' k = elim (Bool-cases (x.event_id == id)) [
      | inl same ↦
          let here : x.event_id ≡ id = ground arith in
          let ran' : run id ≡ true = rw⁻¹ here ran in absurd (ground arith)
      | inr other ↦ ground arith
    ]

pub withdraw_all_open-left :
    (organisation_id user_id : ℕ) (db db' : Db)
    → withdraw_all_open organisation_id user_id db ≡ ok (tt, db')
    → All
        (λ (r : EventRsvpRow).
          rsvp_of organisation_id user_id r ≡ true → has_run (event_by_id r.event_id db') ≡ true)
        db'.event_rsvps
unfolding withdraw_all_open any
withdraw_all_open-left organisation_id user_id db db' h =
    let run : ℕ → Bool = λ id. has_run (event_by_id id db) in
    let done : Leaving run organisation_id user_id [] db' =
      for_each-drains (Leaving run organisation_id user_id) (withdraw_open user_id)
        (withdraw_open-Leaving run organisation_id user_id)
        (select (rsvp_of organisation_id user_id) db.event_rsvps) db db'
        (record {
          steady = λ id. refl;
          left =
              All-map _ _ (λ r k. (λ mine open'. k mine)) db.event_rsvps
                (All-selected_among (rsvp_of organisation_id user_id)
                  (λ r x. x.event_id == r.event_id) db.event_rsvps (λ y. ==_refl y.event_id));
        })
        h in
    All-map _ _
      (λ r k. (λ mine. elim (Bool-cases (run r.event_id)) [
        | inl ran ↦ done.steady r.event_id ∙ ran
        | inr open' ↦ absurd (ground (arith, k mine open'))
      ]))
      db'.event_rsvps done.left

withdraw_open-assignments :
    (user_id : ℕ) (r : EventRsvpRow) → Keeps (λ db. db.task_assignments) (withdraw_open user_id r)
unfolding Keeps
withdraw_open-assignments user_id r db db' t h = elim (withdraw_open_effect user_id r db db' h) [
  | inl (_, same) ↦ ground arith
  | inr (_, at) ↦ ground arith
]

pub withdraw_all_open-assignments :
    (organisation_id user_id : ℕ)
    → Keeps (λ db. db.task_assignments) (withdraw_all_open organisation_id user_id)
unfolding withdraw_all_open
withdraw_all_open-assignments organisation_id user_id =
    Keeps->>= (λ db. db.task_assignments)
      (query (λ db. select (rsvp_of organisation_id user_id) db.event_rsvps))
      (λ rsvps. for_each rsvps (withdraw_open user_id))
      (Keeps-query _ (λ db. select (rsvp_of organisation_id user_id) db.event_rsvps))
      (λ rsvps. Keeps-for_each _ rsvps (withdraw_open user_id) (withdraw_open-assignments user_id))
