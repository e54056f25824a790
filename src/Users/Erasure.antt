-- ===== src/Users/Erasure.antt =====
-- `deleteAccount`, src/modules/users/users.service.ts: what it leaves of the account.
use ecotrack_api.Common.{
  ==_iff, All, All-everywhere, All-mapped, Bool, Bool-cases, List, Option, any, any-delete_none,
  any-delete_other, any-deleted, any-eq-true_of_count, ap, arith, count_where, delete_where, false,
  find_holds, inl, inr, is_value, none, not_true, refl, select, some, sym, true, update_where, ℕ,
  ◌<◌, ◌==◌, ◌∙◌, ◌≡◌, ◌≢◌,
}
use ecotrack_api.Db.{
  >>=-eq-ok, Db, EventRow, EventRsvpRow, IncidentRow, JoinRequestRow, Keeps, Keeps->>=, Keeps-eq,
  Keeps-for_each, Keeps-query, NotificationRow, TaskAssignmentRow, TaskRow, UserRow, for_each, ok,
  query, when_some,
}
use ecotrack_api.Events.{event_by_id, is_rsvp}
use ecotrack_api.Events.Attendance.{count_down}
use ecotrack_api.Tasks.{user_by_id}
use ecotrack_api.Tasks.Assignment.{cancel_row}
use ecotrack_api.Users.{is_user}
use ecotrack_api.Users.Deletion.{
  administered, assert_not_last_admin, cleared, delete_account, delete_found,
  deleted_user_sentinel_id, erase_user, give_back, has_run, is_counted, is_current_of,
  is_other_admin, is_unfinished, leave_organisation, pending_row, reassign_task_assignments,
  repoint, rsvp_of, seen_assignment, seen_of, seen_own, sees, withdraw, withdraw_future_rsvps,
  works_for,
}
use ecotrack_api.Users.Reassignment.{reassign_effect}

-- No row of these tables names the user any more.
pub record IsErased (user_id : ℕ) (db : Db) : Type 0 where
  pub users : any (is_user user_id) db.users ≡ false
  pub assignments : any (works_for user_id) db.task_assignments ≡ false
  pub rsvps : any (λ (r : EventRsvpRow). r.user_id == user_id) db.event_rsvps ≡ false
  pub join_requests : any (λ (j : JoinRequestRow). j.user_id == user_id) db.join_requests ≡ false
  pub notifications : any (λ (n : NotificationRow). n.user_id == user_id) db.notifications ≡ false
  pub incidents :
      All
        (λ (i : IncidentRow).
          (is_value i.reported_by_user_id user_id ≡ false)
          × (is_value i.claimed_by_user_id user_id ≡ false))
        db.incidents

cleared-other : (id : ℕ) (reference : Option ℕ) → is_value (cleared id reference) id ≡ false
cleared-other id none = refl
cleared-other id (some x) = elim (Bool-cases (x == id)) [
  | inl same ↦ rw same refl
  | inr other ↦ rw (other, other) refl
]

erase_user-IsErased : (id : ℕ) (db : Db) → IsErased id (erase_user id db)
unfolding erase_user
erase_user-IsErased id db = record {
  users = any-deleted (is_user id) db.users;
  assignments = any-deleted (works_for id) db.task_assignments;
  rsvps = any-deleted _ db.event_rsvps;
  join_requests = any-deleted _ db.join_requests;
  notifications = any-deleted _ db.notifications;
  incidents = All-mapped _ _ db.incidents (
      All-everywhere _
        (λ (i : IncidentRow).
          (cleared-other id i.reported_by_user_id, cleared-other id i.claimed_by_user_id))
        db.incidents);
}

-- The check for the last admin changes nothing, and passes only with another active admin.
admin_check :
    (id : ℕ) (o : Option ℕ) (db db' : Db)
    → when_some o (assert_not_last_admin id) db ≡ ok (tt, db')
    → (db' ≡ db)
      × ((organisation_id : ℕ)
          → o ≡ some organisation_id
          → 0 < count_where (is_other_admin organisation_id id) db.users)
unfolding assert_not_last_admin
admin_check id none db db' h = (ground arith, (λ organisation_id e. absurd (cc)))
admin_check id (some o) db db' h =
    elim (Bool-cases (count_where (is_other_admin o id) db.users == 0)) [
      | inl zero' ↦ absurd (ground arith)
      | inr some' ↦ (
        ground arith,
        (λ organisation_id e.
            let at : o ≡ organisation_id = ground arith in rw⁻¹ at (ground arith)),
      )
    ]

-- The steps of a successful `deleteAccount` of an account that exists.
pub delete_account_effect :
    (user_id : ℕ) (u : UserRow) (db db' : Db)
    → user_by_id user_id db ≡ some u
    → delete_account user_id db ≡ ok (tt, db')
    → (db₁ : Db) × ((organisation_id : ℕ)
        → administered u ≡ some organisation_id
        → 0 < count_where (is_other_admin organisation_id u.id) db.users)
      × (when_some u.organisation_id (leave_organisation (sees u) u.id) db ≡ ok (tt, db₁))
      × (db' ≡ erase_user u.id db₁)
unfolding delete_account delete_found
delete_account_effect user_id u db db' found h =
    let k : delete_found u db ≡ ok (tt, db') = ground arith in
    let (s, e, g) = >>=-eq-ok (when_some (administered u) (assert_not_last_admin u.id)) _ db k in
    let (same, others) = admin_check u.id (administered u) db s.1 e in
    let (t, f, g') =
      >>=-eq-ok (when_some u.organisation_id (leave_organisation (sees u) u.id)) _ s.1 g in
    (
      t.1,
      others,
      sym (ap (when_some u.organisation_id (leave_organisation (sees u) u.id)) same) ∙ f,
      ground arith,
    )

module _ {X : Type 0} (part : Db → X)
    (blind : (db : Db) (rs : List EventRsvpRow) (es : List EventRow)
      → part (record db { event_rsvps = rs; events = es }) ≡ part db) where
  withdraw-Keeps : (user_id : ℕ) (r : EventRsvpRow) → Keeps part (withdraw user_id r)
  unfolding withdraw Keeps
  withdraw-Keeps user_id r db db' t h =
      let rest = delete_where (is_rsvp r.event_id user_id) db.event_rsvps in
      elim (Bool-cases (has_run (event_by_id r.event_id db))) [
        | inl over ↦
            let e : db' ≡ record db { event_rsvps = rest; events = db.events } = ground arith in
            ap part e ∙ blind db _ _
        | inr open' ↦
            let e : db' ≡ record db {
              event_rsvps = rest;
              events = update_where (is_counted r.event_id) (count_down db.clock) db.events;
            } =
              ground arith in
            ap part e ∙ blind db _ _
      ]

  withdraw_future-Keeps :
      (organisation_id user_id : ℕ) → Keeps part (withdraw_future_rsvps organisation_id user_id)
  unfolding withdraw_future_rsvps
  withdraw_future-Keeps organisation_id user_id =
      Keeps->>= part (query (λ db. select (rsvp_of organisation_id user_id) db.event_rsvps))
        (λ rsvps. for_each rsvps (withdraw user_id))
        (Keeps-query part (λ db. select (rsvp_of organisation_id user_id) db.event_rsvps))
        (λ rsvps. Keeps-for_each part rsvps (withdraw user_id) (withdraw-Keeps user_id))

module _ {X : Type 0} (part : Db → X)
    (blind : (db : Db) (ws : List TaskAssignmentRow) (ts : List TaskRow) (rs : List EventRsvpRow)
        (es : List EventRow)
      → part (record db { task_assignments = ws; tasks = ts; event_rsvps = rs; events = es })
        ≡ part db) where
  give_back-Keeps : (visible : ℕ → Bool) (a : TaskAssignmentRow) → Keeps part (give_back visible a)
  unfolding Keeps
  give_back-Keeps visible a db db' t h =
      let e : db' ≡ record db {
        task_assignments =
            update_where (seen_assignment visible a.id) (cancel_row db.clock) db.task_assignments;
        tasks = update_where (is_unfinished visible a.task_id) (pending_row db.clock) db.tasks;
        event_rsvps = db.event_rsvps;
        events = db.events;
      } =
        ground arith in
      ap part e ∙ blind db _ _ _ _

  -- What leaving an organisation does not touch.
  pub leave-Keeps :
      (visible : ℕ → Bool) (user_id : ℕ) (o : Option ℕ) (db db' : Db)
      → when_some o (leave_organisation visible user_id) db ≡ ok (tt, db')
      → part db' ≡ part db
  unfolding reassign_task_assignments
  leave-Keeps visible user_id none db db' h = ap part (ground arith)
  leave-Keeps visible user_id (some o) db db' h =
      let (s, e, g) = >>=-eq-ok (reassign_task_assignments visible user_id) _ db h in
      let rows =
        delete_where (seen_of visible user_id)
          (repoint visible db.clock user_id db.task_assignments) in
      Keeps-eq part (withdraw_future_rsvps o user_id)
        (withdraw_future-Keeps part (λ d rs es. blind d d.task_assignments d.tasks rs es) o user_id)
        s.1 db' tt g
      ∙ Keeps-eq part
          (for_each (select (is_current_of visible deleted_user_sentinel_id) rows)
            (give_back visible))
          (Keeps-for_each part (select (is_current_of visible deleted_user_sentinel_id) rows)
            (give_back visible) (give_back-Keeps visible))
          (record db { task_assignments = rows }) s.1 tt e
      ∙ blind db rows db.tasks db.event_rsvps db.events

-- A successful `deleteAccount` of an account that exists leaves no row for it, and no assignment,
-- RSVP, join request, notification, report or claim that names it; and every organisation that it
-- was an admin of keeps another admin, who is active.
pub delete_account-erases :
    (user_id : ℕ) (u : UserRow) (db db' : Db)
    → user_by_id user_id db ≡ some u
    → delete_account user_id db ≡ ok (tt, db')
    → IsErased user_id db'
      × ((organisation_id : ℕ)
          → administered u ≡ some organisation_id
          → any (is_other_admin organisation_id user_id) db'.users ≡ true)
unfolding erase_user
delete_account-erases user_id u db db' found h =
    let (db₁, others, left, at) = delete_account_effect user_id u db db' found h in
    let me : u.id ≡ user_id = (==_iff _ _).0 (find_holds (is_user user_id) db.users found) in
    (
      rw at (rw me (erase_user-IsErased user_id db₁)),
      (λ organisation_id e.
          let many : 0 < count_where (is_other_admin organisation_id user_id) db.users =
            rw⁻¹ me (others organisation_id e) in
          rw
            (
              at,
              me,
              leave-Keeps (λ d. d.users) (λ d ws ts rs es. refl) (sees u) u.id u.organisation_id db
                  db₁ left,
            )
            (any-delete_other (is_other_admin organisation_id user_id) (is_user user_id) db.users
              (λ y p. ground arith)
              (any-eq-true_of_count (is_other_admin organisation_id user_id) db.users many))),
    )

left_by :
    (visible : ℕ → Bool) (id user_id organisation_id : ℕ) (o : Option ℕ) (db db' : Db)
    → id ≡ user_id
    → o ≡ some organisation_id
    → when_some o (leave_organisation visible id) db ≡ ok (tt, db')
    → leave_organisation visible user_id organisation_id db ≡ ok (tt, db')
left_by visible id user_id organisation_id none db db' me member h = absurd (cc)
left_by visible id user_id organisation_id (some o) db db' me member h =
    let at : o ≡ organisation_id = ground arith in rw⁻¹ (me, at) h

-- A successful `deleteAccount` of a member of an organisation, other than the sentinel, leaves the
-- sentinel with an assignment on every task on which the account had one, and with no active one, as
-- far as the account sees: in its organisation, or in any for a platform admin.
pub delete_account-keeps_history :
    (user_id organisation_id : ℕ) (u : UserRow) (db db' : Db)
    → user_id ≢ deleted_user_sentinel_id
    → user_by_id user_id db ≡ some u
    → u.organisation_id ≡ some organisation_id
    → delete_account user_id db ≡ ok (tt, db')
    → (any (is_current_of (sees u) deleted_user_sentinel_id) db'.task_assignments ≡ false)
      × ((task_id : ℕ)
          → any (seen_own (sees u) task_id user_id) db.task_assignments ≡ true
          → any (seen_own (sees u) task_id deleted_user_sentinel_id) db'.task_assignments ≡ true)
unfolding erase_user
delete_account-keeps_history user_id organisation_id u db db' apart found member h =
    let (db₁, others, left, at) = delete_account_effect user_id u db db' found h in
    let me : u.id ≡ user_id = (==_iff _ _).0 (find_holds (is_user user_id) db.users found) in
    let gone : leave_organisation (sees u) user_id organisation_id db ≡ ok (tt, db₁) =
      left_by (sees u) u.id user_id organisation_id u.organisation_id db db₁ me member left in
    let (s, e, g) = >>=-eq-ok (reassign_task_assignments (sees u) user_id) _ db gone in
    let same : db₁.task_assignments ≡ s.1.task_assignments =
      Keeps-eq (λ d. d.task_assignments) (withdraw_future_rsvps organisation_id user_id)
        (withdraw_future-Keeps (λ d. d.task_assignments) (λ d rs es. refl) organisation_id user_id)
        s.1 db₁ tt g in
    let (idle, held) = reassign_effect (sees u) user_id db s.1 apart e in
    (
      rw (at, me, same)
          (any-delete_none (is_current_of (sees u) deleted_user_sentinel_id) (works_for user_id)
            s.1.task_assignments idle),
      (λ task_id had.
          rw (at, me, same)
            (any-delete_other (seen_own (sees u) task_id deleted_user_sentinel_id)
              (works_for user_id) s.1.task_assignments
              (λ y own. not_true _ (λ w. apart (ground arith))) (held task_id had))),
    )
