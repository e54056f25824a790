-- ===== src/Members/Removal.antt =====
-- `removeVolunteer`, src/modules/organisations/organisation-members.service.ts: nothing of the
-- organisation's is left with the volunteer.
use ecotrack_api.Common.{
  All, Bool-cases, List, Option-cases, [], any, ap, arith, false, find, inl, inr, is_value, none,
  refl, some, sym, true, update_where, ℕ, ◌&&◌, ◌==◌, ◌∙◌, ◌∷◌, ◌≡◌, ◌≢◌,
}
use ecotrack_api.Db.{>>=-eq-ok, Db, EventRsvpRow, Keeps-eq, UserRole, UserRow, is_volunteer, ok}
use ecotrack_api.Events.{event_by_id}
use ecotrack_api.Members.{
  assert_removable, end_membership, is_duty, relieve_all, remove_volunteer, withdraw_all_open,
}
use ecotrack_api.Members.Loops.{
  relieve_all-idle, withdraw_all_open-assignments, withdraw_all_open-left,
}
use ecotrack_api.Tasks.{find_membership}
use ecotrack_api.Users.{is_user, member_row}
use ecotrack_api.Users.Deletion.{has_run, rsvp_of}

assert_removable_state :
    (organisation_id user_id acting_user_id : ℕ) (db db' : Db)
    → assert_removable organisation_id user_id acting_user_id db ≡ ok (tt, db')
    → (db' ≡ db)
      × (user_id ≢ acting_user_id)
      × ((u : UserRow) × (find_membership organisation_id user_id db ≡ some u)
          × (is_volunteer u.role ≡ true))
unfolding assert_removable
assert_removable_state organisation_id user_id acting_user_id db db' h =
    elim (Bool-cases (user_id == acting_user_id)) [
      | inl self ↦ absurd (ground arith)
      | inr other ↦ elim (Option-cases (find_membership organisation_id user_id db)) [
        | inl none' ↦ absurd (ground arith)
        | inr (u, found) ↦ elim (Bool-cases (is_volunteer u.role)) [
          | inl yes' ↦ (ground arith, (λ e. absurd (ground arith)), (u, found, yes'))
          | inr no' ↦ absurd (ground arith)
        ]
      ]
    ]

-- The four parts of a successful `removeVolunteer`.
pub remove_volunteer_effect :
    (organisation_id user_id acting_user_id : ℕ) (db db' : Db)
    → remove_volunteer organisation_id user_id acting_user_id db ≡ ok (tt, db')
    → (db₁ db₂ : Db) × (assert_removable organisation_id user_id acting_user_id db ≡ ok (tt, db))
      × (relieve_all organisation_id user_id db ≡ ok (tt, db₁))
      × (withdraw_all_open organisation_id user_id db₁ ≡ ok (tt, db₂))
      × (end_membership organisation_id user_id acting_user_id db₂ ≡ ok (tt, db'))
unfolding remove_volunteer
remove_volunteer_effect organisation_id user_id acting_user_id db db' h =
    let (s, e, g) = >>=-eq-ok (assert_removable organisation_id user_id acting_user_id) _ db h in
    let (same, _, _) = assert_removable_state organisation_id user_id acting_user_id db s.1 e in
    let (t, f, g') = >>=-eq-ok (relieve_all organisation_id user_id) _ s.1 g in
    let (u, k, g'') = >>=-eq-ok (withdraw_all_open organisation_id user_id) _ t.1 g' in
    (
      t.1,
      u.1,
      e ∙ ap (λ d. ok (tt, d)) same,
      sym (ap (relieve_all organisation_id user_id) same) ∙ f,
      k,
      g'',
    )

no_member :
    (now organisation_id user_id : ℕ) (rows : List UserRow)
    → find
        (λ (u : UserRow). u.id == user_id && is_value u.organisation_id organisation_id)
        (update_where (is_user user_id) (member_row now none UserRole.citizen none) rows)
      ≡ none
unfolding find update_where
no_member now organisation_id user_id [] = refl
no_member now organisation_id user_id (x ∷ xs) =
    ground (arith, no_member now organisation_id user_id xs)

-- What a removed volunteer is left with: no membership, no active assignment of the organisation, and
-- RSVPs only on its events that are completed or cancelled.
pub record IsRemoved (organisation_id user_id : ℕ) (db : Db) : Type 0 where
  pub stranger : find_membership organisation_id user_id db ≡ none
  pub idle : any (is_duty organisation_id user_id) db.task_assignments ≡ false
  pub past :
      All
        (λ (r : EventRsvpRow).
          rsvp_of organisation_id user_id r ≡ true → has_run (event_by_id r.event_id db) ≡ true)
        db.event_rsvps

-- A successful removeVolunteer was not by the volunteer, found a member with the volunteer's role,
-- and leaves no membership, no active assignment in the organisation, and RSVPs only on events that
-- are completed or cancelled.
pub remove_volunteer-IsRemoved :
    (organisation_id user_id acting_user_id : ℕ) (db db' : Db)
    → remove_volunteer organisation_id user_id acting_user_id db ≡ ok (tt, db')
    → (user_id ≢ acting_user_id)
      × ((u : UserRow) × (find_membership organisation_id user_id db ≡ some u)
          × (is_volunteer u.role ≡ true))
      × IsRemoved organisation_id user_id db'
unfolding end_membership
remove_volunteer-IsRemoved organisation_id user_id acting_user_id db db' h =
    let (db₁, db₂, checked, e₁, e₂, e₃) =
      remove_volunteer_effect organisation_id user_id acting_user_id db db' h in
    let (_, other, member) =
      assert_removable_state organisation_id user_id acting_user_id db db checked in
    let users : db'.users
        ≡ update_where (is_user user_id) (member_row db₂.clock none UserRole.citizen none)
            db₂.users =
      ground arith in
    let rows : db'.task_assignments ≡ db₂.task_assignments = ground arith in
    let events : db'.events ≡ db₂.events = ground arith in
    let rsvps : db'.event_rsvps ≡ db₂.event_rsvps = ground arith in
    let same =
      Keeps-eq (λ d. d.task_assignments) (withdraw_all_open organisation_id user_id)
        (withdraw_all_open-assignments organisation_id user_id) db₁ db₂ tt e₂ in
    (
      other,
      member,
      record {
        stranger = rw users (no_member db₂.clock organisation_id user_id db₂.users);
        idle = rw (rows, same) (relieve_all-idle organisation_id user_id db db₁ e₁);
        past = rw (rsvps, events) (withdraw_all_open-left organisation_id user_id db₁ db₂ e₂);
      },
    )
