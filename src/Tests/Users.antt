-- ===== src/Tests/Users.antt =====
-- Accounts on the small database: a first sign-in, and deleted accounts.
use ecotrack_api.Common.{
  Bool, String, [], any, arith, count_where, delete_where, false, find, none, refl, select, some,
  true, update_where, ℕ, ◌↔◌, ◌∷◌, ◌≡◌, ◌≤◌,
}
use ecotrack_api.Db.{
  AssignmentStatus, Db, NotificationType, TaskAssignmentRow, UserRole, UserRow, conflict, err,
  for_each, ok,
}
use ecotrack_api.Push.{
  ExpoPushMessage, PushPayload, is_enabled, push_if_eligible, push_message, push_preference_key,
  push_to, send,
}
use ecotrack_api.Push.Consent.{Consents, Reaches, Silences, TurnsOn, update_profile-pushes}
use ecotrack_api.Tasks.{new_assignment}
use ecotrack_api.Tests.Fixtures.{base, state_after, user}
use ecotrack_api.Users.{
  Claims, PreferencesPatch, ProfilePatch, find_or_provision, has_subject, new_user, profile_row,
  provision_user, update_profile,
}
use ecotrack_api.Users.Deletion.{
  administered, assert_not_last_admin, delete_account, delete_found, deleted_user_sentinel_id,
  erase_user, is_current_of, is_other_admin, reassign_task_assignments, repoint, seen_own, sees,
  withdraw, withdraw_future_rsvps,
}
use ecotrack_api.Users.Erasure.{IsErased, delete_account-erases, delete_account-keeps_history}
use ecotrack_api.Users.Provisioning.{find_or_provision-one_account, find_or_provision-settles}

abbrev newcomer : Claims
newcomer = record { auth_subject = "sub-1"; email = "new@example.org"; full_name = "New Comer" }

abbrev signed_in : Db
signed_in = record base { users = user 2 UserRole.org_admin ∷ [] }

abbrev provisioned : UserRow
provisioned = new_user 100 1000 newcomer

abbrev after_sign_in : Db
after_sign_in = state_after (find_or_provision newcomer) signed_in

find_or_provision-settles_example :
    (provisioned.auth_subject ≡ newcomer.auth_subject)
    × (provisioned.email ≡ newcomer.email)
    × (provisioned.full_name ≡ newcomer.full_name)
    × (find_or_provision newcomer after_sign_in ≡ ok (provisioned, after_sign_in))
unfolding find_or_provision provision_user find any
find_or_provision-settles_example =
    find_or_provision-settles newcomer signed_in after_sign_in provisioned refl

find_or_provision-one_account_example : count_where (has_subject "sub-1") after_sign_in.users ≤ 1
unfolding find_or_provision provision_user find any count_where
find_or_provision-one_account_example =
    find_or_provision-one_account newcomer signed_in after_sign_in provisioned (λ s. ground arith)
      refl "sub-1"

-- A second admin, and an assignment of volunteer 5.
abbrev duty : TaskAssignmentRow
duty = record (new_assignment 40 60 1 50 5) { status = AssignmentStatus.accepted }

abbrev staffed : Db
staffed = record base {
  users = user 2 UserRole.org_admin ∷ user 9 UserRole.org_admin ∷ user 5 UserRole.volunteer ∷ [];
  task_assignments = duty ∷ [];
}

abbrev without_admin : Db
without_admin = state_after (delete_account 2) staffed

delete_account-erases_example :
    IsErased 2 without_admin
    × ((organisation_id : ℕ)
        → administered (user 2 UserRole.org_admin) ≡ some organisation_id
        → any (is_other_admin organisation_id 2) without_admin.users ≡ true)
unfolding delete_account delete_found assert_not_last_admin reassign_task_assignments repoint
    withdraw_future_rsvps withdraw erase_user for_each find select update_where delete_where
    count_where any
delete_account-erases_example =
    delete_account-erases 2 (user 2 UserRole.org_admin) staffed without_admin refl refl

abbrev without_volunteer : Db
without_volunteer = state_after (delete_account 5) staffed

delete_account-keeps_history_example :
    (any
        (is_current_of (sees (user 5 UserRole.volunteer)) deleted_user_sentinel_id)
        without_volunteer.task_assignments
      ≡ false)
    × ((task_id : ℕ)
        → any (seen_own (sees (user 5 UserRole.volunteer)) task_id 5) staffed.task_assignments
          ≡ true
        → any
            (seen_own (sees (user 5 UserRole.volunteer)) task_id deleted_user_sentinel_id)
            without_volunteer.task_assignments
          ≡ true)
unfolding delete_account delete_found assert_not_last_admin reassign_task_assignments repoint
    withdraw_future_rsvps withdraw erase_user for_each find select update_where delete_where
    count_where any
delete_account-keeps_history_example =
    delete_account-keeps_history 5 1 (user 5 UserRole.volunteer) staffed without_volunteer
      (λ e. absurd (omega arith)) refl refl refl

-- The work for another organisation, which the account has left, goes with the account.
abbrev moved_on : Db
moved_on = record staffed { task_assignments = record duty { organisation_id = 7 } ∷ [] }

history_lost : (state_after (delete_account 5) moved_on).task_assignments ≡ []
unfolding delete_account delete_found assert_not_last_admin reassign_task_assignments repoint
    withdraw_future_rsvps withdraw erase_user for_each find select update_where delete_where
    count_where any
history_lost = refl

-- The only admin of an organisation cannot be deleted.
last_admin :
    delete_account 2 base ≡ err (conflict "You are the last admin of an active organisation")
unfolding delete_account delete_found assert_not_last_admin find count_where
last_admin = refl

-- Account 6 can be pushed to, until it turns its task notices off.
abbrev volunteer_6 : UserRow
volunteer_6 = record (user 6 UserRole.volunteer) { push_token = some "ExponentPushToken" }

abbrev pushed_to : Db
pushed_to = record base { users = volunteer_6 ∷ [] }

abbrev no_task_notices : ProfilePatch
no_task_notices = record {
  full_name = none;
  push_token = none;
  notification_preferences =
      some record { task_assigned = some false; schedule_changed = none; cleanup_scheduled = none };
  notification_radius_meters = none;
  notification_min_urgency = none;
  alert_center = none;
}

abbrev after_opt_out : Db
after_opt_out = state_after (update_profile 6 no_task_notices) pushed_to

abbrev opted_out : UserRow
opted_out = profile_row 100 no_task_notices volunteer_6 volunteer_6

abbrev any_token : String → Bool
any_token token = true

abbrev task_payload : PushPayload
task_payload = record {
  type = NotificationType.task_assigned;
  related_entity_type = some "task";
  related_entity_id = some 20;
}

update_profile-pushes_example :
    (((m : ExpoPushMessage) × (push_if_eligible any_token 6 NotificationType.task_assigned
            "New task" "Clean up" task_payload after_opt_out
          ≡ ok (some m, after_opt_out)))
      ↔ ((token : String) × Reaches any_token NotificationType.task_assigned opted_out token))
    × ((q : PreferencesPatch)
        → no_task_notices.notification_preferences ≡ some q
        → Consents NotificationType.task_assigned opted_out.notification_preferences
          ↔ TurnsOn NotificationType.task_assigned q)
    × (no_task_notices.notification_preferences ≡ none
        → opted_out.notification_preferences ≡ volunteer_6.notification_preferences)
    × (Silences NotificationType.task_assigned no_task_notices
        → push_if_eligible any_token 6 NotificationType.task_assigned "New task" "Clean up"
            task_payload after_opt_out
          ≡ ok (none, after_opt_out))
unfolding update_profile update_where find
update_profile-pushes_example =
    update_profile-pushes any_token 6 no_task_notices opted_out volunteer_6 pushed_to after_opt_out
      NotificationType.task_assigned "New task" "Clean up" task_payload refl refl

-- The patch names the task notices alone, and those of a changed schedule go off with them.
toggle_erased :
    (volunteer_6.notification_preferences.schedule_changed ≡ some true)
    × (opted_out.notification_preferences.schedule_changed ≡ none)
toggle_erased = (refl, refl)

-- Before, the message goes out.
pushed_before :
    push_if_eligible any_token 6 NotificationType.task_assigned "New task" "Clean up" task_payload
      pushed_to
    ≡ ok (some (push_message "ExponentPushToken" "New task" "Clean up" task_payload), pushed_to)
unfolding push_if_eligible push_to send is_enabled push_preference_key find
pushed_before = refl
