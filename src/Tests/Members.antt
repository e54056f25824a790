-- ===== src/Tests/Members.antt =====
-- Volunteer 5 of the small database, who has a task and an RSVP, is removed.
use ecotrack_api.Common.{
  [], any, arith, count_where, delete_where, find, refl, select, some, true, update_where, ℕ, ◌∷◌,
  ◌≡◌, ◌≢◌,
}
use ecotrack_api.Db.{AssignmentStatus, Db, TaskAssignmentRow, UserRow, for_each, is_volunteer}
use ecotrack_api.Events.Capacity.{AttendanceOk}
use ecotrack_api.Members.{
  assert_removable, end_membership, relieve_all, remove_volunteer, withdraw_all_open, withdraw_open,
}
use ecotrack_api.Members.Attendance.{remove_volunteer-AttendanceOk}
use ecotrack_api.Members.Removal.{IsRemoved, remove_volunteer-IsRemoved}
use ecotrack_api.Platform.Outbox.{tombstone}
use ecotrack_api.Tasks.{find_membership, new_assignment}
use ecotrack_api.Tests.Fixtures.{base, state_after}

abbrev task_50 : TaskAssignmentRow
task_50 = record (new_assignment 40 60 1 50 5) { status = AssignmentStatus.accepted }

abbrev departing : ℕ
departing = 5

abbrev busy : Db
busy = record base { task_assignments = task_50 ∷ [] }

abbrev removed : Db
removed = state_after (remove_volunteer 1 5 2) busy

busy-AttendanceOk : AttendanceOk busy
unfolding count_where
busy-AttendanceOk = record {
  unique = (tt, tt);
  counted = (refl, tt);
  capped = (refl, tt);
  once = λ e u. ground arith;
}

remove_volunteer-IsRemoved_example :
    (departing ≢ 2)
    × ((u : UserRow) × (find_membership 1 5 busy ≡ some u) × (is_volunteer u.role ≡ true))
    × IsRemoved 1 5 removed
unfolding remove_volunteer assert_removable relieve_all withdraw_all_open withdraw_open
    end_membership tombstone for_each find select update_where delete_where any
remove_volunteer-IsRemoved_example = remove_volunteer-IsRemoved 1 5 2 busy removed refl

remove_volunteer-AttendanceOk_example : AttendanceOk removed
unfolding remove_volunteer assert_removable relieve_all withdraw_all_open withdraw_open
    end_membership tombstone for_each find select update_where delete_where any
remove_volunteer-AttendanceOk_example =
    remove_volunteer-AttendanceOk 1 5 2 busy removed busy-AttendanceOk refl
