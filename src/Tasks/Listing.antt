-- ===== src/Tasks/Listing.antt =====
-- `listForOrg` and `listAssignedToVolunteer` of src/modules/tasks/tasks.service.ts: which tasks a
-- page shows, as rows.
use ecotrack_api.Common.{
  Bool, List, Option, [], false, get_or, if◌then◌else◌, max, min, none, select, some, sort_by,
  sort_desc_by, true, ℕ, ◌&&◌, ◌++◌, ◌==◌, ◌||◌, ◌∷◌,
}
use ecotrack_api.Db.{
  AssignmentStatus, Request, TaskAssignmentRow, TaskRow, TaskStatus, is_accepted, is_active,
  is_completed, is_in_progress, is_pending, query,
}
use ecotrack_api.Platform.Audit.{Paginated, paginate}

pub data View : Type 0 where
  assigned in_progress completed declined upcoming : View

abbrev pub same_task_status : TaskStatus → TaskStatus → Bool
same_task_status TaskStatus.pending TaskStatus.pending = true
same_task_status TaskStatus.in_progress TaskStatus.in_progress = true
same_task_status TaskStatus.completed TaskStatus.completed = true
same_task_status _ _ = false

abbrev pub is_declined : AssignmentStatus → Bool
is_declined AssignmentStatus.declined = true
is_declined _ = false

-- `filterFor`
unfoldable pub filter_for : View → AssignmentStatus → TaskStatus → Bool
filter_for View.in_progress a t = is_accepted a && is_in_progress t
filter_for View.completed a t = is_accepted a && is_completed t
filter_for View.declined a t = is_declined a
filter_for View.upcoming a t = is_active a && (is_pending t || is_in_progress t)
filter_for View.assigned a t = is_active a && is_pending t

-- The inner join of assignments and tasks, on the volunteer's own rows.
unfoldable pub joined : ℕ → View → List TaskAssignmentRow → List TaskRow → List TaskRow
joined user_id view [] tasks = []
joined user_id view (a ∷ rest) tasks =
    (if a.volunteer_user_id == user_id
      then select (λ t. t.id == a.task_id && filter_for view a.status t.status) tasks
      else [])
    ++ joined user_id view rest tasks

abbrev pub order_by : View → List TaskRow → List TaskRow
order_by View.upcoming rows = sort_by (λ (t : TaskRow). t.due_date) rows
order_by _ rows = sort_desc_by (λ (t : TaskRow). t.created_at) rows

-- `Math.max(1, page ?? 1)` and `Math.min(100, Math.max(1, limit ?? 20))`
abbrev pub page_of : Option ℕ → ℕ
page_of page = max 1 (get_or page 1)

abbrev pub limit_of : Option ℕ → ℕ
limit_of limit = min 100 (max 1 (get_or limit 20))

unfoldable pub list_assigned_to_volunteer :
    ℕ → Option View → Option ℕ → Option ℕ → Request (Paginated TaskRow)
unfolding paginate joined filter_for
list_assigned_to_volunteer user_id view page limit =
    let chosen = get_or view View.assigned in
    query λ db.
      paginate (order_by chosen (joined user_id chosen db.task_assignments db.tasks)) (page_of page)
        (limit_of limit)

abbrev pub is_listed : ℕ → Option TaskStatus → TaskRow → Bool
is_listed organisation_id none t = t.organisation_id == organisation_id
is_listed organisation_id (some status) t =
    t.organisation_id == organisation_id && same_task_status t.status status

unfoldable pub list_tasks_for_org : ℕ → ℕ → ℕ → Option TaskStatus → Request (Paginated TaskRow)
unfolding paginate
list_tasks_for_org organisation_id page limit status = query λ db.
    paginate
      (sort_desc_by (λ (t : TaskRow). t.created_at)
        (select (is_listed organisation_id status) db.tasks))
      page limit
