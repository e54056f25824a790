-- ===== src/Tasks/Completion.antt =====
-- What a successful `markCompleted`, src/modules/tasks/tasks.service.ts, found and what it leaves.
use ecotrack_api.Common.{
  ==_iff, ==_refl, Bool, Bool-cases, List, Option-cases, [], any, ap, arith, count_where, false,
  find, find-update_found, find_holds, inl, inr, is_none, length, length-select, refl, some, sym,
  true, update_where, ℕ, ◌&&◌, ◌<◌, ◌==◌, ◌∙◌, ◌∷◌, ◌≡◌,
}
use ecotrack_api.Db.{
  >>=-eq-ok, AuditLogRow, Db, DispatchKind, DispatchRow, IncidentRow, Keeps, Keeps->>=, Keeps-eq,
  Keeps-query, Keeps-when, Keeps-when_some, Request, TaskAssignmentRow, TaskPhotoRow, TaskRow,
  WorkflowStageRuleRow, is_accepted, is_in_progress, ok, query, when, ◌>>=◌, ◌>>◌,
}
use ecotrack_api.Incidents.{find_incident}
use ecotrack_api.Incidents.Frames.{
  advanced_parts, auto_advance-Keeps, find_by_id-Keeps, find_incident-Keeps,
}
use ecotrack_api.Platform.Outbox.{is_for, tombstone}
use ecotrack_api.Tasks.{TaskFull, complete_task, find_task, is_task}
use ecotrack_api.Tasks.Assignment.{is_own}
use ecotrack_api.Tasks.Progress.{
  advance_parent, assert_accepted_assignee, claimed_stage, complete_and_announce, complete_row,
  is_open_for, mark_completed,
}
use ecotrack_api.Workflow.Rules.{StageRuleTrigger}
use ecotrack_api.Workflow.Stages.{find_by_id}

-- The tables that the completion of the parent incident does not touch.
abbrev work_tables : Db → List TaskRow × List DispatchRow
work_tables db = (db.tasks, db.notification_dispatches)

work_tables_blind :
    (db : Db) (n : ℕ) (is : List IncidentRow) (rs : List WorkflowStageRuleRow)
    (ls : List AuditLogRow)
    → work_tables (advanced_parts n is rs ls db) ≡ work_tables db
work_tables_blind db n is rs ls = refl

advance_parent-Keeps : (t : TaskRow) (user_id : ℕ) → Keeps work_tables (advance_parent t user_id)
unfolding advance_parent
advance_parent-Keeps t user_id =
    Keeps->>= work_tables (find_incident t.incident_id) _
      (find_incident-Keeps work_tables work_tables_blind t.incident_id)
      (λ i. Keeps-when_some work_tables (claimed_stage i) _ (λ at.
        Keeps->>= work_tables (find_by_id at) _ (find_by_id-Keeps work_tables work_tables_blind at)
          (λ current.
            auto_advance-Keeps work_tables work_tables_blind t.organisation_id i.id
              StageRuleTrigger.task_completion current user_id "task.completed")))

-- A reminder of the task that is still to be sent.
abbrev pub is_pending_reminder : ℕ → DispatchRow → Bool
is_pending_reminder task_id d =
    is_for DispatchKind.task_due_reminder task_id d && is_none d.dispatched_at

tombstone-none_pending :
    (now task_id : ℕ) (rows : List DispatchRow)
    → any (is_pending_reminder task_id) (tombstone now DispatchKind.task_due_reminder task_id rows)
      ≡ false
unfolding any tombstone update_where
tombstone-none_pending now task_id [] = refl
tombstone-none_pending now task_id (d ∷ rows) =
    elim (Bool-cases (is_for DispatchKind.task_due_reminder task_id d && is_none d.dispatched_at)) [
      | inl hit ↦ ground (arith, tombstone-none_pending now task_id rows)
      | inr miss ↦ ground (arith, tombstone-none_pending now task_id rows)
    ]

announce_effect :
    (t : TaskRow) (user_id : ℕ) (db db' : Db)
    → complete_and_announce t user_id db ≡ ok (tt, db')
    → (db'.tasks ≡ update_where (is_task t.id) (complete_row db.clock) db.tasks)
      × (db'.notification_dispatches
          ≡ tombstone db.clock DispatchKind.task_due_reminder t.id db.notification_dispatches)
unfolding complete_and_announce
announce_effect t user_id db db' h = elim (Option-cases t.created_by_user_id) [
  | inl e ↦ (ground arith, ground arith)
  | inr (u, e) ↦ (ground arith, ground arith)
]

-- The volunteer's own accepted assignment, and the task with what `findById` gathered.
accepted_effect :
    (organisation_id task_id user_id : ℕ) (db s : Db) (full : TaskFull)
    → assert_accepted_assignee organisation_id task_id user_id db ≡ ok (full, s)
    → (s ≡ db)
      × (find (is_task task_id) db.tasks ≡ some full.task)
      × (full.task.organisation_id ≡ organisation_id)
      × (full ≡ complete_task full.task db)
      × ((a : TaskAssignmentRow) × (find (is_own task_id user_id) db.task_assignments ≡ some a)
          × (is_accepted a.status ≡ true))
unfolding complete_task
accepted_effect organisation_id task_id user_id db s full h =
    elim (Option-cases (find (is_task task_id) db.tasks)) [
      | inl none' ↦ absurd (ground arith)
      | inr (t, found) ↦ elim (Option-cases (find (is_own task_id user_id) db.task_assignments)) [
        | inl none' ↦ absurd (ground arith)
        | inr (a, own) ↦
            let e : full ≡ complete_task t db = ground arith in
            let same : full.task ≡ t = ap (λ (f : TaskFull). f.task) e in
            let scope : t.organisation_id ≡ organisation_id = ground arith in
            let accepted : is_accepted a.status ≡ true = ground arith in
            (
              ground arith,
              found ∙ ap some (sym same),
              ap (λ (x : TaskRow). x.organisation_id) same ∙ scope,
              e ∙ ap (λ x. complete_task x db) (sym same),
              (a, own, accepted),
            )
      ]
    ]

find_task-Keeps : (id : ℕ) → Keeps work_tables (find_task id)
unfolding Keeps
find_task-Keeps id db db' r h = elim (Option-cases (find (is_task id) db.tasks)) [
  | inl none' ↦ absurd (ground arith)
  | inr (_, some') ↦ let e : db' ≡ db = ground arith in ap work_tables e
]

-- The conclusion of `markCompleted`.
abbrev finish : TaskRow → ℕ → ℕ → Request TaskFull
finish t task_id user_id = do
  incomplete ← query λ db. count_where (is_open_for t.incident_id) db.tasks
  when (incomplete == 0) (advance_parent t user_id)
  find_task task_id

finish-Keeps : (t : TaskRow) (task_id user_id : ℕ) → Keeps work_tables (finish t task_id user_id)
finish-Keeps t task_id user_id =
    Keeps->>= work_tables (query λ db. count_where (is_open_for t.incident_id) db.tasks) _
      (Keeps-query work_tables _)
      (λ n.
        Keeps->>= work_tables (when (n == 0) (advance_parent t user_id)) _
          (Keeps-when work_tables (n == 0) (advance_parent t user_id)
            (advance_parent-Keeps t user_id))
          (λ _. find_task-Keeps task_id))

abbrev pub is_photo_of : ℕ → TaskPhotoRow → Bool
is_photo_of task_id p = p.task_id == task_id

-- The photos that `findById` gathers for a task.
photos_of :
    (t : TaskRow) (db : Db)
    → length (complete_task t db).photos ≡ count_where (is_photo_of t.id) db.task_photos
unfolding complete_task
photos_of t db = length-select (is_photo_of t.id) db.task_photos

-- A successful `markCompleted` found the task in the organisation and in progress, with at least one
-- photo and the volunteer's own accepted assignment; afterwards the task is completed, and otherwise
-- as it was, and no reminder of its due date is left to be sent.
pub mark_completed-done :
    (organisation_id task_id user_id : ℕ) (db db' : Db) (r : TaskFull)
    → mark_completed organisation_id task_id user_id db ≡ ok (r, db')
    → (t : TaskRow) × (find (is_task task_id) db.tasks ≡ some t)
      × (t.organisation_id ≡ organisation_id)
      × (is_in_progress t.status ≡ true)
      × (0 < count_where (is_photo_of task_id) db.task_photos)
      × ((a : TaskAssignmentRow) × (find (is_own task_id user_id) db.task_assignments ≡ some a)
          × (is_accepted a.status ≡ true))
      × (find (is_task task_id) db'.tasks ≡ some (complete_row db.clock t))
      × (any (is_pending_reminder task_id) db'.notification_dispatches ≡ false)
unfolding mark_completed
mark_completed-done organisation_id task_id user_id db db' r h =
    let (s, e, k) = >>=-eq-ok (assert_accepted_assignee organisation_id task_id user_id) _ db h in
    let (same, found, own, full, assignment) =
      accepted_effect organisation_id task_id user_id db s.1 s.0 e in
    let t = s.0.task in
    let at : t.id ≡ task_id = (==_iff _ _).0 (find_holds (is_task task_id) db.tasks found) in
    let started : is_in_progress t.status ≡ true = elim (Bool-cases (is_in_progress t.status)) [
      | inl yes' ↦ yes'
      | inr no' ↦ absurd (ground arith)
    ] in
    let pictured : (length s.0.photos == 0) ≡ false = elim (Bool-cases (length s.0.photos == 0)) [
      | inl none' ↦ absurd (ground arith)
      | inr some' ↦ some'
    ] in
    let amount : length s.0.photos ≡ count_where (is_photo_of task_id) db.task_photos =
      ap (λ (f : TaskFull). length f.photos) full
      ∙ photos_of t db
      ∙ ap (λ n. count_where (is_photo_of n) db.task_photos) at in
    let rest : (complete_and_announce t user_id >> finish t task_id user_id) db ≡ ok (r, db') =
      rw⁻¹ same (ground arith) in
    let (m, f, g) = >>=-eq-ok (complete_and_announce t user_id) _ db rest in
    let (done, reminders) = announce_effect t user_id db m.1 f in
    let kept =
      Keeps-eq work_tables (finish t task_id user_id) (finish-Keeps t task_id user_id) m.1 db' r
        g in
    let tasks' = ap (λ (w : List TaskRow × List DispatchRow). w.0) kept ∙ done in
    let left =
      ap (λ (w : List TaskRow × List DispatchRow). w.1) kept
      ∙ reminders
      ∙ ap (λ n. tombstone db.clock DispatchKind.task_due_reminder n db.notification_dispatches)
          at in
    (
      t,
      found,
      own,
      started,
      ground arith,
      assignment,
      rw tasks' (
          find-update_found (λ (x : TaskRow). x.id) task_id (is_task t.id) (complete_row db.clock)
            db.tasks (λ y. refl) found (==_refl t.id) (λ y q. (==_iff _ _).0 q ∙ at)),
      rw left (tombstone-none_pending db.clock task_id db.notification_dispatches),
    )
