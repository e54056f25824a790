-- ===== src/Users/Reassignment.antt =====
-- `reassignTaskAssignments`, src/modules/users/users.service.ts: the work of a deleted account.
use ecotrack_api.Common.{
  ==_refl, All, All-selected_among, All-update_change, Bool, Bool-cases, List, [], any,
  any-delete_other, any-refuted, any-update_to, arith, delete_where, false, inl, inr, not_true,
  select, true, update_where, ℕ, ◌==◌, ◌∷◌, ◌≡◌, ◌≢◌,
}
use ecotrack_api.Db.{Db, TaskAssignmentRow, for_each, for_each-drains, ok}
use ecotrack_api.Tasks.Assignment.{cancel_row}
use ecotrack_api.Users.Deletion.{
  deleted_user_sentinel_id, give_back, is_current_of, is_repointed, reassign_task_assignments,
  repoint, seen_assignment, seen_of, seen_own, sentinel_row,
}

abbrev pub listed : List TaskAssignmentRow → ℕ → Bool
listed xs id = any (λ (x : TaskAssignmentRow). x.id == id) xs

-- What the request sees is given by `visible`.
module _ (visible : ℕ → Bool) where
  -- Over the loop: the sentinel's active assignments are among the items still to come.
  abbrev pub Draining : List TaskAssignmentRow → Db → Type 0
  Draining xs db =
      All
        (λ (a : TaskAssignmentRow).
          is_current_of visible deleted_user_sentinel_id a ≡ true → listed xs a.id ≡ true)
        db.task_assignments

  -- The sentinel has an assignment on the task.
  abbrev pub Holding : ℕ → List TaskAssignmentRow → Db → Type 0
  Holding task_id xs db =
      any (seen_own visible task_id deleted_user_sentinel_id) db.task_assignments ≡ true

  given_back :
      (x : TaskAssignmentRow) (db db' : Db)
      → give_back visible x db ≡ ok (tt, db')
      → db'.task_assignments
        ≡ update_where (seen_assignment visible x.id) (cancel_row db.clock) db.task_assignments
  given_back x db db' e = ground arith

  give_back-Draining :
      (x : TaskAssignmentRow) (rest : List TaskAssignmentRow) (db db' : Db)
      → Draining (x ∷ rest) db
      → give_back visible x db ≡ ok (tt, db')
      → Draining rest db'
  unfolding any
  give_back-Draining x rest db db' h e = rw (given_back x db db' e) (
      All-update_change _ _ (seen_assignment visible x.id) (cancel_row db.clock) db.task_assignments
        (λ a hit k. (λ current. absurd (ground arith)))
        (λ a miss k. (λ current. ground (arith, k current))) h)

  give_back-Holding :
      (task_id : ℕ) (x : TaskAssignmentRow) (rest : List TaskAssignmentRow) (db db' : Db)
      → Holding task_id (x ∷ rest) db
      → give_back visible x db ≡ ok (tt, db')
      → Holding task_id rest db'
  give_back-Holding task_id x rest db db' h e = rw (given_back x db db' e) (
      any-update_to (seen_own visible task_id deleted_user_sentinel_id)
        (seen_own visible task_id deleted_user_sentinel_id) (seen_assignment visible x.id)
        (cancel_row db.clock) db.task_assignments (λ a own hit. own) (λ a own miss. own) h)

  repointed :
      (user_id task_id : ℕ) (rows : List TaskAssignmentRow)
      → any (seen_own visible task_id deleted_user_sentinel_id) rows ≡ false
      → (a : TaskAssignmentRow) → seen_own visible task_id user_id a ≡ true
      → is_repointed visible user_id rows a ≡ false
      → ⊥
  repointed user_id task_id rows absent a own miss =
      let at : a.task_id ≡ task_id = ground arith in
      let absent' : any (seen_own visible a.task_id deleted_user_sentinel_id) rows ≡ false =
        rw at absent in
      ground arith

  repoint-own :
      (now user_id task_id : ℕ) (rows : List TaskAssignmentRow)
      → any (seen_own visible task_id user_id) rows ≡ true
      → any (seen_own visible task_id deleted_user_sentinel_id) (repoint visible now user_id rows)
        ≡ true
  unfolding repoint
  repoint-own now user_id task_id rows h =
      elim (Bool-cases (any (seen_own visible task_id deleted_user_sentinel_id) rows)) [
        | inl there ↦
            any-update_to (seen_own visible task_id deleted_user_sentinel_id)
              (seen_own visible task_id deleted_user_sentinel_id)
              (is_repointed visible user_id rows) (sentinel_row now) rows
              (λ a own hit. ground arith) (λ a own miss. own) there
        | inr absent ↦
            any-update_to (seen_own visible task_id user_id)
              (seen_own visible task_id deleted_user_sentinel_id)
              (is_repointed visible user_id rows) (sentinel_row now) rows
              (λ a own hit. ground arith)
              (λ a own miss. absurd (repointed user_id task_id rows absent a own miss)) h
      ]

  -- After `reassignTaskAssignments` the sentinel has no active assignment, and an assignment on every
  -- task on which the user had one, as far as the request sees.
  pub reassign_effect :
      (user_id : ℕ) (db db' : Db)
      → user_id ≢ deleted_user_sentinel_id
      → reassign_task_assignments visible user_id db ≡ ok (tt, db')
      → (any (is_current_of visible deleted_user_sentinel_id) db'.task_assignments ≡ false)
        × ((task_id : ℕ)
            → any (seen_own visible task_id user_id) db.task_assignments ≡ true
            → any (seen_own visible task_id deleted_user_sentinel_id) db'.task_assignments ≡ true)
  unfolding reassign_task_assignments any
  reassign_effect user_id db db' apart h = (
    any-refuted (is_current_of visible deleted_user_sentinel_id) db'.task_assignments
        (drained db' h),
    (λ task_id had. held task_id had db' h),
  )
    where
      rows : List TaskAssignmentRow
      rows =
          delete_where (seen_of visible user_id)
            (repoint visible db.clock user_id db.task_assignments)

      current : List TaskAssignmentRow
      current = select (is_current_of visible deleted_user_sentinel_id) rows

      drained :
          (db' : Db)
          → for_each current (give_back visible) (record db { task_assignments = rows })
            ≡ ok (tt, db')
          → Draining [] db'
      drained db' =
          for_each-drains Draining (give_back visible) give_back-Draining current
            (record db { task_assignments = rows }) db'
            (All-selected_among (is_current_of visible deleted_user_sentinel_id)
              (λ a x. x.id == a.id) rows (λ y. ==_refl y.id))

      held :
          (task_id : ℕ)
          → any (seen_own visible task_id user_id) db.task_assignments ≡ true
          → (db' : Db)
          → for_each current (give_back visible) (record db { task_assignments = rows })
            ≡ ok (tt, db')
          → Holding task_id [] db'
      held task_id had db' =
          for_each-drains (Holding task_id) (give_back visible) (give_back-Holding task_id) current
            (record db { task_assignments = rows }) db'
            (any-delete_other (seen_own visible task_id deleted_user_sentinel_id)
              (seen_of visible user_id) (repoint visible db.clock user_id db.task_assignments)
              (λ y own. not_true _ (λ w. apart (ground arith)))
              (repoint-own db.clock user_id task_id db.task_assignments had))
