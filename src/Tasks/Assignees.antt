-- ===== src/Tasks/Assignees.antt =====
-- One volunteer per task: what `reassign`, src/modules/tasks/tasks.service.ts, leaves in the
-- assignments table.
use ecotrack_api.Common.{
  ==_ne, ==_refl, All, All-append, All-find, All-map, Bool-cases, List, Option, Option-cases,
  UniqueBy, [], any_of_found, ap, arith, count_pos_of_any, count_where, count_where-append, false,
  find, find_holds, inl, inr, is_value, none, refl, some, suc, true, update_where, ℕ, ◌++◌, ◌==◌,
  ◌∷◌, ◌≡◌, ◌≢◌, ◌≤◌,
}
use ecotrack_api.Db.{Db, TaskAssignmentRow, TaskRow, ok}
use ecotrack_api.Tasks.{new_assignment}
use ecotrack_api.Tasks.Assignment.{
  hand_over, has_assignment_id, is_current, is_own, reassign, release, reopen_row, take_on,
  volunteer_of,
}
use ecotrack_api.Tasks.Released.{
  NoneCurrent, count-NoneCurrent, none_found, release-NoneCurrent, release-UniqueBy,
}

abbrev Belongs : ℕ → ℕ → TaskAssignmentRow → Type 0
Belongs task_id user_id a = is_current task_id a ≡ true → a.volunteer_user_id ≡ user_id

-- No row has the identifier.
update_where_absent :
    (id : ℕ) (f : TaskAssignmentRow → TaskAssignmentRow) (rows : List TaskAssignmentRow)
    → All (λ (a : TaskAssignmentRow). a.id ≢ id) rows
    → update_where (has_assignment_id id) f rows ≡ rows
unfolding update_where
update_where_absent id f [] h = refl
update_where_absent id f (x ∷ xs) h =
    let miss = ==_ne x.id id h.0 in rw (miss, update_where_absent id f xs h.1) refl

NoneCurrent-Belongs :
    (task_id user_id : ℕ) (rows : List TaskAssignmentRow)
    → NoneCurrent task_id rows
    → All (Belongs task_id user_id) rows
NoneCurrent-Belongs task_id user_id rows h =
    All-map (λ a. is_current task_id a ≡ false) (Belongs task_id user_id)
      (λ a n y. absurd (ground arith)) rows h

reopened :
    (task_id user_id now : ℕ) (rows : List TaskAssignmentRow) (e : TaskAssignmentRow)
    → find (is_own task_id user_id) rows ≡ some e
    → UniqueBy (λ (a : TaskAssignmentRow). a.id) rows
    → NoneCurrent task_id rows
    → let rows' = update_where (has_assignment_id e.id) (reopen_row now) rows in
      (count_where (is_current task_id) rows' ≡ 1) × All (Belongs task_id user_id) rows'
unfolding find count_where update_where
reopened task_id user_id now [] e f u n = cc
reopened task_id user_id now (x ∷ xs) e f u n = elim (Bool-cases (is_own task_id user_id x)) [
  | inl own ↦
      let same : x ≡ e = ground arith in
      let hit : (x.id == e.id) ≡ true = rw same (==_refl e.id) in
      let still =
        update_where_absent e.id (reopen_row now) xs
          (rw⁻¹ (ap (λ (a : TaskAssignmentRow). a.id) same) u.0) in
      let rest = count-NoneCurrent task_id xs n.1 in
      rw (hit, still)
        (ground arith, ((λ y. ground arith), NoneCurrent-Belongs task_id user_id xs n.1))
  | inr other ↦
      let f' : find (is_own task_id user_id) xs ≡ some e = ground arith in
      let apart =
        (All-find (λ (a : TaskAssignmentRow). a.id ≢ x.id) (is_own task_id user_id) xs u.0 f').0 in
      let miss : (x.id == e.id) ≡ false = ground arith in
      let (c, b) = reopened task_id user_id now xs e f' u.1 n.1 in
      let head = n.0 in rw miss (ground arith, ((λ y. absurd (ground arith)), b))
]

take_on_current :
    (now id organisation_id task_id user_id : ℕ) (rows : List TaskAssignmentRow)
    → UniqueBy (λ (a : TaskAssignmentRow). a.id) rows
    → NoneCurrent task_id rows
    → let rows' = take_on now id organisation_id task_id user_id rows in
      (count_where (is_current task_id) rows' ≡ 1) × All (Belongs task_id user_id) rows'
unfolding take_on count_where
take_on_current now id organisation_id task_id user_id rows u n =
    elim (Option-cases (find (is_own task_id user_id) rows)) [
      | inl e ↦
          let fresh = new_assignment now id organisation_id task_id user_id in
          let rest = count-NoneCurrent task_id rows n in
          let new : take_on now id organisation_id task_id user_id rows ≡ rows ++ fresh ∷ [] =
            ground arith in
          rw (new, count_where-append (is_current task_id) rows (fresh ∷ []))
            (
              ground (arith, ==_refl task_id),
              All-append (Belongs task_id user_id) rows (fresh ∷ [])
                  (NoneCurrent-Belongs task_id user_id rows n) ((λ y. refl), tt),
            )
      | inr (a, e) ↦
          let old : take_on now id organisation_id task_id user_id rows
              ≡ update_where (has_assignment_id a.id) (reopen_row now) rows =
            ground arith in
          rw old (reopened task_id user_id now rows a e u n)
    ]

found_current :
    (task_id user_id : ℕ) (rows : List TaskAssignmentRow)
    → count_where (is_current task_id) rows ≡ 1
    → All (Belongs task_id user_id) rows
    → volunteer_of (find (is_current task_id) rows) ≡ some user_id
found_current task_id user_id rows c b = elim (Option-cases (find (is_current task_id) rows)) [
  | inl e ↦
      let zero' = count-NoneCurrent task_id rows (none_found task_id rows e) in absurd (omega arith)
  | inr (a, e) ↦
      let (k, y) = All-find (Belongs task_id user_id) (is_current task_id) rows b e in
      rw (e, k y) refl
]

hand_over_effect :
    (organisation_id : ℕ) (t : TaskRow) (current : Option TaskAssignmentRow)
    (user_id acting_user_id : ℕ) (db db' : Db)
    → hand_over organisation_id t current user_id acting_user_id db ≡ ok (tt, db')
    → (id : ℕ) × (db'.task_assignments
        ≡ take_on db.clock id organisation_id t.id user_id
            (release db.clock current db.task_assignments))
unfolding hand_over
hand_over_effect organisation_id t none user_id acting_user_id db db' h = (db.next_id, ground arith)
hand_over_effect organisation_id t (some c) user_id acting_user_id db db' h =
    (suc db.next_id, ground arith)

-- The volunteer is the current one already.
kept_current :
    (task_id user_id : ℕ) (rows : List TaskAssignmentRow)
    → count_where (is_current task_id) rows ≤ 1
    → is_value (volunteer_of (find (is_current task_id) rows)) user_id ≡ true
    → (count_where (is_current task_id) rows ≡ 1)
      × (volunteer_of (find (is_current task_id) rows) ≡ some user_id)
kept_current task_id user_id rows most same = elim (Option-cases (find (is_current task_id) rows)) [
  | inl e ↦ absurd (ground arith)
  | inr (a, e) ↦
      let y = find_holds (is_current task_id) rows e in
      let there =
        count_pos_of_any (is_current task_id) rows
          (any_of_found (is_current task_id) (is_current task_id) rows a e y) in
      (omega arith, ground arith)
]

-- After a successful reassignment the task has exactly one current (assigned or accepted)
-- assignment, and it is the new volunteer's, where the task had at most one before and assignment
-- identifiers are unique.
pub reassign-current :
    (organisation_id : ℕ) (t : TaskRow) (user_id acting_user_id : ℕ) (db db' : Db)
    → UniqueBy (λ (a : TaskAssignmentRow). a.id) db.task_assignments
    → count_where (is_current t.id) db.task_assignments ≤ 1
    → reassign organisation_id t user_id acting_user_id db ≡ ok (tt, db')
    → (count_where (is_current t.id) db'.task_assignments ≡ 1)
      × (volunteer_of (find (is_current t.id) db'.task_assignments) ≡ some user_id)
unfolding reassign
reassign-current organisation_id t user_id acting_user_id db db' u most h =
    let current = find (is_current t.id) db.task_assignments in
    elim (Bool-cases (is_value (volunteer_of current) user_id)) [
      | inl same ↦
          let still : db' ≡ db = ground arith in
          rw still (kept_current t.id user_id db.task_assignments most same)
      | inr other ↦
          let k : hand_over organisation_id t current user_id acting_user_id db ≡ ok (tt, db') =
            ground arith in
          let (id, e) =
            hand_over_effect organisation_id t current user_id acting_user_id db db' k in
          let (c, b) =
            take_on_current db.clock id organisation_id t.id user_id
              (release db.clock current db.task_assignments)
              (release-UniqueBy db.clock current db.task_assignments u)
              (release-NoneCurrent t.id db.clock db.task_assignments most) in
          rw e (c, found_current t.id user_id _ c b)
    ]
