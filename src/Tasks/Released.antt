-- ===== src/Tasks/Released.antt =====
-- After `reassign`, src/modules/tasks/tasks.service.ts, has cancelled the current assignment of a
-- task, none is left.
use ecotrack_api.Common.{
  ==_refl, All, All-update_where, Bool-cases, List, Option, Option-cases, UniqueBy,
  UniqueBy-update_where, [], arith, count_where, false, find, inl, inr, none, refl, some, true,
  update_where, ℕ, ◌==◌, ◌∷◌, ◌≡◌, ◌≤◌,
}
use ecotrack_api.Db.{TaskAssignmentRow}
use ecotrack_api.Tasks.Assignment.{cancel_row, has_assignment_id, is_current, release}

-- No row is a current assignment of the task.
abbrev pub NoneCurrent : ℕ → List TaskAssignmentRow → Type 0
NoneCurrent task_id rows = All (λ a. is_current task_id a ≡ false) rows

NoneCurrent-of_count :
    (task_id : ℕ) (rows : List TaskAssignmentRow)
    → count_where (is_current task_id) rows ≡ 0
    → NoneCurrent task_id rows
unfolding count_where
NoneCurrent-of_count task_id [] h = tt
NoneCurrent-of_count task_id (x ∷ xs) h = elim (Bool-cases (is_current task_id x)) [
  | inl yes' ↦ absurd (ground arith)
  | inr no' ↦ (no', NoneCurrent-of_count task_id xs (ground arith))
]

pub count-NoneCurrent :
    (task_id : ℕ) (rows : List TaskAssignmentRow)
    → NoneCurrent task_id rows
    → count_where (is_current task_id) rows ≡ 0
unfolding count_where
count-NoneCurrent task_id [] h = refl
count-NoneCurrent task_id (x ∷ xs) h =
    let a = h.0 in ground (arith, count-NoneCurrent task_id xs h.1)

cancelled_not_current :
    (task_id now : ℕ) (a : TaskAssignmentRow) → is_current task_id (cancel_row now a) ≡ false
cancelled_not_current task_id now a = ground arith

-- The found current assignment was the only one, so its cancellation leaves none.
cancel-NoneCurrent :
    (task_id now : ℕ) (rows : List TaskAssignmentRow) (c : TaskAssignmentRow)
    → find (is_current task_id) rows ≡ some c
    → count_where (is_current task_id) rows ≤ 1
    → NoneCurrent task_id (update_where (has_assignment_id c.id) (cancel_row now) rows)
unfolding find count_where update_where
cancel-NoneCurrent task_id now [] c e h = cc
cancel-NoneCurrent task_id now (x ∷ xs) c e h = elim (Bool-cases (is_current task_id x)) [
  | inl yes' ↦
      let same : x ≡ c = ground arith in
      let hit : (x.id == c.id) ≡ true = rw same (==_refl c.id) in
      (
        rw hit (cancelled_not_current task_id now x),
        All-update_where (λ a. is_current task_id a ≡ false) (has_assignment_id c.id)
            (cancel_row now) xs (λ a _ _. cancelled_not_current task_id now a)
            (NoneCurrent-of_count task_id xs (ground arith)),
      )
  | inr no' ↦ (
    elim (Bool-cases (x.id == c.id)) [
      | inl hit ↦ rw hit (cancelled_not_current task_id now x)
      | inr miss ↦ rw miss no'
    ],
    cancel-NoneCurrent task_id now xs c (ground arith) (ground arith),
  )
]

pub none_found :
    (task_id : ℕ) (rows : List TaskAssignmentRow)
    → find (is_current task_id) rows ≡ none
    → NoneCurrent task_id rows
unfolding find
none_found task_id [] e = tt
none_found task_id (x ∷ xs) e = elim (Bool-cases (is_current task_id x)) [
  | inl yes' ↦ absurd (ground arith)
  | inr no' ↦ (no', none_found task_id xs (ground arith))
]

pub release-NoneCurrent :
    (task_id now : ℕ) (rows : List TaskAssignmentRow)
    → count_where (is_current task_id) rows ≤ 1
    → NoneCurrent task_id (release now (find (is_current task_id) rows) rows)
unfolding release
release-NoneCurrent task_id now rows h = elim (Option-cases (find (is_current task_id) rows)) [
  | inl e ↦ rw e (none_found task_id rows e)
  | inr (c, e) ↦ rw e (cancel-NoneCurrent task_id now rows c e h)
]

pub release-UniqueBy :
    (now : ℕ) (current : Option TaskAssignmentRow) (rows : List TaskAssignmentRow)
    → UniqueBy (λ (a : TaskAssignmentRow). a.id) rows
    → UniqueBy (λ (a : TaskAssignmentRow). a.id) (release now current rows)
unfolding release
release-UniqueBy now none rows u = u
release-UniqueBy now (some c) rows u =
    UniqueBy-update_where (λ (a : TaskAssignmentRow). a.id) (has_assignment_id c.id)
      (cancel_row now) rows (λ a. refl) u
