-- ===== src/Workflow/Positions/References.antt =====
-- What refers to a stage, and `deleteStage` of src/modules/workflow/workflow-stages.service.ts.
use ecotrack_api.Common.{
  All, Bool, Bool-cases, List, Option, [], any, arith, count_where, delete_where, false, inl, inr,
  is_value, none, refl, some, true, update_where, ℕ, ◌+◌, ◌==◌, ◌∙◌, ◌∷◌, ◌≡◌, ◌≢◌,
}
use ecotrack_api.Db.{Db, IncidentRow, WorkflowStageRow, ok}
use ecotrack_api.Workflow.Positions.Deletion.{after_delete, delete_stage_effect}
use ecotrack_api.Workflow.Stages.Changes.{at_position, delete_stage, has_id, renumber}

-- A column that refers to no stage, or to one of these rows.
abbrev pub refers : List WorkflowStageRow → Option ℕ → Bool
refers rows none = true
refers rows (some id) = any (has_id id) rows

-- Every incident sits on no stage, or on one that is there.
abbrev pub NoDangling : Db → Type 0
NoDangling db =
    All (λ (i : IncidentRow). refers db.workflow_stages i.current_stage_id ≡ true) db.incidents

any_moved :
    (k id position : ℕ) (rows : List WorkflowStageRow)
    → any (has_id k) (update_where (has_id id) (at_position position) rows) ≡ any (has_id k) rows
unfolding any update_where
any_moved k id position [] = refl
any_moved k id position (x ∷ xs) = ground (arith, any_moved k id position xs)

any-renumber :
    (k position : ℕ) (rest rows : List WorkflowStageRow)
    → any (has_id k) (renumber position rest rows) ≡ any (has_id k) rows
unfolding renumber
any-renumber k position [] rows = refl
any-renumber k position (s ∷ rest) rows = elim (Bool-cases (position == s.position)) [
  | inl there ↦ rw there (any-renumber k (position + 1) rest rows)
  | inr moved ↦ rw moved (any-renumber k (position + 1) rest _ ∙ any_moved k s.id position rows)
]

any-delete_other :
    (k id : ℕ) (rows : List WorkflowStageRow)
    → k ≢ id
    → any (has_id k) (delete_where (has_id id) rows) ≡ any (has_id k) rows
unfolding any delete_where
any-delete_other k id [] apart = refl
any-delete_other k id (x ∷ xs) apart = elim (Bool-cases (has_id id x)) [
  | inl hit ↦
      let miss : has_id k x ≡ false = ground arith in ground (arith, any-delete_other k id xs apart)
  | inr other ↦ ground (arith, any-delete_other k id xs apart)
]

refers_after :
    (organisation_id id : ℕ) (rows : List WorkflowStageRow) (column : Option ℕ)
    → is_value column id ≡ false
    → refers rows column ≡ true
    → refers (after_delete organisation_id id rows) column ≡ true
refers_after organisation_id id rows none off h = refl
refers_after organisation_id id rows (some k) off h =
    let apart : k ≢ id = ground arith in any-renumber k 0 _ _ ∙ any-delete_other k id rows apart ∙ h

All-refers :
    (organisation_id id : ℕ) (rows : List WorkflowStageRow) (incidents : List IncidentRow)
    → count_where (λ (i : IncidentRow). is_value i.current_stage_id id) incidents ≡ 0
    → All (λ (i : IncidentRow). refers rows i.current_stage_id ≡ true) incidents
    → All
        (λ (i : IncidentRow).
          refers (after_delete organisation_id id rows) i.current_stage_id ≡ true)
        incidents
unfolding count_where
All-refers organisation_id id rows [] none' h = tt
All-refers organisation_id id rows (i ∷ rest) none' h =
    elim (Bool-cases (is_value i.current_stage_id id)) [
      | inl on ↦ absurd (ground arith)
      | inr off ↦ (
        refers_after organisation_id id rows i.current_stage_id off h.0,
        All-refers organisation_id id rows rest (ground arith) h.1,
      )
    ]

-- A successful `deleteStage` leaves no incident on a missing stage, where there was none before.
pub delete_stage-NoDangling :
    (id acting_user_id : ℕ) (db db' : Db)
    → NoDangling db
    → delete_stage id acting_user_id db ≡ ok (tt, db')
    → NoDangling db'
delete_stage-NoDangling id acting_user_id db db' before h =
    let (stage, _, empty, _, t, same, _) = delete_stage_effect id acting_user_id db db' h in
    rw (t, same) (All-refers stage.organisation_id id db.workflow_stages db.incidents empty before)
