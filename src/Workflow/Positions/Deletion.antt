-- ===== src/Workflow/Positions/Deletion.antt =====
-- `deleteStage`, src/modules/workflow/workflow-stages.service.ts: what it refuses, and the
-- positions that it leaves.
use ecotrack_api.Common.{
  ==_iff, All, All-find, All-map, Bool, Bool-cases, List, Option-cases, UniqueBy,
  UniqueBy-delete_where, ap, arith, count_where, count_where-delete_where, delete_where, find, inl,
  inr, is_value, none, not_true, some, sym, true, unique_pairs, ℕ, ◌&&◌, ◌==◌, ◌∙◌, ◌≡◌, ◌≢◌,
}
use ecotrack_api.Db.{Db, IncidentRow, WorkflowStageRow, WorkflowStageRuleRow, ok}
use ecotrack_api.Workflow.Positions.{IsContiguous, is_at, of_organisation}
use ecotrack_api.Workflow.Positions.Renumbering.{others_still, own-IsContiguous}
use ecotrack_api.Workflow.Stages.{stage_by_id, stages_of}
use ecotrack_api.Workflow.Stages.Changes.{delete_stage, has_id, references, renumber}

-- The table after the deletion and the renumbering.
abbrev pub after_delete : ℕ → ℕ → List WorkflowStageRow → List WorkflowStageRow
after_delete organisation_id id rows =
    let left = delete_where (has_id id) rows in renumber 0 (stages_of organisation_id left) left

-- A successful deletion: no incident sat on the stage and no rule of its organisation named it.
pub delete_stage_effect :
    (id acting_user_id : ℕ) (db db' : Db)
    → delete_stage id acting_user_id db ≡ ok (tt, db')
    → (stage : WorkflowStageRow) × (stage_by_id id db ≡ some stage)
      × (count_where (λ (i : IncidentRow). is_value i.current_stage_id id) db.incidents ≡ 0)
      × (find
            (λ (r : WorkflowStageRuleRow).
              r.organisation_id == stage.organisation_id && references id r)
            db.workflow_stage_rules
          ≡ none)
      × (db'.workflow_stages ≡ after_delete stage.organisation_id id db.workflow_stages)
      × (db'.incidents ≡ db.incidents)
      × (db'.workflow_stage_rules ≡ db.workflow_stage_rules)
unfolding delete_stage
delete_stage_effect id acting_user_id db db' h = elim (Option-cases (stage_by_id id db)) [
  | inl e ↦ absurd (ground arith)
  | inr (s, e) ↦
      (s, ground arith, ground arith, ground arith, ground arith, ground arith, ground arith)
]

-- Deleting a stage takes nothing from another organisation.
deleted_owned :
    (id other : ℕ) (q : WorkflowStageRow → Bool) (rows : List WorkflowStageRow)
    (stage : WorkflowStageRow)
    → UniqueBy (λ (s : WorkflowStageRow). s.id) rows
    → find (has_id id) rows ≡ some stage
    → other ≢ stage.organisation_id
    → ((y : WorkflowStageRow) → q y ≡ true → y.organisation_id ≡ other)
    → count_where q (delete_where (has_id id) rows) ≡ count_where q rows
deleted_owned id other q rows stage u e apart only =
    let (pairs, at) =
      All-find (λ (s : WorkflowStageRow). All (λ (r : WorkflowStageRow). s.id ≡ r.id → s ≡ r) rows)
        (has_id id) rows (unique_pairs (λ (s : WorkflowStageRow). s.id) rows u) e in
    count_where-delete_where q (has_id id) rows (
      All-map _ _
        (λ r same hit. not_true (q r) (λ t. apart (
          sym (only r t)
          ∙ sym (
              ap (λ (x : WorkflowStageRow). x.organisation_id)
                (same ((==_iff _ _).0 at ∙ sym ((==_iff _ _).0 hit)))))))
        rows pairs)

-- `deleteStage` keeps every organisation's positions contiguous: if they were, and stage
-- identifiers are unique, then after a successful deletion each organisation has again one stage at
-- each of 0 to n - 1.
pub delete_stage-IsContiguous :
    (id acting_user_id : ℕ) (db db' : Db)
    → UniqueBy (λ (s : WorkflowStageRow). s.id) db.workflow_stages
    → ((o : ℕ) → IsContiguous o db.workflow_stages)
    → delete_stage id acting_user_id db ≡ ok (tt, db')
    → (o : ℕ) → IsContiguous o db'.workflow_stages
delete_stage-IsContiguous id acting_user_id db db' u before h o k =
    let (stage, e, _, _, t, _, _) = delete_stage_effect id acting_user_id db db' h in
    let left = delete_where (has_id id) db.workflow_stages in
    let u' : UniqueBy (λ (s : WorkflowStageRow). s.id) left =
      UniqueBy-delete_where (λ (s : WorkflowStageRow). s.position) (λ (s : WorkflowStageRow). s.id)
        (has_id id) db.workflow_stages u in
    rw t (elim (Bool-cases (o == stage.organisation_id)) [
      | inl own ↦ rw ((==_iff _ _).0 own) (own-IsContiguous stage.organisation_id left u' k)
      | inr other ↦
          let apart : o ≢ stage.organisation_id = ground arith in
          let only_at : (y : WorkflowStageRow) → is_at o k y ≡ true → y.organisation_id ≡ o =
            λ y q. ground arith in
          let only_of : (y : WorkflowStageRow)
              → of_organisation o y ≡ true
              → y.organisation_id ≡ o =
            λ y q. ground arith in
          rw
            (
              others_still stage.organisation_id left u' o (is_at o k) apart only_at,
              others_still stage.organisation_id left u' o (of_organisation o) apart only_of,
              deleted_owned id o (is_at o k) db.workflow_stages stage u e apart only_at,
              deleted_owned id o (of_organisation o) db.workflow_stages stage u e apart only_of,
            )
            (before o k)
    ])
