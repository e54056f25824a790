-- ===== src/Workflow/Positions/Next.antt =====
-- `findNextStage` and `createStage`, src/modules/workflow/workflow-stages.service.ts, over contiguous
-- positions.
use ecotrack_api.Common.{
  ==_refl, Bool, Bool-cases, IsSorted, List, Option-cases, [], any, any-eq-false_of_count,
  any-eq-true_of_count, any-select, any-sort_by, ap, arith, count_where, count_where-append, false,
  find, find-IsSorted, find-select, find-sort_by, if◌then◌else◌, inl, inr, length, ltb, none, refl,
  some, sort_by-IsSorted, sym, ℕ, ◌++◌, ◌+◌, ◌<◌, ◌==◌, ◌∙◌, ◌∷◌, ◌≡◌,
}
use ecotrack_api.Db.{Db, WorkflowStageRow, ok}
use ecotrack_api.Workflow.Positions.{IsContiguous, is_at, of_organisation}
use ecotrack_api.Workflow.Positions.Renumbering.{length-stages}
use ecotrack_api.Workflow.Stages.{NewStage, create_stage, find_next_stage, stages_of, unique_slug}

any_at :
    (organisation_id k : ℕ) (rows : List WorkflowStageRow)
    → any (λ (s : WorkflowStageRow). s.position == k) (stages_of organisation_id rows)
      ≡ any (is_at organisation_id k) rows
unfolding stages_of
any_at organisation_id k rows =
    any-sort_by (λ (s : WorkflowStageRow). s.position) (λ s. s.position == k) _
    ∙ any-select (λ (s : WorkflowStageRow). s.position == k) (of_organisation organisation_id) rows

find_at :
    (organisation_id k : ℕ) (rows : List WorkflowStageRow)
    → find (λ (s : WorkflowStageRow). s.position == k) (stages_of organisation_id rows)
      ≡ find (is_at organisation_id k) rows
unfolding stages_of
find_at organisation_id k rows =
    find-sort_by (λ (s : WorkflowStageRow). s.position) k _
    ∙ find-select (λ (s : WorkflowStageRow). s.position == k) (of_organisation organisation_id) rows

stages-IsSorted :
    (organisation_id : ℕ) (rows : List WorkflowStageRow)
    → IsSorted (λ (s : WorkflowStageRow). s.position) (stages_of organisation_id rows)
unfolding stages_of
stages-IsSorted organisation_id rows = sort_by-IsSorted (λ (s : WorkflowStageRow). s.position) _

-- Above the last position there is no stage at all.
none_past :
    (c : ℕ) (xs : List WorkflowStageRow)
    → ((k : ℕ) → c < k → any (λ (s : WorkflowStageRow). s.position == k) xs ≡ false)
    → find (λ (s : WorkflowStageRow). ltb c s.position) xs ≡ none
unfolding find any
none_past c [] h = refl
none_past c (x ∷ xs) h = elim (Bool-cases (ltb c x.position)) [
  | inl past ↦ let e = h x.position (ground arith) in absurd (ground (arith, ==_refl x.position))
  | inr below ↦ rw below (none_past c xs (λ k lt. ground (arith, h k lt)))
]

find-none_of_any :
    (p : WorkflowStageRow → Bool) (xs : List WorkflowStageRow) → any p xs ≡ false → find p xs ≡ none
unfolding find any
find-none_of_any p [] h = refl
find-none_of_any p (x ∷ xs) h = ground (arith, find-none_of_any p xs)

-- Where an organisation's positions are contiguous, the stage at "position + 1" that
-- `findNextStage` looks up is the first of its stages, in their order, at a position strictly
-- greater than the current one, and there is none exactly when no position is greater.
pub find_next_stage-lowest :
    (organisation_id : ℕ) (current : WorkflowStageRow) (db : Db)
    → IsContiguous organisation_id db.workflow_stages
    → find_next_stage organisation_id current db
      ≡ ok (
        find
            (λ (s : WorkflowStageRow). ltb current.position s.position)
            (stages_of organisation_id db.workflow_stages),
        db,
      )
find_next_stage-lowest organisation_id current db h =
    let rows = db.workflow_stages in
    let c = current.position in
    let n = count_where (of_organisation organisation_id) rows in
    let at_c = find_at organisation_id (c + 1) rows in
    elim (Bool-cases (ltb (c + 1) n)) [
      | inl inside ↦
          let one : count_where (is_at organisation_id (c + 1)) rows ≡ 1 = h (c + 1) ∙ rw inside in
          let there =
            any_at organisation_id (c + 1) rows
            ∙ any-eq-true_of_count (is_at organisation_id (c + 1)) rows (omega arith) in
          ap (λ o. ok (o, db))
            (sym at_c
              ∙ find-IsSorted (λ (s : WorkflowStageRow). s.position) c
                  (stages_of organisation_id rows) (stages-IsSorted organisation_id rows) there)
      | inr past ↦
          let empty : (k : ℕ)
              → c < k
              → any (λ (s : WorkflowStageRow). s.position == k) (stages_of organisation_id rows)
                ≡ false =
            λ k lt.
              any_at organisation_id k rows
              ∙ any-eq-false_of_count (is_at organisation_id k) rows (h k ∙ ground arith) in
          ap (λ o. ok (o, db))
            (sym at_c
              ∙ find-none_of_any _ (stages_of organisation_id rows) (empty (c + 1) (omega arith))
              ∙ sym (none_past c (stages_of organisation_id rows) empty))
    ]

create_stage_effect :
    (d : NewStage) (db db' : Db) (r : WorkflowStageRow)
    → create_stage d db ≡ ok (r, db')
    → (db'.workflow_stages ≡ db.workflow_stages ++ r ∷ [])
      × (r.organisation_id ≡ d.organisation_id)
      × (r.position ≡ length (stages_of d.organisation_id db.workflow_stages))
      × (unique_slug d.organisation_id d.name db.workflow_stages ≡ some r.slug)
unfolding create_stage
create_stage_effect d db db' r h =
    elim (Option-cases (unique_slug d.organisation_id d.name db.workflow_stages)) [
      | inl e ↦ absurd (ground arith)
      | inr (slug, e) ↦ (ground arith, ground arith, ground arith, ground arith)
    ]

appended :
    (o k own : ℕ) (rows : List WorkflowStageRow) (r : WorkflowStageRow)
    → r.organisation_id ≡ own
    → r.position ≡ count_where (of_organisation own) rows
    → count_where (is_at o k) rows ≡ (if ltb k (count_where (of_organisation o) rows) then 1 else 0)
    → count_where (is_at o k) rows + count_where (is_at o k) (r ∷ []) ≡ (
        if ltb k (count_where (of_organisation o) rows + count_where (of_organisation o) (r ∷ []))
        then 1
        else 0)
unfolding count_where
appended o k own rows r e at h = elim (Bool-cases (r.organisation_id == o)) [
  | inl hit ↦
      let same : o ≡ own = ground arith in
      let at' : r.position ≡ count_where (of_organisation o) rows = rw same at in ground arith
  | inr miss ↦ ground arith
]

-- `createStage` appends the new stage behind the last one: every organisation's positions stay
-- contiguous.
create_stage-IsContiguous :
    (d : NewStage) (db db' : Db) (r : WorkflowStageRow)
    → ((o : ℕ) → IsContiguous o db.workflow_stages)
    → create_stage d db ≡ ok (r, db')
    → (o : ℕ) → IsContiguous o db'.workflow_stages
create_stage-IsContiguous d db db' r before h o k =
    let (t, own, at, _) = create_stage_effect d db db' r h in
    rw t (
      rw
        (
          count_where-append (is_at o k) db.workflow_stages (r ∷ []),
          count_where-append (of_organisation o) db.workflow_stages (r ∷ []),
        )
        (appended o k d.organisation_id db.workflow_stages r own
          (at ∙ length-stages d.organisation_id db.workflow_stages) (before o k)))
