-- ===== src/Tests/Stages.antt =====
-- Workflow stages: positions, slugs and eligibility on the small database.
use ecotrack_api.Common.{
  List, UniqueBy, [], any, arith, codes, count_where, delete_where, false, find, first_free,
  insert_by, length, ltb, map, none, refl, select, some, sort_by, update_where, ℕ, ◌++◌, ◌∷◌, ◌≡◌,
}
use ecotrack_api.Db.{Db, WorkflowStageRow, err, internal, ok}
use ecotrack_api.Tests.Fixtures.{base, claimed, reported, resolved, state_after}
use ecotrack_api.Workflow.Eligibility.{accepts, list_eligible_stage_ids-mirror, lists}
use ecotrack_api.Workflow.Positions.{IsContiguous}
use ecotrack_api.Workflow.Positions.Deletion.{delete_stage-IsContiguous}
use ecotrack_api.Workflow.Positions.Next.{find_next_stage-lowest}
use ecotrack_api.Workflow.Positions.References.{NoDangling, delete_stage-NoDangling}
use ecotrack_api.Workflow.Rules.{CreationTrigger, assert_required_stage, list_eligible_stage_ids}
use ecotrack_api.Workflow.Slug.{Text, print, same_text, slugify, suffixed}
use ecotrack_api.Workflow.Stages.{
  NewStage, create_stage, find_next_stage, free_slug, has_slug, stage_by_id, stages_of, unique_slug,
}
use ecotrack_api.Workflow.Stages.Changes.{
  at_position, delete_stage, place, place_taken_twice, placed, present, renumber, reorder_stages,
  stamped, unknown_id,
}
use ecotrack_api.Workflow.Stages.Free.{unique_slug-free}
use ecotrack_api.Workflow.Stages.Reorder.{place_of, reorder_stages-places}

pub base-unique_stages : UniqueBy (λ (s : WorkflowStageRow). s.id) base.workflow_stages
base-unique_stages =
    (((λ e. ground arith), ((λ e. ground arith), tt)), (((λ e. ground arith), tt), (tt, tt)))

base-IsContiguous : (o : ℕ) → IsContiguous o base.workflow_stages
unfolding count_where
base-IsContiguous o k = ground arith

-- Stage 101 holds no incident and no rule names it.
abbrev after_delete : Db
after_delete = state_after (delete_stage 101 2) base

delete_stage-IsContiguous_example : IsContiguous 1 after_delete.workflow_stages
unfolding delete_stage stages_of renumber select sort_by insert_by find update_where delete_where
    count_where
delete_stage-IsContiguous_example =
    delete_stage-IsContiguous 101 2 base after_delete base-unique_stages base-IsContiguous refl 1

find_next_stage-lowest_example :
    find_next_stage 1 reported base
    ≡ ok (
      find
          (λ (s : WorkflowStageRow). ltb reported.position s.position)
          (stages_of 1 base.workflow_stages),
      base,
    )
find_next_stage-lowest_example = find_next_stage-lowest 1 reported base (base-IsContiguous 1)

abbrev new_stage : NewStage
new_stage = record {
  organisation_id = 1;
  name = "Claimed";
  description = none;
  color = "#222222";
  acting_user_id = 2;
}

abbrev after_create : Db
after_create = state_after (create_stage new_stage) base

-- The new stage is last, and its slug is not that of the stage with its name.
created_last :
    (map (λ (s : WorkflowStageRow). s.position) after_create.workflow_stages ≡ 0 ∷ 1 ∷ 2 ∷ 3 ∷ [])
    × (map (λ (s : WorkflowStageRow). s.slug) after_create.workflow_stages
        ≡ map (λ (s : WorkflowStageRow). s.slug) base.workflow_stages ++ codes "claimed_2" ∷ [])
unfolding create_stage unique_slug free_slug first_free stages_of select sort_by insert_by any
    count_where same_text slugify suffixed print
created_last = (refl, refl)

list_eligible_stage_ids-mirror_example :
    lists 102 (list_eligible_stage_ids 1 CreationTrigger.task_creation base)
    ≡ accepts (assert_required_stage 1 CreationTrigger.task_creation claimed base)
unfolding find
list_eligible_stage_ids-mirror_example =
    list_eligible_stage_ids-mirror 1 CreationTrigger.task_creation claimed base base-unique_stages
      refl refl

-- Incident 10 is in the pool, 11 and 12 are on stage 102.
base-NoDangling : NoDangling base
unfolding any
base-NoDangling = (refl, (refl, (refl, tt)))

delete_stage-NoDangling_example : NoDangling after_delete
unfolding delete_stage stages_of renumber select sort_by insert_by find update_where delete_where
    count_where
delete_stage-NoDangling_example =
    delete_stage-NoDangling 101 2 base after_delete base-NoDangling refl

unique_slug-free_example :
    (slug : Text) × (unique_slug 1 "Claimed" base.workflow_stages ≡ some slug)
    × (any (has_slug 1 slug) base.workflow_stages ≡ false)
unique_slug-free_example = unique_slug-free 1 "Claimed" base.workflow_stages

claimed_taken : unique_slug 1 "Claimed" base.workflow_stages ≡ some (codes "claimed_2")
unfolding unique_slug free_slug first_free any same_text slugify suffixed print select
claimed_taken = refl

abbrev new_order : List ℕ
new_order = 103 ∷ 101 ∷ 102 ∷ []

abbrev after_reorder : Db
after_reorder = state_after (reorder_stages 1 new_order 2) base

reorder_stages-places_example :
    (length new_order ≡ length (stages_of 1 base.workflow_stages))
    × (place_of (stage_by_id 101 after_reorder) ≡ some 1)
unfolding reorder_stages unknown_id place placed present stages_of select sort_by insert_by find any
    update_where place_taken_twice count_where
reorder_stages-places_example =
    reorder_stages-places 1 new_order 2 base after_reorder
      (stamped 100 (at_position 0 resolved)
        ∷ stamped 100 (at_position 1 reported)
        ∷ stamped 100 (at_position 2 claimed)
        ∷ [])
      1 101
      (((λ e. ground arith), ((λ e. ground arith), tt)), (((λ e. ground arith), tt), (tt, tt))) refl
      refl

-- A list that names stage 101 twice passes the checks, and fails at the COMMIT only.
repeated_late :
    reorder_stages 1 (102 ∷ 101 ∷ 101 ∷ []) 2 base
    ≡ err (internal "duplicate key value violates unique constraint")
unfolding reorder_stages unknown_id place placed present stages_of select sort_by insert_by find any
    update_where count_where place_taken_twice
repeated_late = refl
