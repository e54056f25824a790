-- ===== src/Workflow/Stages/Changes.antt =====
-- `reorderStages`, `updateStage` and `deleteStage` of
-- src/modules/workflow/workflow-stages.service.ts.
use ecotrack_api.Common.{
  Bool, List, Option, String, [], any, count_where, delete_where, find, get_or, if◌then◌else◌,
  is_none, is_value, length, ltb, none, not, some, some_or, sort_by, update_where, ℕ, ◌&&◌, ◌++◌,
  ◌+◌, ◌==◌, ◌||◌, ◌∷◌,
}
use ecotrack_api.Db.{
  IncidentRow, MetaValue, Request, WorkflowStageRow, WorkflowStageRuleRow, bad_request, conflict,
  err, execute, internal, ok, or_throw, pure, query, throw_if, ◌>>=◌, ◌>>◌,
}
use ecotrack_api.Platform.Audit.{record_audit}
use ecotrack_api.Workflow.Stages.{
  find_by_id, list_stages, stage_by_id, stage_entry, stage_not_found,
}

abbrev pub has_id : ℕ → WorkflowStageRow → Bool
has_id id s = s.id == id

abbrev pub at_position : ℕ → WorkflowStageRow → WorkflowStageRow
at_position position s = record s { position = position }

abbrev pub stamped : ℕ → WorkflowStageRow → WorkflowStageRow
stamped now s = record s { updated_at = now }

-- The UPDATEs of `reorderStages`, one for each entry of the list, from `position` on.
unfoldable pub place : ℕ → ℕ → List ℕ → List WorkflowStageRow → List WorkflowStageRow
place now position [] rows = rows
place now position (id ∷ ids) rows =
    place now (position + 1) ids
      (update_where (has_id id) (λ s. stamped now (at_position position s)) rows)

-- The rows that the UPDATEs return: each as its own UPDATE left it.
unfoldable pub placed : ℕ → ℕ → List ℕ → List WorkflowStageRow → List (Option WorkflowStageRow)
placed now position [] rows = []
placed now position (id ∷ ids) rows =
    let rows' = update_where (has_id id) (λ s. stamped now (at_position position s)) rows in
    find (has_id id) rows' ∷ placed now (position + 1) ids rows'

unfoldable pub present {ℓ} : {A : Type ℓ} → List (Option A) → List A
present [] = []
present (none ∷ rest) = present rest
present (some a ∷ rest) = a ∷ present rest

-- The first id that is no stage of the organisation.
unfoldable pub unknown_id : List WorkflowStageRow → List ℕ → Option ℕ
unknown_id stages [] = none
unknown_id stages (id ∷ ids) = if any (has_id id) stages then unknown_id stages ids else some id

abbrev pub throw_unknown : Option ℕ → Request (Unit {0})
throw_unknown none db = ok (tt, db)
throw_unknown (some id) db = err (bad_request "Unknown stage id")

abbrev pub holds_place : ℕ → ℕ → WorkflowStageRow → Bool
holds_place organisation_id position s =
    s.organisation_id == organisation_id && s.position == position

-- UNIQUE (organisation_id, position), which is deferred to the COMMIT of the request
-- (migration 0033).
unfoldable pub place_taken_twice : ℕ → List WorkflowStageRow → Bool
place_taken_twice organisation_id rows =
    any
      (λ (s : WorkflowStageRow).
        s.organisation_id == organisation_id
        && ltb 1 (count_where (holds_place organisation_id s.position) rows))
      rows

unfoldable pub reorder_stages : ℕ → List ℕ → ℕ → Request (List WorkflowStageRow)
reorder_stages organisation_id ordered_stage_ids acting_user_id = do
  stages ← list_stages organisation_id
  throw_if (not (length ordered_stage_ids == length stages))
      (bad_request "Reorder list must include every existing stage exactly once")
  throw_unknown (unknown_id stages ordered_stage_ids)
  now ← query λ db. db.clock
  updated ← query λ db. present (placed now 0 ordered_stage_ids db.workflow_stages)
  execute λ db. record db { workflow_stages = place now 0 ordered_stage_ids db.workflow_stages }
  record_audit (
      stage_entry organisation_id acting_user_id "workflow_stage.reordered" none
        (some (("orderedStageIds", MetaValue.uuids ordered_stage_ids) ∷ [])))
  clash ← query λ db. place_taken_twice organisation_id db.workflow_stages
  throw_if clash (internal "duplicate key value violates unique constraint")
  pure (sort_by (λ (s : WorkflowStageRow). s.position) updated)

-- The body of `updateStage`; an absent property leaves its column alone.
pub record StageUpdate : Type 0 where
  pub name : Option String
  pub description : Option String
  pub color : Option String
  pub is_final : Option Bool

abbrev pub apply_update : ℕ → StageUpdate → WorkflowStageRow → WorkflowStageRow
apply_update now d s = record s {
  name = get_or d.name s.name;
  description = some_or d.description s.description;
  color = get_or d.color s.color;
  is_final = get_or d.is_final s.is_final;
  updated_at = now;
}

-- The metadata of the audit entry is the body, its absent properties left out.
abbrev pub given {ℓ} :
    {A : Type ℓ} → String → (A → MetaValue) → Option A → List (String × MetaValue)
given key f none = []
given key f (some a) = (key, f a) ∷ []

unfoldable pub update_stage : ℕ → StageUpdate → ℕ → Request WorkflowStageRow
update_stage id d acting_user_id = do
  stage ← find_by_id id
  now ← query λ db. db.clock
  execute λ db. record db {
    workflow_stages = update_where (has_id id) (apply_update now d) db.workflow_stages;
  }
  saved ← query (stage_by_id id)
  record_audit (
      stage_entry stage.organisation_id acting_user_id "workflow_stage.updated" (some id) (
        some (
          given "name" MetaValue.text d.name
          ++ given "description" MetaValue.text d.description
          ++ given "color" MetaValue.text d.color
          ++ given "isFinal" MetaValue.flag d.is_final)))
  or_throw saved stage_not_found

-- The `or(eq(…), …)` of `deleteStage` over the six stage columns of a rules row.
abbrev pub references : ℕ → WorkflowStageRuleRow → Bool
references id r =
    is_value r.task_creation_min_stage_id id
    || is_value r.task_creation_target_stage_id id
    || is_value r.event_creation_min_stage_id id
    || is_value r.event_creation_target_stage_id id
    || is_value r.task_completion_target_stage_id id
    || is_value r.event_completion_target_stage_id id

-- The renumbering loop over the remaining stages, which stand in the order of their positions.
unfoldable pub renumber : ℕ → List WorkflowStageRow → List WorkflowStageRow → List WorkflowStageRow
renumber position [] rows = rows
renumber position (s ∷ rest) rows = renumber (position + 1) rest (
    if position == s.position then rows else update_where (has_id s.id) (at_position position) rows)

unfoldable pub delete_stage : ℕ → ℕ → Request (Unit {0})
delete_stage id acting_user_id = do
  stage ← find_by_id id
  in_use ←
      query λ db. count_where (λ (i : IncidentRow). is_value i.current_stage_id id) db.incidents
  throw_if (ltb 0 in_use)
      (conflict "Cannot delete stage - incident(s) are currently in this stage.")
  referencing_rule ← query λ db.
      find
        (λ (r : WorkflowStageRuleRow).
          r.organisation_id == stage.organisation_id && references id r)
        db.workflow_stage_rules
  throw_if (not (is_none referencing_rule))
      (conflict "Cannot delete stage - it is used in a Task & Event Creation/Completion rule.")
  execute λ db. record db { workflow_stages = delete_where (has_id id) db.workflow_stages }
  remaining ← list_stages stage.organisation_id
  execute λ db. record db { workflow_stages = renumber 0 remaining db.workflow_stages }
  record_audit
      (stage_entry stage.organisation_id acting_user_id "workflow_stage.deleted" (some id) none)
