-- ===== src/Workflow/Rules.antt =====
-- WorkflowStageRulesService, src/modules/workflow/workflow-stage-rules.service.ts.
use ecotrack_api.Common.{
  Bool, List, Option, String, [], any, false, find, get_or, if◌then◌else◌, map, none, not, select,
  some, true, update_where, ℕ, ◌&&◌, ◌++◌, ◌==◌, ◌∷◌,
}
use ecotrack_api.Db.{
  Db, HttpException, MetaValue, Request, WorkflowStageRow, WorkflowStageRuleRow, execute, pure,
  query, throw_if, unprocessable, ◌>>=◌, ◌>>◌,
}
use ecotrack_api.Platform.Audit.{record_audit}
use ecotrack_api.Workflow.Stages.{
  find_by_id, find_default_claim_stage, find_next_stage, list_stages,
}
use ecotrack_api.Workflow.Stages.Changes.{given, has_id}

-- StageRuleTrigger, and the two triggers that carry a minimum stage.
pub data StageRuleTrigger : Type 0 where
  task_creation event_creation task_completion event_completion : StageRuleTrigger

pub data CreationTrigger : Type 0 where
  task_creation event_creation : CreationTrigger

-- MIN_STAGE_COLUMN
abbrev pub min_stage_column : CreationTrigger → WorkflowStageRuleRow → Option ℕ
min_stage_column CreationTrigger.task_creation r = r.task_creation_min_stage_id
min_stage_column CreationTrigger.event_creation r = r.event_creation_min_stage_id

-- TARGET_STAGE_COLUMN
abbrev pub target_stage_column : StageRuleTrigger → WorkflowStageRuleRow → Option ℕ
target_stage_column StageRuleTrigger.task_creation r = r.task_creation_target_stage_id
target_stage_column StageRuleTrigger.event_creation r = r.event_creation_target_stage_id
target_stage_column StageRuleTrigger.task_completion r = r.task_completion_target_stage_id
target_stage_column StageRuleTrigger.event_completion r = r.event_completion_target_stage_id

abbrev pub rules_of : ℕ → Db → Option WorkflowStageRuleRow
rules_of organisation_id db =
    find (λ (r : WorkflowStageRuleRow). r.organisation_id == organisation_id)
      db.workflow_stage_rules

abbrev pub stage_id : Option WorkflowStageRow → Option ℕ
stage_id none = none
stage_id (some s) = some s.id

-- The row that `getRules` inserts for an organisation without one.
abbrev pub default_rules : ℕ → Option WorkflowStageRow → ℕ → WorkflowStageRuleRow
default_rules organisation_id claim_stage now = record {
  organisation_id = organisation_id;
  task_creation_min_stage_id = stage_id claim_stage;
  task_creation_target_stage_id = none;
  event_creation_min_stage_id = stage_id claim_stage;
  event_creation_target_stage_id = none;
  task_completion_target_stage_id = none;
  event_completion_target_stage_id = none;
  updated_at = now;
}

abbrev pub create_rules : ℕ → Request WorkflowStageRuleRow
create_rules organisation_id = do
  claim_stage ← find_default_claim_stage organisation_id
  now ← query λ db. db.clock
  let created = default_rules organisation_id claim_stage now
  execute λ db. record db { workflow_stage_rules = db.workflow_stage_rules ++ created ∷ [] }
  pure created

-- `if (existing) return existing;`
abbrev pub existing_or {ℓ} : {A : Type 0} {P : Type ℓ} → Option A → (A → P) → P → P
existing_or none f d = d
existing_or (some a) f d = f a

unfoldable pub get_rules : ℕ → Request WorkflowStageRuleRow
get_rules organisation_id = do
  existing ← query (rules_of organisation_id)
  existing_or existing pure (create_rules organisation_id)

-- A property of the body: absent, or a value that may be null.
pub record RulesUpdate : Type 0 where
  pub task_creation_min_stage_id : Option (Option ℕ)
  pub task_creation_target_stage_id : Option (Option ℕ)
  pub event_creation_min_stage_id : Option (Option ℕ)
  pub event_creation_target_stage_id : Option (Option ℕ)
  pub task_completion_target_stage_id : Option (Option ℕ)
  pub event_completion_target_stage_id : Option (Option ℕ)

abbrev pub fields : RulesUpdate → List (Option (Option ℕ))
fields d =
    d.task_creation_min_stage_id ∷ d.task_creation_target_stage_id ∷ d.event_creation_min_stage_id
    ∷ d.event_creation_target_stage_id ∷ d.task_completion_target_stage_id
    ∷ d.event_completion_target_stage_id ∷ []

abbrev pub apply_rules : ℕ → RulesUpdate → WorkflowStageRuleRow → WorkflowStageRuleRow
apply_rules now d r = record r {
  task_creation_min_stage_id = get_or d.task_creation_min_stage_id r.task_creation_min_stage_id;
  task_creation_target_stage_id =
      get_or d.task_creation_target_stage_id r.task_creation_target_stage_id;
  event_creation_min_stage_id = get_or d.event_creation_min_stage_id r.event_creation_min_stage_id;
  event_creation_target_stage_id =
      get_or d.event_creation_target_stage_id r.event_creation_target_stage_id;
  task_completion_target_stage_id =
      get_or d.task_completion_target_stage_id r.task_completion_target_stage_id;
  event_completion_target_stage_id =
      get_or d.event_completion_target_stage_id r.event_completion_target_stage_id;
  updated_at = now;
}

abbrev pub is_foreign : List WorkflowStageRow → Option (Option ℕ) → Bool
is_foreign stages (some (some id)) = not (any (has_id id) stages)
is_foreign stages _ = false

-- `assertBelongsToOrg`
unfoldable pub assert_belongs_to_org : ℕ → RulesUpdate → Request (Unit {0})
assert_belongs_to_org organisation_id d = do
  stages ← list_stages organisation_id
  throw_if (any (is_foreign stages) (fields d))
      (unprocessable "not a valid workflow stage for this organisation.")

abbrev pub uuid_or_null : Option ℕ → MetaValue
uuid_or_null none = MetaValue.null
uuid_or_null (some id) = MetaValue.uuid id

abbrev pub rules_metadata : RulesUpdate → List (String × MetaValue)
rules_metadata d =
    given "taskCreationMinStageId" uuid_or_null d.task_creation_min_stage_id
    ++ given "taskCreationTargetStageId" uuid_or_null d.task_creation_target_stage_id
    ++ given "eventCreationMinStageId" uuid_or_null d.event_creation_min_stage_id
    ++ given "eventCreationTargetStageId" uuid_or_null d.event_creation_target_stage_id
    ++ given "taskCompletionTargetStageId" uuid_or_null d.task_completion_target_stage_id
    ++ given "eventCompletionTargetStageId" uuid_or_null d.event_completion_target_stage_id

unfoldable pub update_rules : ℕ → RulesUpdate → ℕ → Request WorkflowStageRuleRow
update_rules organisation_id d acting_user_id = do
  current ← get_rules organisation_id
  assert_belongs_to_org organisation_id d
  now ← query λ db. db.clock
  execute λ db. record db {
    workflow_stage_rules =
        update_where (λ (r : WorkflowStageRuleRow). r.organisation_id == organisation_id)
          (apply_rules now d) db.workflow_stage_rules;
  }
  record_audit (record {
    organisation_id = some organisation_id;
    acting_user_id = some acting_user_id;
    action = "workflow_stage_rules.updated";
    entity_type = "workflow_stage_rules";
    entity_id = some organisation_id;
    metadata = some (rules_metadata d);
  })
  pure (apply_rules now d current)

abbrev pub not_at_stage : HttpException
not_at_stage = unprocessable "This incident must be at the required stage."

-- The test on the required stage; no setting means that any non-final stage will do.
unfoldable pub require_stage : Option ℕ → WorkflowStageRow → Request (Unit {0})
require_stage none current = pure tt
require_stage (some min_stage_id) current = do
  required ← find_by_id min_stage_id
  throw_if (not (current.id == required.id)) not_at_stage

unfoldable pub assert_required_stage : ℕ → CreationTrigger → WorkflowStageRow → Request (Unit {0})
assert_required_stage organisation_id trigger current = do
  throw_if current.is_final (unprocessable "cannot be created for an incident in a final stage")
  rules ← get_rules organisation_id
  require_stage (min_stage_column trigger rules) current

-- `!minStageId || s.id === minStageId`
abbrev pub is_any_or : Option ℕ → ℕ → Bool
is_any_or none id = true
is_any_or (some min_stage_id) id = id == min_stage_id

abbrev pub is_eligible : Option ℕ → WorkflowStageRow → Bool
is_eligible min_stage_id s = not s.is_final && is_any_or min_stage_id s.id

unfoldable pub list_eligible_stage_ids : ℕ → CreationTrigger → Request (List ℕ)
list_eligible_stage_ids organisation_id trigger = do
  rules ← get_rules organisation_id
  stages ← list_stages organisation_id
  pure (
      map (λ (s : WorkflowStageRow). s.id)
        (select (is_eligible (min_stage_column trigger rules)) stages))

-- The configured target if there is one, else the next stage by position.
abbrev pub target_or_next : ℕ → WorkflowStageRow → Option ℕ → Request (Option WorkflowStageRow)
target_or_next organisation_id current none = find_next_stage organisation_id current
target_or_next organisation_id current (some target_stage_id) = do
  target ← find_by_id target_stage_id
  pure (some target)

unfoldable pub resolve_target :
    ℕ → StageRuleTrigger → WorkflowStageRow → Request (Option WorkflowStageRow)
resolve_target organisation_id trigger current = if current.is_final then pure none else do
  rules ← get_rules organisation_id
  target_or_next organisation_id current (target_stage_column trigger rules)
