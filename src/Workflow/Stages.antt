-- ===== src/Workflow/Stages.antt =====
-- WorkflowStagesService, src/modules/workflow/workflow-stages.service.ts. A lookup that the source
-- answers with `undefined` returns an `Option`.
pub mod Changes
pub mod Free
pub mod Seeding
pub mod Reorder
use ecotrack_api.Common.{
  Bool, List, Option, String, [], any, codes, false, find, first_free, get_elem?, length, none, not,
  select, some, sort_by, str_eq, suc, ℕ, ◌&&◌, ◌++◌, ◌+◌, ◌==◌, ◌||◌, ◌∷◌,
}
use ecotrack_api.Db.{
  Db, HttpException, MetaValue, Request, WorkflowStageRow, err, execute, fresh_id, internal,
  not_found, ok, or_throw, pure, query, throw_if, ◌>>=◌, ◌>>◌,
}
use ecotrack_api.Platform.Audit.{AuditEntry, record_audit}
use ecotrack_api.Workflow.Slug.{Text, same_text, slugify, suffixed}

-- `findMany({ where: organisationId, orderBy: asc(position) })`
unfoldable pub stages_of : ℕ → List WorkflowStageRow → List WorkflowStageRow
stages_of organisation_id rows =
    sort_by (λ (s : WorkflowStageRow). s.position)
      (select (λ (s : WorkflowStageRow). s.organisation_id == organisation_id) rows)

abbrev pub list_stages : ℕ → Request (List WorkflowStageRow)
list_stages organisation_id = query λ db. stages_of organisation_id db.workflow_stages

abbrev pub find_first_stage : ℕ → Request (Option WorkflowStageRow)
find_first_stage organisation_id =
    query λ db. get_elem? (stages_of organisation_id db.workflow_stages) 0

-- `stages[1] ?? stages[0]`
abbrev pub second_or_first : List WorkflowStageRow → Option WorkflowStageRow
second_or_first [] = none
second_or_first (a ∷ []) = some a
second_or_first (a ∷ b ∷ rest) = some b

abbrev pub find_default_claim_stage : ℕ → Request (Option WorkflowStageRow)
find_default_claim_stage organisation_id = do
  stages ← list_stages organisation_id
  pure (second_or_first stages)

abbrev pub has_slug : ℕ → Text → WorkflowStageRow → Bool
has_slug organisation_id slug s = s.organisation_id == organisation_id && same_text s.slug slug

abbrev pub find_stage_by_slug : ℕ → Text → Request (Option WorkflowStageRow)
find_stage_by_slug organisation_id slug =
    query λ db. find (has_slug organisation_id slug) db.workflow_stages

abbrev pub find_dismissed_stage : ℕ → Request (Option WorkflowStageRow)
find_dismissed_stage organisation_id = find_stage_by_slug organisation_id (codes "dismissed")

abbrev pub is_next : ℕ → WorkflowStageRow → WorkflowStageRow → Bool
is_next organisation_id current s =
    s.organisation_id == organisation_id && s.position == current.position + 1

abbrev pub find_next_stage : ℕ → WorkflowStageRow → Request (Option WorkflowStageRow)
find_next_stage organisation_id current =
    query λ db. find (is_next organisation_id current) db.workflow_stages

abbrev pub stage_not_found : HttpException
stage_not_found = not_found "Workflow stage not found"

abbrev pub stage_by_id : ℕ → Db → Option WorkflowStageRow
stage_by_id id db = find (λ (s : WorkflowStageRow). s.id == id) db.workflow_stages

abbrev pub find_by_id : ℕ → Request WorkflowStageRow
find_by_id id = do found ← query (stage_by_id id); or_throw found stage_not_found

unfoldable pub find_scoped : ℕ → ℕ → Request WorkflowStageRow
find_scoped organisation_id id = do
  stage ← find_by_id id
  throw_if (not (stage.organisation_id == organisation_id)) stage_not_found
  pure stage

-- The `while` of `uniqueSlug`, on fuel; `none` means that the fuel ran out.
unfoldable pub free_slug : ℕ → ℕ → List WorkflowStageRow → Text → Text → ℕ → Option Text
free_slug fuel organisation_id rows base candidate suffix =
    first_free (λ slug. any (has_slug organisation_id slug) rows) (suffixed base) fuel candidate
      suffix

-- One try more than there are stages.
unfoldable pub unique_slug : ℕ → String → List WorkflowStageRow → Option Text
unique_slug organisation_id name rows =
    let base = slugify (codes name) in
    free_slug (suc (length rows)) organisation_id rows base base 2

abbrev pub out_of_fuel : HttpException
out_of_fuel = internal "out of fuel"

abbrev pub insert_stage : WorkflowStageRow → Request (Unit {0})
insert_stage row = execute λ db. record db { workflow_stages = db.workflow_stages ++ row ∷ [] }

abbrev pub default_workflow_stages : List (String × String)
default_workflow_stages =
    ("Reported", "#EF4444")
    ∷ ("Claimed", "#F59E0B")
    ∷ ("Cleanup Scheduled", "#3B82F6")
    ∷ ("Resolved", "#22C55E")
    ∷ ("Dismissed", "#6B7280")
    ∷ []

-- The inserts of `seedDefaultStages`: every slug is looked up before the one INSERT, among `rows`.
unfoldable pub seed_from :
    ℕ → List WorkflowStageRow → ℕ → List (String × String) → Request (List WorkflowStageRow)
seed_from organisation_id rows position [] db = ok ([], db)
seed_from organisation_id rows position ((name, color) ∷ more) db =
    elim (unique_slug organisation_id name rows) [
      | none ↦ err out_of_fuel
      | some slug ↦
          let row : WorkflowStageRow = record {
            id = db.next_id;
            organisation_id = organisation_id;
            name = name;
            slug = slug;
            description = none;
            color = color;
            position = position;
            is_final = position == 4 || str_eq name "Resolved";
            updated_at = db.clock;
          } in
          elim (seed_from organisation_id rows (position + 1) more (record db {
            next_id = suc db.next_id;
            workflow_stages = db.workflow_stages ++ row ∷ [];
          })) [ ok (saved, db') ↦ ok (row ∷ saved, db') | err e ↦ err e ]
    ]

unfoldable pub seed_default_stages : ℕ → Request (List WorkflowStageRow)
unfolding seed_from
seed_default_stages organisation_id db =
    seed_from organisation_id db.workflow_stages 0 default_workflow_stages db

pub record NewStage : Type 0 where
  pub organisation_id : ℕ
  pub name : String
  pub description : Option String
  pub color : String
  pub acting_user_id : ℕ

abbrev pub stage_entry : ℕ → ℕ → String → Option ℕ → Option (List (String × MetaValue)) → AuditEntry
stage_entry organisation_id acting_user_id action entity_id metadata = record {
  organisation_id = some organisation_id;
  acting_user_id = some acting_user_id;
  action = action;
  entity_type = "workflow_stage";
  entity_id = entity_id;
  metadata = metadata;
}

unfoldable pub create_stage : NewStage → Request WorkflowStageRow
create_stage d = do
  stages ← list_stages d.organisation_id
  unused ← query λ db. unique_slug d.organisation_id d.name db.workflow_stages
  slug ← or_throw unused out_of_fuel
  now ← query λ db. db.clock
  id ← fresh_id
  let saved : WorkflowStageRow = record {
    id = id;
    organisation_id = d.organisation_id;
    name = d.name;
    slug = slug;
    description = d.description;
    color = d.color;
    position = length stages;
    is_final = false;
    updated_at = now;
  }
  insert_stage saved
  record_audit
      (stage_entry d.organisation_id d.acting_user_id "workflow_stage.created" (some id) none)
  pure saved
