-- ===== src/Workflow/Eligibility.antt =====
-- `listEligibleStageIds` against `assertRequiredStage`,
-- src/modules/workflow/workflow-stage-rules.service.ts: the picker and the check on submit.
use ecotrack_api.Common.{
  ==_iff, ==_refl, Bool, Bool-cases, List, Option, Option-cases, UniqueBy, [], any, any-map,
  any-select, any-sort_by, any_of_found, any_of_none, ap, arith, false, find, find-none_found,
  find_holds, inl, inr, map, none, refl, select, some, sym, true, ℕ, ◌&&◌, ◌++◌, ◌==◌, ◌∙◌, ◌∷◌,
  ◌≡◌,
}
use ecotrack_api.Db.{Db, Result, WorkflowStageRow, WorkflowStageRuleRow, err, ok}
use ecotrack_api.Workflow.Rules.{
  CreationTrigger, assert_required_stage, default_rules, get_rules, is_any_or, is_eligible,
  list_eligible_stage_ids, min_stage_column, require_stage, rules_of,
}
use ecotrack_api.Workflow.Stages.{second_or_first, stage_by_id, stages_of}
use ecotrack_api.Workflow.Stages.Changes.{has_id}

get_rules_total :
    (organisation_id : ℕ) (db : Db)
    → (rules : WorkflowStageRuleRow) × (db' : Db) × (get_rules organisation_id db ≡ ok (rules, db'))
      × (db'.workflow_stages ≡ db.workflow_stages)
unfolding get_rules
get_rules_total organisation_id db = elim (Option-cases (rules_of organisation_id db)) [
  | inl none' ↦
      let made =
        default_rules organisation_id
          (second_or_first (stages_of organisation_id db.workflow_stages)) db.clock in
      (
        made,
        record db { workflow_stage_rules = db.workflow_stage_rules ++ made ∷ [] },
        ground arith,
        refl,
      )
  | inr (rules, some') ↦ (rules, db, ground arith, refl)
]

-- Does the check accept the stage, and does the picker list it?
abbrev pub accepts : Result ((Unit {0}) × Db) → Bool
accepts (ok _) = true
accepts (err _) = false

abbrev pub lists : ℕ → Result (List ℕ × Db) → Bool
lists id (ok (ids, db)) = any (λ other. other == id) ids
lists id (err _) = false

-- A row that only the one with the identifier can be.
any_found :
    (id : ℕ) (p : WorkflowStageRow → Bool) (rows : List WorkflowStageRow) (s : WorkflowStageRow)
    → UniqueBy (λ (x : WorkflowStageRow). x.id) rows
    → find (has_id id) rows ≡ some s
    → ((y : WorkflowStageRow) → p y ≡ true → y.id ≡ id)
    → any p rows ≡ p s
any_found id p rows s u e only = elim (Bool-cases (p s)) [
  | inl yes' ↦ any_of_found (has_id id) p rows s e yes' ∙ sym yes'
  | inr no' ↦
      any_of_none p rows (find-none_found (λ (x : WorkflowStageRow). x.id) id p rows u e no' only)
      ∙ sym no'
]

accepts-require_stage :
    (least : Option ℕ) (s : WorkflowStageRow) (db : Db)
    → stage_by_id s.id db ≡ some s
    → accepts (require_stage least s db) ≡ is_any_or least s.id
unfolding require_stage
accepts-require_stage none s db e = refl
accepts-require_stage (some m) s db e = elim (Bool-cases (s.id == m)) [
  | inl hit ↦
      let same : m ≡ s.id = ground arith in
      let there : stage_by_id m db ≡ some s = rw same e in ground arith
  | inr miss ↦ elim (Option-cases (stage_by_id m db)) [
    | inl none' ↦ ground arith
    | inr (t, some') ↦
        let at = (==_iff _ _).0 (find_holds (has_id m) db.workflow_stages some') in ground arith
  ]
]

assert_accepts :
    (organisation_id : ℕ) (trigger : CreationTrigger) (s : WorkflowStageRow)
    (rules : WorkflowStageRuleRow) (db db' : Db)
    → get_rules organisation_id db ≡ ok (rules, db')
    → stage_by_id s.id db' ≡ some s
    → accepts (assert_required_stage organisation_id trigger s db)
      ≡ is_eligible (min_stage_column trigger rules) s
unfolding assert_required_stage
assert_accepts organisation_id trigger s rules db db' g e =
    let tail = accepts-require_stage (min_stage_column trigger rules) s db' e in
    elim (Bool-cases s.is_final) [ inl final ↦ ground arith | inr open' ↦ ground arith ]

list_effect :
    (organisation_id : ℕ) (trigger : CreationTrigger) (rules : WorkflowStageRuleRow) (db db' : Db)
    → get_rules organisation_id db ≡ ok (rules, db')
    → list_eligible_stage_ids organisation_id trigger db
      ≡ ok (
        map
            (λ (x : WorkflowStageRow). x.id)
            (select
              (is_eligible (min_stage_column trigger rules))
              (stages_of organisation_id db'.workflow_stages)),
        db',
      )
unfolding list_eligible_stage_ids
list_effect organisation_id trigger rules db db' g = ground arith

-- The list of eligible stages mirrors the check on submit: a stage of the organisation is listed for
-- a trigger exactly when `assertRequiredStage` accepts it for that trigger, where stage identifiers
-- are unique.
pub list_eligible_stage_ids-mirror :
    (organisation_id : ℕ) (trigger : CreationTrigger) (s : WorkflowStageRow) (db : Db)
    → UniqueBy (λ (x : WorkflowStageRow). x.id) db.workflow_stages
    → stage_by_id s.id db ≡ some s
    → s.organisation_id ≡ organisation_id
    → lists s.id (list_eligible_stage_ids organisation_id trigger db)
      ≡ accepts (assert_required_stage organisation_id trigger s db)
unfolding stages_of
list_eligible_stage_ids-mirror organisation_id trigger s db u e own =
    let (rules, db', g, same) = get_rules_total organisation_id db in
    let least = min_stage_column trigger rules in
    let e' : stage_by_id s.id db' ≡ some s = rw same e in
    let checked = assert_accepts organisation_id trigger s rules db db' g e' in
    ap (lists s.id) (list_effect organisation_id trigger rules db db' g)
    ∙ any-map (λ other. other == s.id) (λ (x : WorkflowStageRow). x.id) _
    ∙ any-select (λ (x : WorkflowStageRow). x.id == s.id) (is_eligible least) _
    ∙ any-sort_by (λ (x : WorkflowStageRow). x.position) _ _
    ∙ any-select (λ (x : WorkflowStageRow). is_eligible least x && x.id == s.id)
        (λ (x : WorkflowStageRow). x.organisation_id == organisation_id) _
    ∙ any_found s.id
        (λ (x : WorkflowStageRow).
          x.organisation_id == organisation_id && (is_eligible least x && x.id == s.id))
        db'.workflow_stages s (rw same u) e' (λ y q. ground arith)
    ∙ ground (arith, ==_refl s.id)
