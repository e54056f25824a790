-- ===== src/Incidents/Frames.antt =====
-- What the automatic advance of an incident leaves alone: every part of the state but the incidents,
-- the rules, the audit log and the supply of identifiers.
use ecotrack_api.Common.{
  Bool-cases, List, Option, Option-cases, String, [], ap, arith, inl, inr, none, some, ℕ, ◌++◌,
  ◌==◌, ◌∙◌, ◌∷◌, ◌≡◌,
}
use ecotrack_api.Db.{
  AuditLogRow, Db, IncidentRow, Keeps, Keeps->>=, Keeps-if, Keeps-pure, Keeps-query,
  WorkflowStageRow, WorkflowStageRuleRow, pure,
}
use ecotrack_api.Incidents.{find_incident, find_scoped_incident, incident_by_id}
use ecotrack_api.Incidents.Actions.{advance_stage}
use ecotrack_api.Incidents.Advance.{advance_if_other, auto_advance}
use ecotrack_api.Workflow.Rules.{
  StageRuleTrigger, default_rules, get_rules, resolve_target, rules_of, target_or_next,
  target_stage_column,
}
use ecotrack_api.Workflow.Stages.{find_by_id, second_or_first, stage_by_id, stages_of}

abbrev pub advanced_parts :
    ℕ → List IncidentRow → List WorkflowStageRuleRow → List AuditLogRow → Db → Db
advanced_parts n is rs ls db = record db {
  next_id = n;
  incidents = is;
  workflow_stage_rules = rs;
  audit_logs = ls;
}

module _ {X : Type 0} (part : Db → X)
    (blind : (db : Db) (n : ℕ) (is : List IncidentRow) (rs : List WorkflowStageRuleRow)
        (ls : List AuditLogRow)
      → part (advanced_parts n is rs ls db) ≡ part db) where
  pub get_rules-Keeps : (organisation_id : ℕ) → Keeps part (get_rules organisation_id)
  unfolding get_rules Keeps
  get_rules-Keeps organisation_id db db' r h = elim (Option-cases (rules_of organisation_id db)) [
    | inl none' ↦
        let made =
          default_rules organisation_id
            (second_or_first (stages_of organisation_id db.workflow_stages)) db.clock in
        let e : db'
            ≡ advanced_parts db.next_id db.incidents (db.workflow_stage_rules ++ made ∷ [])
                db.audit_logs db =
          ground arith in
        ap part e ∙ blind db _ _ _ _
    | inr (_, some') ↦ let e : db' ≡ db = ground arith in ap part e
  ]

  pub find_by_id-Keeps : (id : ℕ) → Keeps part (find_by_id id)
  unfolding Keeps
  find_by_id-Keeps id db db' r h = elim (Option-cases (stage_by_id id db)) [
    | inl none' ↦ absurd (ground arith)
    | inr (_, some') ↦ let e : db' ≡ db = ground arith in ap part e
  ]

  target_or_next-Keeps :
      (organisation_id : ℕ) (current : WorkflowStageRow) (target : Option ℕ)
      → Keeps part (target_or_next organisation_id current target)
  target_or_next-Keeps organisation_id current none = Keeps-query part _
  target_or_next-Keeps organisation_id current (some id) =
      Keeps->>= part (find_by_id id) _ (find_by_id-Keeps id) (λ s. Keeps-pure part (some s))

  resolve_target-Keeps :
      (organisation_id : ℕ) (trigger : StageRuleTrigger) (current : WorkflowStageRow)
      → Keeps part (resolve_target organisation_id trigger current)
  unfolding resolve_target
  resolve_target-Keeps organisation_id trigger current =
      Keeps-if part current.is_final (pure none) _ (Keeps-pure part none) (
        Keeps->>= part (get_rules organisation_id) _ (get_rules-Keeps organisation_id) (λ rules.
          target_or_next-Keeps organisation_id current (target_stage_column trigger rules)))

  advance_if_other-Keeps :
      (organisation_id incident_id : ℕ) (current : WorkflowStageRow) (user_id : ℕ) (label : String)
      (target : Option WorkflowStageRow)
      → Keeps part (advance_if_other organisation_id incident_id current user_id label target)
  unfolding advance_if_other advance_stage Keeps
  advance_if_other-Keeps organisation_id incident_id current user_id label none db db' r h =
      let e : db' ≡ db = ground arith in ap part e
  advance_if_other-Keeps organisation_id incident_id current user_id label (some target) db db' r
        h =
      elim (Bool-cases (target.id == current.id)) [
        | inl same ↦ let e : db' ≡ db = ground arith in ap part e
        | inr other ↦
            let e : db'
                ≡ advanced_parts db'.next_id db'.incidents db'.workflow_stage_rules db'.audit_logs
                    db =
              ground arith in
            ap part e ∙ blind db _ _ _ _
      ]

  pub auto_advance-Keeps :
      (organisation_id incident_id : ℕ) (trigger : StageRuleTrigger) (current : WorkflowStageRow)
      (user_id : ℕ) (label : String)
      → Keeps part (auto_advance organisation_id incident_id trigger current user_id label)
  unfolding auto_advance
  auto_advance-Keeps organisation_id incident_id trigger current user_id label =
      Keeps->>= part (resolve_target organisation_id trigger current) _
        (resolve_target-Keeps organisation_id trigger current)
        (advance_if_other-Keeps organisation_id incident_id current user_id label)

  pub find_scoped_incident-Keeps :
      (organisation_id id : ℕ) → Keeps part (find_scoped_incident organisation_id id)
  unfolding Keeps
  find_scoped_incident-Keeps organisation_id id db db' r h =
      elim (Option-cases (incident_by_id id db)) [
        | inl none' ↦ absurd (ground arith)
        | inr (_, some') ↦ let e : db' ≡ db = ground arith in ap part e
      ]

  pub find_incident-Keeps : (id : ℕ) → Keeps part (find_incident id)
  unfolding Keeps
  find_incident-Keeps id db db' r h = elim (Option-cases (incident_by_id id db)) [
    | inl none' ↦ absurd (ground arith)
    | inr (_, some') ↦ let e : db' ≡ db = ground arith in ap part e
  ]
