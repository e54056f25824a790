-- ===== src/Incidents/Effects.antt =====
-- What each write of src/modules/incidents does to the incidents table, when it succeeds.
use ecotrack_api.Common.{
  Bool, Option, Option-cases, String, [], arith, codes, false, find, inl, inr, is_none, is_value,
  some, true, update_where, ℕ, ◌++◌, ◌<◌, ◌∷◌, ◌≡◌, ◌≤◌, ◌⊎◌,
}
use ecotrack_api.Db.{Db, IncidentRow, WorkflowStageRow, ok}
use ecotrack_api.Incidents.{
  CreateIncident, create_incident, incident_by_id, is_incident, new_incident,
}
use ecotrack_api.Incidents.Actions.{
  advance_row, advance_stage, duplicate_row, duplicate_write, is_verified, move_stage, reject,
  reject_row, reject_write, update_incident_stage, version_guard,
}
use ecotrack_api.Incidents.Pool.{claim_row, claim_write, is_pooled}
use ecotrack_api.Workflow.Rules.{stage_id}
use ecotrack_api.Workflow.Stages.{has_slug, stages_of}
use ecotrack_api.Workflow.Stages.Changes.{has_id}

-- An existing row changed by `f`, and nothing else: the shape of every write but the report.
pub record Changed (db db' : Db) (id : ℕ) (p : IncidentRow → Bool) (f : IncidentRow → IncidentRow)
    (i : IncidentRow) : Type 0 where
  pub found : incident_by_id id db ≡ some i
  pub table : db'.incidents ≡ update_where p f db.incidents
  pub ids : db.next_id ≤ db'.next_id

pub report_effect :
    (user_id : ℕ) (d : CreateIncident) (db db' : Db) (r : IncidentRow)
    → create_incident user_id d db ≡ ok (r, db')
    → (db'.incidents ≡ db.incidents ++ new_incident db.clock db.next_id user_id d ∷ [])
      × (db.next_id < db'.next_id)
unfolding create_incident
report_effect user_id d db db' r h = ground arith

pub reject_write_effect :
    (organisation_id incident_id acting_user_id : ℕ) (reason : String) (seen : IncidentRow)
    (stage : Option ℕ) (db db' : Db) (r : IncidentRow)
    → reject_write organisation_id incident_id acting_user_id reason seen stage db ≡ ok (r, db')
    → (i : IncidentRow) × Changed db db' incident_id
        (is_incident incident_id)
        (reject_row db.clock reason stage)
        i
      × (r ≡ reject_row db.clock reason stage i)
unfolding reject_write
reject_write_effect organisation_id incident_id acting_user_id reason seen stage db db' r h =
    elim (Option-cases (incident_by_id incident_id db)) [
      | inl e ↦ absurd (ground arith)
      | inr (i, e) ↦ (i, ground arith, ground arith)
    ]

pub duplicate_write_effect :
    (organisation_id incident_id acting_user_id duplicate_of_id : ℕ) (db db' : Db) (r : IncidentRow)
    → duplicate_write organisation_id incident_id acting_user_id duplicate_of_id db ≡ ok (r, db')
    → (i : IncidentRow) × Changed db db' incident_id
        (is_incident incident_id)
        (duplicate_row db.clock duplicate_of_id)
        i
      × (r ≡ duplicate_row db.clock duplicate_of_id i)
unfolding duplicate_write
duplicate_write_effect organisation_id incident_id acting_user_id duplicate_of_id db db' r h =
    elim (Option-cases (incident_by_id incident_id db)) [
      | inl e ↦ absurd (ground arith)
      | inr (i, e) ↦ (i, ground arith, ground arith)
    ]

-- A `reject` is its checks, and then its write on the same state.
pub reject_checked :
    (organisation_id incident_id acting_user_id : ℕ) (reason : String) (db db' : Db)
    (r : IncidentRow)
    → reject organisation_id incident_id acting_user_id reason db ≡ ok (r, db')
    → (i : IncidentRow) × (stage : Option ℕ) × (incident_by_id incident_id db ≡ some i)
      × (is_value i.organisation_id organisation_id ≡ true)
      × (is_verified i.verification_status ≡ true)
      × (reject_write organisation_id incident_id acting_user_id reason i stage db ≡ ok (r, db'))
unfolding reject
reject_checked organisation_id incident_id acting_user_id reason db db' r h =
    elim (Option-cases (incident_by_id incident_id db)) [
      | inl e ↦ absurd (ground arith)
      | inr (i, e) ↦ (
        i,
        stage_id (find (has_slug organisation_id (codes "dismissed")) db.workflow_stages),
        ground arith,
        ground arith,
        ground arith,
        ground arith,
      )
    ]

pub claim_write_effect :
    (incident_id organisation_id acting_user_id : ℕ) (stage : Option ℕ) (db db' : Db)
    (r : IncidentRow)
    → claim_write incident_id organisation_id acting_user_id stage db ≡ ok (r, db')
    → (i : IncidentRow) × (find (is_pooled incident_id) db.incidents ≡ some i)
      × (db'.incidents
          ≡ update_where
              (is_pooled incident_id)
              (claim_row db.clock organisation_id acting_user_id stage)
              db.incidents)
      × (db.next_id ≤ db'.next_id)
      × (r ≡ claim_row db.clock organisation_id acting_user_id stage i)
unfolding claim_write
claim_write_effect incident_id organisation_id acting_user_id stage db db' r h =
    elim (Option-cases (find (is_pooled incident_id) db.incidents)) [
      | inl e ↦ absurd (ground arith)
      | inr (i, e) ↦ (i, ground arith, ground arith, ground arith, ground arith)
    ]

pub advance_effect :
    (organisation_id incident_id target acting_user_id : ℕ) (trigger : String) (db db' : Db)
    → advance_stage organisation_id incident_id target acting_user_id trigger db ≡ ok (tt, db')
    → (db'.incidents
        ≡ update_where (is_incident incident_id) (advance_row db.clock target) db.incidents)
      × (db.next_id ≤ db'.next_id)
unfolding advance_stage
advance_effect organisation_id incident_id target acting_user_id trigger db db' h = ground arith

-- The guarded UPDATE hits a row of the expected version, or the request fails.
pub move_stage_effect :
    (organisation_id : ℕ) (i : IncidentRow) (target : ℕ) (expected : Option ℕ) (acting_user_id : ℕ)
    (db db' : Db) (r : IncidentRow)
    → move_stage organisation_id i target expected acting_user_id db ≡ ok (r, db')
    → (before : IncidentRow) × (find (version_guard i.id expected) db.incidents ≡ some before)
      × (db'.incidents
          ≡ update_where (version_guard i.id expected) (advance_row db.clock target) db.incidents)
      × (db.next_id ≤ db'.next_id)
      × (r ≡ advance_row db.clock target before)
unfolding move_stage
move_stage_effect organisation_id i target expected acting_user_id db db' r h =
    elim (Option-cases (find (version_guard i.id expected) db.incidents)) [
      | inl e ↦ absurd (ground arith)
      | inr (b, e) ↦ (b, ground arith, ground arith, ground arith, ground arith)
    ]

-- `updateStage` returns the incident untouched where it is on the stage already, and otherwise
-- moves it under the version guard.
pub update_stage_effect :
    (organisation_id incident_id stage : ℕ) (expected : Option ℕ) (acting_user_id : ℕ) (db db' : Db)
    (r : IncidentRow)
    → update_incident_stage organisation_id incident_id stage expected acting_user_id db
      ≡ ok (r, db')
    → (i : IncidentRow) × (target : WorkflowStageRow) × (incident_by_id incident_id db ≡ some i)
      × (is_none i.organisation_id ≡ false)
      × (find (has_id stage) (stages_of organisation_id db.workflow_stages) ≡ some target)
      × (((is_value i.current_stage_id target.id ≡ true) × (r ≡ i) × (db' ≡ db))
          ⊎ ((is_value i.current_stage_id target.id ≡ false)
              × (move_stage organisation_id i target.id expected acting_user_id db ≡ ok (r, db'))))
unfolding update_incident_stage
update_stage_effect organisation_id incident_id stage expected acting_user_id db db' r h =
    elim (Option-cases (incident_by_id incident_id db)) [
      | inl e ↦ absurd (ground arith)
      | inr (i, e) ↦
          elim (Option-cases (find (has_id stage) (stages_of organisation_id db.workflow_stages))) [
            | inl e' ↦ absurd (ground arith)
            | inr (target, e') ↦ (i, target, ground arith, ground arith, ground arith, ground arith)
          ]
    ]
