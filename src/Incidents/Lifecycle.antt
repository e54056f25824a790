-- ===== src/Incidents/Lifecycle.antt =====
-- The life of an incident over any sequence of the services' writes
-- (src/modules/incidents/incidents.service.ts, incident-pool.service.ts): what a sound table is, when
-- one state of an incident is later than another, and the writes as a step relation.
pub mod Erased
pub mod Writes
pub mod Safety
pub mod Races
use ecotrack_api.Common.{
  All, Evolves, Option, String, UniqueBy, arith, false, none, some, ℕ, ◌<◌, ◌≡◌, ◌≢◌, ◌≤◌,
}
use ecotrack_api.Db.{Db, IncidentRow, VerificationStatus, ok}
use ecotrack_api.Events.{linked}
use ecotrack_api.Incidents.{CreateIncident, create_incident, incident_by_id}
use ecotrack_api.Incidents.Actions.{
  advance_stage, duplicate_write, is_verified, move_stage, reject_write,
}
use ecotrack_api.Incidents.Pool.{claim_write}
use ecotrack_api.Users.Deletion.{delete_account}

-- `organisation_id IS NULL` means pooled, and the claim sets its columns together.
pub record IsSound (i : IncidentRow) : Type 0 where
  pub pooled :
      i.organisation_id ≡ none
      → (i.verification_status ≡ none)
        × (i.current_stage_id ≡ none)
        × (i.claimed_by_user_id ≡ none)
        × (i.claimed_at ≡ none)
  pub claimed : i.organisation_id ≢ none → (i.verification_status ≢ none) × (i.claimed_at ≢ none)
  pub reasoned :
      i.verification_status ≡ some VerificationStatus.rejected → i.rejection_reason ≢ none
  pub linked : i.verification_status ≡ some VerificationStatus.duplicate → i.duplicate_of_id ≢ none

-- What a later state of an incident owes to an earlier one.
pub record Later (i j : IncidentRow) : Type 0 where
  pub same_id : j.id ≡ i.id
  pub reporter : j.reported_by_user_id ≢ none → j.reported_by_user_id ≡ i.reported_by_user_id
  pub kept_owner : i.organisation_id ≢ none → j.organisation_id ≡ i.organisation_id
  pub kept_claim : i.organisation_id ≢ none → j.claimed_at ≡ i.claimed_at
  pub terminal :
      i.verification_status ≢ none
      → is_verified i.verification_status ≡ false
      → (j.verification_status ≢ none) × (is_verified j.verification_status ≡ false)
  pub version_grows : i.version ≤ j.version

pub Later-refl : (i : IncidentRow) → Later i i
Later-refl i = ground arith

pub Later-trans : (i j k : IncidentRow) → Later i j → Later j k → Later i k
Later-trans i j k p q = ground arith

-- The incidents table is sound: identifiers are unique and already handed out.
pub record IncidentsOk (db : Db) : Type 0 where
  pub unique : UniqueBy (λ (i : IncidentRow). i.id) db.incidents
  pub fresh : All (λ (i : IncidentRow). i.id < db.next_id) db.incidents
  pub sound : All IsSound db.incidents

-- One successful write to the incidents table, by any service: its UPDATE alone, with whatever an
-- earlier check has read, so that requests may interleave between the two. A claim may come with any
-- stage. The other writes are of callers that have seen the incident claimed, as it then stays
-- (Safety.found_afterwards). `erased` is the deletion of an account, which clears its references.
pub data Step (db db' : Db) : Type 0 where
  reported :
      (user_id : ℕ) (d : CreateIncident) (r : IncidentRow)
      → create_incident user_id d db ≡ ok (r, db')
      → Step db db'
  claimed :
      (incident_id organisation_id user_id : ℕ) (stage : Option ℕ) (r : IncidentRow)
      → claim_write incident_id organisation_id user_id stage db ≡ ok (r, db')
      → Step db db'
  rejected :
      (organisation_id incident_id user_id : ℕ) (reason : String) (seen i : IncidentRow)
      (dismissed : Option ℕ) (r : IncidentRow)
      → incident_by_id incident_id db ≡ some i
      → i.organisation_id ≢ none
      → reject_write organisation_id incident_id user_id reason seen dismissed db ≡ ok (r, db')
      → Step db db'
  duplicated :
      (organisation_id incident_id user_id duplicate_of_id : ℕ) (i r : IncidentRow)
      → incident_by_id incident_id db ≡ some i
      → i.organisation_id ≢ none
      → duplicate_write organisation_id incident_id user_id duplicate_of_id db ≡ ok (r, db')
      → Step db db'
  moved :
      (organisation_id target : ℕ) (expected : Option ℕ) (user_id : ℕ) (seen i r : IncidentRow)
      → incident_by_id seen.id db ≡ some i
      → i.organisation_id ≢ none
      → move_stage organisation_id seen target expected user_id db ≡ ok (r, db')
      → Step db db'
  advanced :
      (organisation_id incident_id target user_id : ℕ) (trigger : String) (i : IncidentRow)
      → incident_by_id incident_id db ≡ some i
      → i.organisation_id ≢ none
      → advance_stage organisation_id incident_id target user_id trigger db ≡ ok (tt, db')
      → Step db db'
  erased : (user_id : ℕ) → delete_account user_id db ≡ ok (tt, db') → Step db db'
  elsewhere : db'.incidents ≡ db.incidents → db.next_id ≤ db'.next_id → Step db db'

-- The table stays sound, and every incident is later than it was.
pub record Kept (db db' : Db) : Type 0 where
  pub table : IncidentsOk db'
  pub later : Evolves Later db.incidents db'.incidents

pub data Reach (db : Db) : Db → Type 0 where
  here : Reach db db
  next : {db₁ db₂ : Db} → Reach db db₁ → Step db₁ db₂ → Reach db db₂
