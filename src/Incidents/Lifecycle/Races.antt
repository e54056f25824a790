-- ===== src/Incidents/Lifecycle/Races.antt =====
-- Two requests on one incident, with any writes in between: the claim and the version guard of
-- src/modules/incidents (incident-pool.service.ts, incidents.service.ts).
use ecotrack_api.Common.{
  Option, String, arith, false, find, find-UniqueBy, find-none_found, find-update_found, find_holds,
  inl, inr, is_value, none, refl, some, suc, true, ℕ, ◌∙◌, ◌≡◌, ◌≢◌,
}
use ecotrack_api.Db.{Db, IncidentRow, VerificationStatus, err, ok}
use ecotrack_api.Incidents.{incident_by_id, is_incident}
use ecotrack_api.Incidents.Actions.{
  advance_row, already_resolved, is_verified, mark_duplicate, modified_concurrently, move_stage,
  reject, reject_row, update_incident_stage, version_guard,
}
use ecotrack_api.Incidents.Effects.{
  claim_write_effect, move_stage_effect, reject_checked, reject_write_effect, update_stage_effect,
}
use ecotrack_api.Incidents.Lifecycle.{IncidentsOk, Reach}
use ecotrack_api.Incidents.Lifecycle.Safety.{Reach-Kept, found_afterwards}
use ecotrack_api.Incidents.Lifecycle.Writes.{
  claimed-Kept, guard_id, reject-Kept, same_id_of, update_stage-Kept,
}
use ecotrack_api.Incidents.Pool.{claim_row, claim_write, is_pooled, just_claimed}

found_after_claim :
    (incident_id organisation_id user_id : ℕ) (stage : Option ℕ) (db db' : Db) (r : IncidentRow)
    → IncidentsOk db
    → claim_write incident_id organisation_id user_id stage db ≡ ok (r, db')
    → (i : IncidentRow) × (incident_by_id incident_id db' ≡ some i)
      × (i.organisation_id ≡ some organisation_id)
found_after_claim incident_id organisation_id user_id stage db db' r s h =
    let (i, e, t, n, _) = claim_write_effect incident_id organisation_id user_id stage db db' r h in
    let only : (y : IncidentRow) → is_pooled incident_id y ≡ true → y.id ≡ incident_id =
      λ y p. ground arith in
    let found =
      find-UniqueBy (λ (y : IncidentRow). y.id) incident_id (is_pooled incident_id) db.incidents
        s.unique only e in
    (
      claim_row db.clock organisation_id user_id stage i,
      rw t (
          find-update_found (λ (y : IncidentRow). y.id) incident_id (is_pooled incident_id)
            (claim_row db.clock organisation_id user_id stage) db.incidents (λ y. refl) found
            (find_holds (is_pooled incident_id) db.incidents e) only),
      refl,
    )

-- A claim is exclusive, from a sound incidents table on: once one organisation's claim of an
-- incident has succeeded, then whatever writes follow, every other claim of that incident whose
-- checks had passed before fails with the conflict of `claim`, and so writes nothing.
pub claim_exclusive :
    (incident_id first second user_id user_id' : ℕ) (stage stage' : Option ℕ) (db db₁ db₂ : Db)
    (r : IncidentRow)
    → IncidentsOk db
    → claim_write incident_id first user_id stage db ≡ ok (r, db₁)
    → Reach db₁ db₂
    → claim_write incident_id second user_id' stage' db₂ ≡ err just_claimed
unfolding claim_write
claim_exclusive incident_id first second user_id user_id' stage stage' db db₁ db₂ r s h reach =
    let (i, found, owned) = found_after_claim incident_id first user_id stage db db₁ r s h in
    let start = (claimed-Kept incident_id first user_id stage db db₁ r s h).table in
    let kept = Reach-Kept start reach in
    let (j, found', l) = found_afterwards incident_id i start reach found in
    let taken : j.organisation_id ≡ some first = ground arith in
    let nothing : find (is_pooled incident_id) db₂.incidents ≡ none =
      find-none_found (λ (y : IncidentRow). y.id) incident_id (is_pooled incident_id) db₂.incidents
        {a = j} kept.table.unique found' (ground arith) (λ y p. ground arith) in
    ground arith

-- A rejected incident is one that `reject` or `markDuplicate` has dealt with.
found_after_reject :
    (organisation_id incident_id user_id : ℕ) (reason : String) (db db' : Db) (r : IncidentRow)
    → IncidentsOk db
    → reject organisation_id incident_id user_id reason db ≡ ok (r, db')
    → (i : IncidentRow) × (incident_by_id incident_id db' ≡ some i)
      × (is_value i.organisation_id organisation_id ≡ true)
      × (i.verification_status ≡ some VerificationStatus.rejected)
found_after_reject organisation_id incident_id user_id reason db db' r s h =
    let (i, stage, e, own, active, write) =
      reject_checked organisation_id incident_id user_id reason db db' r h in
    let (_, c, _) =
      reject_write_effect organisation_id incident_id user_id reason i stage db db' r write in
    (
      reject_row db.clock reason stage i,
      rw c.table (
          find-update_found (λ (y : IncidentRow). y.id) incident_id (is_incident incident_id)
            (reject_row db.clock reason stage) db.incidents (λ y. refl) e
            (find_holds (is_incident incident_id) db.incidents e) (same_id_of incident_id)),
      own,
      refl,
    )

-- A verdict is final for every request that starts after it, from a sound incidents table on: once
-- `reject` has succeeded, then whatever writes follow, those of requests that had checked before
-- among them, a second `reject` or a `markDuplicate` of that incident by the organisation fails with
-- the error for a resolved one.
pub reject_final :
    (organisation_id incident_id user_id user_id' original_id : ℕ) (reason reason' : String)
    (db db₁ db₂ : Db) (r : IncidentRow)
    → IncidentsOk db
    → reject organisation_id incident_id user_id reason db ≡ ok (r, db₁)
    → Reach db₁ db₂
    → (reject organisation_id incident_id user_id' reason' db₂ ≡ err already_resolved)
      × (mark_duplicate organisation_id incident_id user_id' original_id db₂ ≡ err already_resolved)
unfolding reject mark_duplicate
reject_final organisation_id incident_id user_id user_id' original_id reason reason' db db₁ db₂ r s
      h reach =
    let (i, found, own, verdict) =
      found_after_reject organisation_id incident_id user_id reason db db₁ r s h in
    let start = (reject-Kept organisation_id incident_id user_id reason db db₁ r s h).table in
    let (j, found', l) = found_afterwards incident_id i start reach found in
    let same : j.organisation_id ≡ i.organisation_id = ground arith in
    let still : is_verified j.verification_status ≡ false = ground arith in
    (ground arith, ground arith)

found_after_move :
    (organisation_id incident_id stage version user_id : ℕ) (db db' : Db) (r : IncidentRow)
    → IncidentsOk db
    → update_incident_stage organisation_id incident_id stage (some version) user_id db
      ≡ ok (r, db')
    → db' ≢ db
    → incident_by_id incident_id db' ≡ some r × (r.version ≡ suc version)
found_after_move organisation_id incident_id stage version user_id db db' r s h moved =
    let (i, target, e, own, _, cases) =
      update_stage_effect organisation_id incident_id stage (some version) user_id db db' r h in
    elim cases [
      | inl idle ↦ absurd (moved idle.2)
      | inr move ↦
          let (b, hit, t, n, after) =
            move_stage_effect organisation_id i target.id (some version) user_id db db' r move.1 in
          let at : i.id ≡ incident_id =
            same_id_of incident_id i (find_holds (is_incident incident_id) db.incidents e) in
          let guard = find_holds (version_guard i.id (some version)) db.incidents hit in
          let only : (y : IncidentRow)
              → version_guard i.id (some version) y ≡ true
              → y.id ≡ incident_id =
            λ y g. guard_id i.id (some version) y g ∙ at in
          let found =
            find-UniqueBy (λ (y : IncidentRow). y.id) incident_id
              (version_guard i.id (some version)) db.incidents s.unique only hit in
          (
            rw (t, after)
                (find-update_found (λ (y : IncidentRow). y.id) incident_id
                  (version_guard i.id (some version)) (advance_row db.clock target.id) db.incidents
                  (λ y. refl) found guard only),
            ground arith,
          )
    ]

-- No lost update, from a sound incidents table on: two requests expect the same version of an
-- incident. Once the first has moved it, then whatever writes follow, the write of the second fails
-- with the conflict, where its checks had been made before, on whatever state; and a second request
-- that starts now changes nothing: it fails, or finds the incident on its stage already and returns
-- it with the state as it was.
pub update_stage_exclusive :
    (organisation_id organisation_id' incident_id stage stage' version user_id user_id' : ℕ)
    (db db₁ db₂ : Db) (r : IncidentRow)
    → IncidentsOk db
    → update_incident_stage organisation_id incident_id stage (some version) user_id db
      ≡ ok (r, db₁)
    → db₁ ≢ db
    → Reach db₁ db₂
    → ((seen : IncidentRow)
        → seen.id ≡ incident_id
        → move_stage organisation_id' seen stage' (some version) user_id' db₂
          ≡ err modified_concurrently)
      × ((r' : IncidentRow) (db₃ : Db)
          → update_incident_stage organisation_id' incident_id stage' (some version) user_id' db₂
            ≡ ok (r', db₃)
          → (db₃ ≡ db₂) × (incident_by_id incident_id db₂ ≡ some r'))
unfolding move_stage
update_stage_exclusive organisation_id organisation_id' incident_id stage stage' version user_id
      user_id' db db₁ db₂ r s h moved reach =
    let (found, newer) =
      found_after_move organisation_id incident_id stage version user_id db db₁ r s h moved in
    let start =
      (update_stage-Kept organisation_id incident_id stage (some version) user_id db db₁ r s
        h).table in
    let kept = Reach-Kept start reach in
    let (j, found', l) = found_afterwards incident_id r start reach found in
    let nothing : find (version_guard incident_id (some version)) db₂.incidents ≡ none =
      find-none_found (λ (y : IncidentRow). y.id) incident_id
        (version_guard incident_id (some version)) db₂.incidents {a = j} kept.table.unique found'
        (ground arith) (guard_id incident_id (some version)) in
    (
      (λ seen at. rw at (rw nothing refl)),
      (λ r' db₃ h'.
          let (i, target, e, own, _, cases) =
            update_stage_effect organisation_id' incident_id stage' (some version) user_id' db₂ db₃
              r' h' in
          elim cases [
            | inl idle ↦ (idle.2, ground arith)
            | inr move ↦
                let (b, hit, _, _, _) =
                  move_stage_effect organisation_id' i target.id (some version) user_id' db₂ db₃ r'
                    move.1 in
                let at : i.id ≡ incident_id =
                  same_id_of incident_id i (find_holds (is_incident incident_id) db₂.incidents e) in
                absurd (ground arith)
          ]),
    )
