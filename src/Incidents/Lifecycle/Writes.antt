-- ===== src/Incidents/Lifecycle/Writes.antt =====
-- Each write of the incidents services keeps the table sound and its rows later.
use ecotrack_api.Common.{
  ==_iff, All, All-append, All-find, All-map, All-update_found, All-update_where, Bool,
  Evolves-append, Evolves-refl, Evolves-update_found, List, Option, String, UniqueBy-snoc,
  UniqueBy-update_where, [], ap, arith, find, find-UniqueBy, find_holds, inl, inr, is_none, none,
  refl, some, true, update_where, ℕ, ◌<◌, ◌∷◌, ◌≡◌, ◌≢◌, ◌≤◌,
}
use ecotrack_api.Db.{Db, IncidentRow, ok}
use ecotrack_api.Incidents.{
  CreateIncident, create_incident, incident_by_id, is_incident, new_incident,
}
use ecotrack_api.Incidents.Actions.{
  advance_row, duplicate_write, move_stage, reject, reject_write, update_incident_stage,
  version_guard,
}
use ecotrack_api.Incidents.Effects.{
  claim_write_effect, duplicate_write_effect, move_stage_effect, reject_checked,
  reject_write_effect, report_effect, update_stage_effect,
}
use ecotrack_api.Incidents.Lifecycle.{IncidentsOk, IsSound, Kept, Later, Later-refl}
use ecotrack_api.Incidents.Pool.{claim_row, claim_write, is_pooled}

claim-Later :
    (now organisation_id user_id : ℕ) (stage : Option ℕ) (i : IncidentRow)
    → is_none i.organisation_id ≡ true
    → IsSound i
    → Later i (claim_row now organisation_id user_id stage i)
claim-Later now organisation_id user_id stage i h s = ground arith

claim-IsSound :
    (now organisation_id user_id : ℕ) (stage : Option ℕ) (i : IncidentRow)
    → is_none i.organisation_id ≡ true
    → IsSound i
    → IsSound (claim_row now organisation_id user_id stage i)
claim-IsSound now organisation_id user_id stage i h s = ground arith

below_mono :
    (n m : ℕ) (xs : List IncidentRow)
    → n ≤ m
    → All (λ (i : IncidentRow). i.id < n) xs
    → All (λ (i : IncidentRow). i.id < m) xs
below_mono n m xs h k = All-map _ _ (λ i b. omega arith) xs k

-- An update of one found incident that keeps its identifier.
pub changed-Kept :
    (db db' : Db) (id : ℕ) (p : IncidentRow → Bool) (f : IncidentRow → IncidentRow)
    (i : IncidentRow)
    → IncidentsOk db
    → incident_by_id id db ≡ some i
    → db'.incidents ≡ update_where p f db.incidents
    → db.next_id ≤ db'.next_id
    → ((y : IncidentRow) → p y ≡ true → y.id ≡ id)
    → ((y : IncidentRow) → (f y).id ≡ y.id)
    → Later i (f i)
    → IsSound (f i)
    → Kept db db'
changed-Kept db db' id p f i s e t n only same l snd = record {
  table = record {
    unique = rw t (UniqueBy-update_where (λ i. i.id) p f db.incidents same s.unique);
    fresh = rw t (
        All-update_where (λ (i : IncidentRow). i.id < db'.next_id) p f db.incidents
          (λ a _ b. rw (same a) b) (below_mono _ _ db.incidents n s.fresh));
    sound =
        rw t
          (All-update_found (λ i. i.id) IsSound id p f db.incidents i s.unique e only snd s.sound);
  };
  later =
      rw t
        (Evolves-update_found (λ i. i.id) Later id p f db.incidents i Later-refl s.unique e only l);
}

IsSound-find :
    (db : Db) (p : IncidentRow → Bool) {i : IncidentRow}
    → IncidentsOk db
    → find p db.incidents ≡ some i
    → IsSound i
IsSound-find db p s e = (All-find IsSound p db.incidents s.sound e).0

pub same_id_of : (id : ℕ) (y : IncidentRow) → is_incident id y ≡ true → y.id ≡ id
same_id_of id y h = (==_iff y.id id).0 h

pub reported-Kept :
    (user_id : ℕ) (d : CreateIncident) (db db' : Db) (r : IncidentRow)
    → IncidentsOk db
    → create_incident user_id d db ≡ ok (r, db')
    → Kept db db'
reported-Kept user_id d db db' r s h =
    let (t, n) = report_effect user_id d db db' r h in
    let row = new_incident db.clock db.next_id user_id d in
    record {
      table = record {
        unique = rw t (
            UniqueBy-snoc (λ (i : IncidentRow). i.id) db.incidents row s.unique
              (All-map (λ (i : IncidentRow). i.id < db.next_id) _ (λ i lt e. omega arith)
                db.incidents s.fresh));
        fresh = rw t (
            All-append (λ (i : IncidentRow). i.id < db'.next_id) db.incidents (row ∷ [])
              (below_mono _ _ db.incidents (omega arith) s.fresh) (n, tt));
        sound = rw t (All-append IsSound db.incidents (row ∷ []) s.sound (ground arith, tt));
      };
      later = rw t (Evolves-append Later Later-refl db.incidents (row ∷ []));
    }

pooled_free : (id : ℕ) (i : IncidentRow) → is_pooled id i ≡ true → is_none i.organisation_id ≡ true
pooled_free id i h = ground arith

pub claimed-Kept :
    (incident_id organisation_id user_id : ℕ) (stage : Option ℕ) (db db' : Db) (r : IncidentRow)
    → IncidentsOk db
    → claim_write incident_id organisation_id user_id stage db ≡ ok (r, db')
    → Kept db db'
claimed-Kept incident_id organisation_id user_id stage db db' r s h =
    let (i, e, t, n, _) = claim_write_effect incident_id organisation_id user_id stage db db' r h in
    let only : (y : IncidentRow) → is_pooled incident_id y ≡ true → y.id ≡ incident_id =
      λ y p. ground arith in
    let free : is_none i.organisation_id ≡ true =
      pooled_free incident_id i (find_holds (is_pooled incident_id) db.incidents e) in
    let snd = IsSound-find db (is_pooled incident_id) s e in
    changed-Kept db db' incident_id (is_pooled incident_id) _ i s
      (find-UniqueBy (λ (y : IncidentRow). y.id) incident_id (is_pooled incident_id) db.incidents
        s.unique only e)
      t n only (λ y. refl) (claim-Later db.clock organisation_id user_id stage i free snd)
      (claim-IsSound db.clock organisation_id user_id stage i free snd)

pub rejected-Kept :
    (organisation_id incident_id user_id : ℕ) (reason : String) (seen i : IncidentRow)
    (stage : Option ℕ) (db db' : Db) (r : IncidentRow)
    → IncidentsOk db
    → incident_by_id incident_id db ≡ some i
    → i.organisation_id ≢ none
    → reject_write organisation_id incident_id user_id reason seen stage db ≡ ok (r, db')
    → Kept db db'
rejected-Kept organisation_id incident_id user_id reason seen i stage db db' r s e own h =
    let (j, c, _) =
      reject_write_effect organisation_id incident_id user_id reason seen stage db db' r h in
    let snd = IsSound-find db (is_incident incident_id) s e in
    changed-Kept db db' incident_id (is_incident incident_id) _ i s e c.table c.ids
      (same_id_of incident_id) (λ y. refl) (ground arith) (ground arith)

-- A `reject` that runs alone.
pub reject-Kept :
    (organisation_id incident_id user_id : ℕ) (reason : String) (db db' : Db) (r : IncidentRow)
    → IncidentsOk db
    → reject organisation_id incident_id user_id reason db ≡ ok (r, db')
    → Kept db db'
reject-Kept organisation_id incident_id user_id reason db db' r s h =
    let (i, stage, e, own, _, write) =
      reject_checked organisation_id incident_id user_id reason db db' r h in
    rejected-Kept organisation_id incident_id user_id reason i i stage db db' r s e (ground arith)
      write

pub duplicated-Kept :
    (organisation_id incident_id user_id original_id : ℕ) (i : IncidentRow) (db db' : Db)
    (r : IncidentRow)
    → IncidentsOk db
    → incident_by_id incident_id db ≡ some i
    → i.organisation_id ≢ none
    → duplicate_write organisation_id incident_id user_id original_id db ≡ ok (r, db')
    → Kept db db'
duplicated-Kept organisation_id incident_id user_id original_id i db db' r s e own h =
    let (j, c, _) =
      duplicate_write_effect organisation_id incident_id user_id original_id db db' r h in
    let snd = IsSound-find db (is_incident incident_id) s e in
    changed-Kept db db' incident_id (is_incident incident_id) _ i s e c.table c.ids
      (same_id_of incident_id) (λ y. refl) (ground arith) (ground arith)

-- The advance of a claimed incident, under any condition that names its identifier.
pub advance-Kept :
    (now target : ℕ) (db db' : Db) (p : IncidentRow → Bool) (i : IncidentRow) (id : ℕ)
    → IncidentsOk db
    → incident_by_id id db ≡ some i
    → i.organisation_id ≢ none
    → ((y : IncidentRow) → p y ≡ true → y.id ≡ id)
    → db'.incidents ≡ update_where p (advance_row now target) db.incidents
    → db.next_id ≤ db'.next_id
    → Kept db db'
advance-Kept now target db db' p i id s e own only t n =
    let snd = IsSound-find db (is_incident id) s e in
    changed-Kept db db' id p (advance_row now target) i s e t n only (λ y. refl) (ground arith)
      (ground arith)

pub guard_id :
    (id : ℕ) (expected : Option ℕ) (y : IncidentRow)
    → version_guard id expected y ≡ true
    → y.id ≡ id
guard_id id none y h = ground arith
guard_id id (some v) y h = ground arith

pub same-Kept :
    (db db' : Db)
    → IncidentsOk db
    → db'.incidents ≡ db.incidents
    → db.next_id ≤ db'.next_id
    → Kept db db'
same-Kept db db' s t n = record {
  table = record {
    unique = rw t s.unique;
    fresh = rw t (below_mono _ _ db.incidents n s.fresh);
    sound = rw t s.sound;
  };
  later = rw t (Evolves-refl Later Later-refl db.incidents);
}

pub moved-Kept :
    (organisation_id target : ℕ) (expected : Option ℕ) (user_id : ℕ) (seen i : IncidentRow)
    (db db' : Db) (r : IncidentRow)
    → IncidentsOk db
    → incident_by_id seen.id db ≡ some i
    → i.organisation_id ≢ none
    → move_stage organisation_id seen target expected user_id db ≡ ok (r, db')
    → Kept db db'
moved-Kept organisation_id target expected user_id seen i db db' r s e own h =
    let (_, _, t, n, _) =
      move_stage_effect organisation_id seen target expected user_id db db' r h in
    advance-Kept db.clock target db db' (version_guard seen.id expected) i seen.id s e own
      (λ y g. guard_id seen.id expected y g) t n

-- `updateStage` writes by `move_stage`, or not at all.
pub update_stage-Kept :
    (organisation_id incident_id stage : ℕ) (expected : Option ℕ) (user_id : ℕ) (db db' : Db)
    (r : IncidentRow)
    → IncidentsOk db
    → update_incident_stage organisation_id incident_id stage expected user_id db ≡ ok (r, db')
    → Kept db db'
update_stage-Kept organisation_id incident_id stage expected user_id db db' r s h =
    let (i, target, e, own, _, cases) =
      update_stage_effect organisation_id incident_id stage expected user_id db db' r h in
    elim cases [
      | inl idle ↦
          same-Kept db db' s (ap (λ (d : Db). d.incidents) idle.2) (rw idle.2 (omega arith))
      | inr move ↦
          let at : i.id ≡ incident_id =
            same_id_of incident_id i (find_holds (is_incident incident_id) db.incidents e) in
          moved-Kept organisation_id target.id expected user_id i i db db' r s (rw at e)
            (ground arith) move.1
    ]
