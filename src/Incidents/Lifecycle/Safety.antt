-- ===== src/Incidents/Lifecycle/Safety.antt =====
-- Any sequence of writes keeps the incidents table sound and takes no incident back.
use ecotrack_api.Common.{Evolves-find, Evolves-trans, arith, refl, some, ℕ, ◌≡◌}
use ecotrack_api.Db.{Db, IncidentRow}
use ecotrack_api.Incidents.{incident_by_id, is_incident}
use ecotrack_api.Incidents.Effects.{advance_effect}
use ecotrack_api.Incidents.Lifecycle.{IncidentsOk, Kept, Later, Later-trans, Reach, Step}
use ecotrack_api.Incidents.Lifecycle.Erased.{erased-Kept}
use ecotrack_api.Incidents.Lifecycle.Writes.{
  advance-Kept, claimed-Kept, duplicated-Kept, moved-Kept, rejected-Kept, reported-Kept, same-Kept,
  same_id_of,
}

-- Every successful write on a sound incidents table keeps it sound and takes no incident back: its
-- organisation and the instant of its claim stay once set, a rejected or duplicate verdict is never
-- lifted, its reporter stays or is cleared, and its version does not fall.
Step-Kept : {db db' : Db} → IncidentsOk db → Step db db' → Kept db db'
Step-Kept {db} {db'} s (Step.reported u d r h) = reported-Kept u d db db' r s h
Step-Kept {db} {db'} s (Step.claimed i o u stage r h) = claimed-Kept i o u stage db db' r s h
Step-Kept {db} {db'} s (Step.rejected o id u reason seen i stage r e own h) =
    rejected-Kept o id u reason seen i stage db db' r s e own h
Step-Kept {db} {db'} s (Step.duplicated o id u orig i r e own h) =
    duplicated-Kept o id u orig i db db' r s e own h
Step-Kept {db} {db'} s (Step.moved o target v u seen i r e own h) =
    moved-Kept o target v u seen i db db' r s e own h
Step-Kept {db} {db'} s (Step.advanced o id target u trigger i e own h) =
    let (t, n) = advance_effect o id target u trigger db db' h in
    advance-Kept db.clock target db db' (is_incident id) i id s e own (same_id_of id) t n
Step-Kept {db} {db'} s (Step.erased user_id h) = erased-Kept user_id db db' s h
Step-Kept {db} {db'} s (Step.elsewhere t n) = same-Kept db db' s t n

-- The same over any number of writes, in any order and by any requests, whose checks may have been
-- made on earlier states.
pub Reach-Kept : {db db' : Db} → IncidentsOk db → Reach db db' → Kept db db'
Reach-Kept {db} s Reach.here = same-Kept db db s refl (omega arith)
Reach-Kept {db} {db'} s (Reach.next {db₁} r st) =
    let k = Reach-Kept s r in
    let k' = Step-Kept k.table st in
    record {
      table = k'.table;
      later =
          Evolves-trans Later Later-trans db.incidents db₁.incidents db'.incidents k.later k'.later;
    }

-- An incident that a request has read is still there after any writes, and later: one that it has
-- seen claimed is so still, by the same organisation.
pub found_afterwards :
    {db db' : Db} (id : ℕ) (i : IncidentRow)
    → IncidentsOk db
    → Reach db db'
    → incident_by_id id db ≡ some i
    → (j : IncidentRow) × (incident_by_id id db' ≡ some j) × Later i j
found_afterwards {db} {db'} id i s reach found =
    Evolves-find Later (λ (y : IncidentRow). y.id) id (λ x y q. q.same_id) db.incidents
      db'.incidents {a = i} (Reach-Kept s reach).later found
