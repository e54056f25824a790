-- ===== src/Incidents/Listing.antt =====
-- What a page of `listForOrg`, src/modules/incidents/incidents.service.ts, shows.
use ecotrack_api.Common.{
  All, All-map, All-selected, All-sort_desc_by, Bool, Bool-cases, List, Option, [], any, arith,
  drop, inl, inr, is_value, length, select, some, sort_desc_by, suc, take, true, zero, ℕ, ◌&&◌, ◌*◌,
  ◌-◌, ◌==◌, ◌∷◌, ◌≡◌, ◌≤◌,
}
use ecotrack_api.Db.{Db, IncidentRow, VerificationStatus, ok}
use ecotrack_api.Incidents.Actions.{has_status, is_verified, list_eligible, list_page, sits_on}
use ecotrack_api.Platform.Audit.{Paginated, paginate}
use ecotrack_api.Workflow.Rules.{CreationTrigger, list_eligible_stage_ids}

module _ (P : IncidentRow → Type 0) where
  All-take : (n : ℕ) (xs : List IncidentRow) → All P xs → All P (take n xs)
  All-take zero xs h = tt
  All-take (suc n) [] h = tt
  All-take (suc n) (x ∷ xs) h = (h.0, All-take n xs h.1)

  All-drop : (n : ℕ) (xs : List IncidentRow) → All P xs → All P (drop n xs)
  All-drop zero xs h = h
  All-drop (suc n) [] h = tt
  All-drop (suc n) (x ∷ xs) h = All-drop n xs h.1

length-take : (n : ℕ) (xs : List IncidentRow) → length (take n xs) ≤ n
length-take zero xs = omega arith
length-take (suc n) [] = omega arith
length-take (suc n) (x ∷ xs) = omega (arith, length-take n xs)

-- Everything that a page of selected incidents shows meets the condition.
list_page_shows :
    (organisation_id page limit : ℕ) (test : IncidentRow → Bool) (db db' : Db)
    (p : Paginated IncidentRow)
    → list_page organisation_id page limit test db ≡ ok (p, db')
    → (length p.items ≤ limit)
      × All
          (λ (i : IncidentRow). (is_value i.organisation_id organisation_id && test i) ≡ true)
          p.items
unfolding paginate
list_page_shows organisation_id page limit test db db' p h =
    let rows =
      sort_desc_by (λ (i : IncidentRow). i.created_at)
        (select (λ i. is_value i.organisation_id organisation_id && test i) db.incidents) in
    let e : p.items ≡ take limit (drop ((page - 1) * limit) rows) = ground arith in
    rw e (
      length-take limit _,
      All-take _ limit _ (
          All-drop _ ((page - 1) * limit) rows (
            All-sort_desc_by (λ (i : IncidentRow). i.created_at) _ _
              (All-selected (λ i. is_value i.organisation_id organisation_id && test i)
                db.incidents))),
    )

-- A page of incidents that a trigger may use holds at most `limit` incidents, all of the
-- organisation and approved, and each on a stage that listEligibleStageIds returns.
pub list_eligible-shows :
    (organisation_id page limit : ℕ) (status : Option VerificationStatus)
    (trigger : CreationTrigger) (ids : List ℕ) (db db₁ db' : Db) (p : Paginated IncidentRow)
    → list_eligible_stage_ids organisation_id trigger db ≡ ok (ids, db₁)
    → list_eligible organisation_id page limit status (some trigger) db ≡ ok (p, db')
    → (length p.items ≤ limit)
      × All
          (λ (i : IncidentRow).
            (is_value i.organisation_id organisation_id ≡ true)
            × (is_verified i.verification_status ≡ true)
            × (any (is_value i.current_stage_id) ids ≡ true))
          p.items
list_eligible-shows organisation_id page limit status trigger ids db db₁ db' p g h =
    elim (Bool-cases (length ids == 0)) [
      | inl empty ↦ let e : p.items ≡ [] = ground arith in rw e (omega arith, tt)
      | inr full ↦
          let k : list_page organisation_id page limit (λ i. has_status status i && sits_on ids i)
                db₁
              ≡ ok (p, db') =
            ground arith in
          let (l, a) =
            list_page_shows organisation_id page limit (λ i. has_status status i && sits_on ids i)
              db₁ db' p k in
          (l, All-map _ _ (λ i y. (ground arith, ground arith, ground arith)) p.items a)
    ]
