-- ===== src/Dashboard/Totals.antt =====
-- How the figures of src/modules/dashboard/dashboard.service.ts hang together.
use ecotrack_api.Common.{
  All-map, Bool, Bool-cases, List, Option-cases, UniqueBy, [], any-refuted, arith, count_where,
  count_zero_of_any, if◌then◌else◌, inl, inr, length, map, refl, select, ℕ, ◌&&◌, ◌+◌, ◌==◌, ◌∙◌,
  ◌∷◌, ◌≡◌, ◌≢◌, ◌≤◌,
}
use ecotrack_api.Dashboard.{
  MapEntry, OrgStats, categories, category_breakdown, claimed_since, count_resolved,
  get_incident_map, get_org_stats, in_category, is_final_stage_of, map_entry, owned_by,
  same_category,
}
use ecotrack_api.Db.{Db, GeographyPoint, IncidentCategory, IncidentRow, WorkflowStageRow, ok}

-- The sum of a breakdown's counts.
unfoldable pub total_of : List (IncidentCategory × ℕ) → ℕ
total_of [] = 0
total_of ((c, n) ∷ rest) = n + total_of rest

-- The number of groups of a category.
unfoldable pub groups_of : IncidentCategory → List (IncidentCategory × ℕ) → ℕ
groups_of category [] = 0
groups_of category ((c, n) ∷ rest) =
    (if same_category c category then 1 else 0) + groups_of category rest

-- The sum over all categories, groups without a row among them.
unfoldable sum_of : ℕ → List IncidentRow → List IncidentCategory → ℕ
sum_of organisation_id rows [] = 0
sum_of organisation_id rows (c ∷ cs) =
    count_where (in_category organisation_id c) rows + sum_of organisation_id rows cs

-- A group that is left out counts nothing.
total_of-category_breakdown :
    (organisation_id : ℕ) (rows : List IncidentRow) (cs : List IncidentCategory)
    → total_of (category_breakdown organisation_id rows cs) ≡ sum_of organisation_id rows cs
unfolding total_of category_breakdown sum_of
total_of-category_breakdown organisation_id rows [] = refl
total_of-category_breakdown organisation_id rows (c ∷ cs) =
    let rest = total_of-category_breakdown organisation_id rows cs in
    elim (Bool-cases (count_where (in_category organisation_id c) rows == 0)) [
      | inl empty ↦ rw empty (ground (arith, rest))
      | inr full ↦ rw full (ground (arith, rest))
    ]

groups_of-category_breakdown :
    (organisation_id : ℕ) (category : IncidentCategory) (rows : List IncidentRow)
    (cs : List IncidentCategory)
    → groups_of category (category_breakdown organisation_id rows cs)
      ≤ count_where (λ c. same_category c category) cs
unfolding groups_of category_breakdown count_where
groups_of-category_breakdown organisation_id category rows [] = omega arith
groups_of-category_breakdown organisation_id category rows (c ∷ cs) =
    let rest = groups_of-category_breakdown organisation_id category rows cs in
    elim (Bool-cases (count_where (in_category organisation_id c) rows == 0)) [
      | inl empty ↦ rw empty (omega (arith, rest))
      | inr full ↦ rw full (omega (arith, rest))
    ]

listed_once : (c : IncidentCategory) → count_where (λ d. same_category d c) categories ≡ 1
unfolding count_where same_category
listed_once IncidentCategory.illegal_dumping = refl
listed_once IncidentCategory.water_pollution = refl
listed_once IncidentCategory.air_pollution = refl
listed_once IncidentCategory.deforestation = refl
listed_once IncidentCategory.wildlife_hazard = refl
listed_once IncidentCategory.other = refl

in_one : (c : IncidentCategory) → count_where (same_category c) categories ≡ 1
unfolding count_where same_category
in_one IncidentCategory.illegal_dumping = refl
in_one IncidentCategory.water_pollution = refl
in_one IncidentCategory.air_pollution = refl
in_one IncidentCategory.deforestation = refl
in_one IncidentCategory.wildlife_hazard = refl
in_one IncidentCategory.other = refl

sum_of-next :
    (organisation_id : ℕ) (i : IncidentRow) (is : List IncidentRow) (cs : List IncidentCategory)
    → sum_of organisation_id (i ∷ is) cs
      ≡ (if owned_by organisation_id i then count_where (same_category i.category) cs else 0)
        + sum_of organisation_id is cs
unfolding sum_of count_where
sum_of-next organisation_id i is [] = ground arith
sum_of-next organisation_id i is (c ∷ cs) =
    let rest = sum_of-next organisation_id i is cs in
    elim (Bool-cases (owned_by organisation_id i)) [
      | inl own ↦ ground arith
      | inr foreign ↦ ground arith
    ]

sum_of-none : (organisation_id : ℕ) (cs : List IncidentCategory) → sum_of organisation_id [] cs ≡ 0
unfolding sum_of count_where
sum_of-none organisation_id [] = refl
sum_of-none organisation_id (c ∷ cs) = omega (arith, sum_of-none organisation_id cs)

-- Every incident is in exactly one category.
sum_of-categories :
    (organisation_id : ℕ) (rows : List IncidentRow)
    → sum_of organisation_id rows categories ≡ count_where (owned_by organisation_id) rows
unfolding count_where
sum_of-categories organisation_id [] = sum_of-none organisation_id categories
sum_of-categories organisation_id (i ∷ is) =
    let rest = sum_of-categories organisation_id is in
    let next' = sum_of-next organisation_id i is categories in
    let one = in_one i.category in rw (next', one, rest) refl

-- A stage identifier is that of one stage at most.
count_final_le :
    (i : IncidentRow) (stages : List WorkflowStageRow)
    → UniqueBy (λ (s : WorkflowStageRow). s.id) stages
    → count_where (is_final_stage_of i) stages ≤ 1
unfolding count_where
count_final_le i [] u = omega arith
count_final_le i (s ∷ ss) u = elim (Bool-cases (is_final_stage_of i s)) [
  | inl hit ↦
      let rest : count_where (is_final_stage_of i) ss ≡ 0 =
        count_zero_of_any (is_final_stage_of i) ss (
          any-refuted (is_final_stage_of i) ss (
            All-map (λ (y : WorkflowStageRow). y.id ≢ s.id) _
              (λ y apart too. elim (Option-cases i.current_stage_id) [
                | inl unset ↦ absurd (ground arith)
                | inr (current, set') ↦ absurd (apart (ground arith))
              ])
              ss u.0)) in
      ground arith
  | inr miss ↦ let rest = count_final_le i ss u.1 in ground arith
]

count_resolved_le :
    (organisation_id : ℕ) (stages : List WorkflowStageRow) (rows : List IncidentRow)
    → UniqueBy (λ (s : WorkflowStageRow). s.id) stages
    → count_resolved organisation_id stages rows ≤ count_where (owned_by organisation_id) rows
unfolding count_resolved count_where
count_resolved_le organisation_id stages [] u = omega arith
count_resolved_le organisation_id stages (i ∷ is) u =
    let rest = count_resolved_le organisation_id stages is u in
    let one = count_final_le i stages u in ground arith

claimed_le :
    (start organisation_id : ℕ) (rows : List IncidentRow)
    → count_where (λ (i : IncidentRow). owned_by organisation_id i && claimed_since start i) rows
      ≤ count_where (owned_by organisation_id) rows
unfolding count_where
claimed_le start organisation_id [] = omega arith
claimed_le start organisation_id (i ∷ is) = ground (arith, claimed_le start organisation_id is)

length-entries :
    (organisation_id : ℕ) (rows : List IncidentRow)
    → length (map map_entry (select (owned_by organisation_id) rows))
      ≡ count_where (owned_by organisation_id) rows
unfolding count_where select
length-entries organisation_id [] = refl
length-entries organisation_id (i ∷ is) =
    let rest = length-entries organisation_id is in
    elim (Bool-cases (owned_by organisation_id i)) [
      | inl own ↦ rw own (ground (arith, rest))
      | inr foreign ↦ rw foreign (omega (arith, rest))
    ]

-- The figures of a dashboard hang together: the groups of the breakdown by category are one at most
-- for each category and add up to the number of the organisation's incidents, which is not below that
-- of those claimed this month, nor, where stage identifiers are unique, that of those resolved; and
-- the incident map has as many entries.
pub get_org_stats-adds_up :
    (st_dwithin within_box : GeographyPoint → GeographyPoint → ℕ → Bool)
    (start_of_month organisation_id : ℕ) (db : Db)
    → UniqueBy (λ (s : WorkflowStageRow). s.id) db.workflow_stages
    → (stats : OrgStats) × (entries : List MapEntry) × (get_org_stats st_dwithin within_box
          start_of_month organisation_id db
        ≡ ok (stats, db))
      × (get_incident_map organisation_id db ≡ ok (entries, db))
      × (total_of stats.incidents_by_category ≡ stats.total_incidents)
      × ((c : IncidentCategory) → groups_of c stats.incidents_by_category ≤ 1)
      × (stats.claimed_this_month ≤ stats.total_incidents)
      × (stats.resolved_incidents ≤ stats.total_incidents)
      × (length entries ≡ stats.total_incidents)
unfolding get_org_stats get_incident_map
get_org_stats-adds_up st_dwithin within_box start_of_month organisation_id db unique = (
  _,
  _,
  refl,
  refl,
  total_of-category_breakdown organisation_id db.incidents categories
      ∙ sum_of-categories organisation_id db.incidents,
  (λ c.
      let le = groups_of-category_breakdown organisation_id c db.incidents categories in
      let one = listed_once c in omega arith),
  claimed_le start_of_month organisation_id db.incidents,
  count_resolved_le organisation_id db.workflow_stages db.incidents unique,
  length-entries organisation_id db.incidents,
)
