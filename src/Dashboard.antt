-- ===== src/Dashboard.antt =====
-- src/modules/dashboard/dashboard.service.ts: the figures of an organisation's dashboard. The start of
-- the month is an argument (it hangs on the server's calendar); `st_dwithin` is PostGIS's, and
-- `within_box` the index filter of src/database/spatial.ts, which is in floating point.
pub mod Totals
use ecotrack_api.Common.{
  Bool, List, Option, String, [], count_where, false, find, if◌then◌else◌, is_none, is_value, leb,
  map, none, select, some, true, ℕ, ◌&&◌, ◌*◌, ◌+◌, ◌==◌, ◌∷◌,
}
use ecotrack_api.Db.{
  GeographyPoint, IncidentCategory, IncidentRow, IncidentSeverity, OrganisationRow, Request,
  TaskRow, UserRow, VerificationStatus, WorkflowStageRow, is_completed, is_volunteer, pure, query,
  ◌>>=◌, ◌>>◌,
}

abbrev pub owned_by : ℕ → IncidentRow → Bool
owned_by organisation_id i = is_value i.organisation_id organisation_id

-- `claimed_at >= startOfMonth`, not true where it is null.
abbrev pub claimed_since : ℕ → IncidentRow → Bool
claimed_since start i = elim i.claimed_at [ none ↦ false | some at ↦ leb start at ]

abbrev pub is_final_stage_of : IncidentRow → WorkflowStageRow → Bool
is_final_stage_of i s = is_value i.current_stage_id s.id && s.is_final

-- The rows of the inner join with the stages, for the organisation's incidents.
unfoldable pub count_resolved : ℕ → List WorkflowStageRow → List IncidentRow → ℕ
count_resolved organisation_id stages [] = 0
count_resolved organisation_id stages (i ∷ is) =
    (if owned_by organisation_id i then count_where (is_final_stage_of i) stages else 0)
    + count_resolved organisation_id stages is

abbrev pub is_active_volunteer : ℕ → UserRow → Bool
is_active_volunteer organisation_id u =
    is_value u.organisation_id organisation_id && is_volunteer u.role && u.is_active

abbrev pub is_completed_task : ℕ → TaskRow → Bool
is_completed_task organisation_id t = t.organisation_id == organisation_id && is_completed t.status

unfoldable pub same_category : IncidentCategory → IncidentCategory → Bool
same_category IncidentCategory.illegal_dumping IncidentCategory.illegal_dumping = true
same_category IncidentCategory.water_pollution IncidentCategory.water_pollution = true
same_category IncidentCategory.air_pollution IncidentCategory.air_pollution = true
same_category IncidentCategory.deforestation IncidentCategory.deforestation = true
same_category IncidentCategory.wildlife_hazard IncidentCategory.wildlife_hazard = true
same_category IncidentCategory.other IncidentCategory.other = true
same_category _ _ = false

abbrev pub categories : List IncidentCategory
categories =
    IncidentCategory.illegal_dumping ∷ IncidentCategory.water_pollution
    ∷ IncidentCategory.air_pollution ∷ IncidentCategory.deforestation
    ∷ IncidentCategory.wildlife_hazard ∷ IncidentCategory.other ∷ []

abbrev pub in_category : ℕ → IncidentCategory → IncidentRow → Bool
in_category organisation_id category i =
    owned_by organisation_id i && same_category i.category category

-- GROUP BY category, which has no group without a row; the order of the groups is not specified.
unfoldable pub category_breakdown :
    ℕ → List IncidentRow → List IncidentCategory → List (IncidentCategory × ℕ)
category_breakdown organisation_id rows [] = []
category_breakdown organisation_id rows (c ∷ cs) =
    let n = count_where (in_category organisation_id c) rows in
    let rest = category_breakdown organisation_id rows cs in if n == 0 then rest else (c, n) ∷ rest

pub record OrgStats : Type 0 where
  pub total_incidents : ℕ
  pub claimed_this_month : ℕ
  pub awaiting_claim_in_service_area : ℕ
  pub resolved_incidents : ℕ
  pub active_volunteers : ℕ
  pub completed_cleanup_tasks : ℕ
  pub incidents_by_category : List (IncidentCategory × ℕ)

-- An entry of `getIncidentMap`.
pub record MapEntry : Type 0 where
  pub id : ℕ
  pub title : String
  pub category : IncidentCategory
  pub severity : IncidentSeverity
  pub verification_status : Option VerificationStatus
  pub lat : ℕ
  pub lng : ℕ

abbrev pub map_entry : IncidentRow → MapEntry
map_entry i = record {
  id = i.id;
  title = i.title;
  category = i.category;
  severity = i.severity;
  verification_status = i.verification_status;
  lat = i.location.lat;
  lng = i.location.lng;
}

unfoldable pub get_incident_map : ℕ → Request (List MapEntry)
get_incident_map organisation_id =
    query λ db. map map_entry (select (owned_by organisation_id) db.incidents)

module _ (st_dwithin within_box : GeographyPoint → GeographyPoint → ℕ → Bool) where
  abbrev pub awaits_claim : GeographyPoint → ℕ → IncidentRow → Bool
  awaits_claim center meters i =
      is_none i.organisation_id
      && within_box i.location center meters
      && st_dwithin i.location center meters

  -- No area where the centre is not set, or the radius not set or 0.
  abbrev pub count_awaiting : Option GeographyPoint → Option ℕ → List IncidentRow → ℕ
  count_awaiting none radius rows = 0
  count_awaiting (some center) none rows = 0
  count_awaiting (some center) (some km) rows =
      if km == 0 then 0 else count_where (awaits_claim center (km * 1000)) rows

  abbrev pub awaiting_of : Option OrganisationRow → List IncidentRow → ℕ
  awaiting_of none rows = 0
  awaiting_of (some o) rows = count_awaiting o.service_area_center o.service_area_radius_km rows

  unfoldable pub get_org_stats : ℕ → ℕ → Request OrgStats
  get_org_stats start_of_month organisation_id = do
    total ← query λ db. count_where (owned_by organisation_id) db.incidents
    claimed ← query λ db.
        count_where
          (λ (i : IncidentRow). owned_by organisation_id i && claimed_since start_of_month i)
          db.incidents
    resolved ← query λ db. count_resolved organisation_id db.workflow_stages db.incidents
    volunteers ← query λ db. count_where (is_active_volunteer organisation_id) db.users
    completed ← query λ db. count_where (is_completed_task organisation_id) db.tasks
    breakdown ← query λ db. category_breakdown organisation_id db.incidents categories
    org ← query λ db. find (λ (o : OrganisationRow). o.id == organisation_id) db.organisations
    awaiting ← query λ db. awaiting_of org db.incidents
    pure record {
      total_incidents = total;
      claimed_this_month = claimed;
      awaiting_claim_in_service_area = awaiting;
      resolved_incidents = resolved;
      active_volunteers = volunteers;
      completed_cleanup_tasks = completed;
      incidents_by_category = breakdown;
    }
