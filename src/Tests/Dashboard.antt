-- ===== src/Tests/Dashboard.antt =====
-- The dashboard of the small database's organisation, which has claimed two incidents.
use ecotrack_api.Common.{Bool, List, [], count_where, find, length, refl, true, ℕ, ◌∷◌, ◌≡◌, ◌≤◌}
use ecotrack_api.Dashboard.{
  MapEntry, OrgStats, category_breakdown, count_resolved, get_incident_map, get_org_stats,
  same_category,
}
use ecotrack_api.Dashboard.Totals.{get_org_stats-adds_up, groups_of, total_of}
use ecotrack_api.Db.{GeographyPoint, IncidentCategory, ok}
use ecotrack_api.Tests.Fixtures.{base, pooled_incident}
use ecotrack_api.Tests.Stages.{base-unique_stages}

abbrev anywhere : GeographyPoint → GeographyPoint → ℕ → Bool
anywhere a b meters = true

abbrev expected : OrgStats
expected = record {
  total_incidents = 2;
  claimed_this_month = 2;
  awaiting_claim_in_service_area = 1;
  resolved_incidents = 0;
  active_volunteers = 2;
  completed_cleanup_tasks = 0;
  incidents_by_category = (pooled_incident.category, 2) ∷ [];
}

stats_of_base : get_org_stats anywhere anywhere 0 1 base ≡ ok (expected, base)
unfolding get_org_stats count_where count_resolved category_breakdown same_category find
stats_of_base = refl

get_org_stats-adds_up_example :
    (stats : OrgStats) × (entries : List MapEntry) × (get_org_stats anywhere anywhere 0 1 base
      ≡ ok (stats, base))
    × (get_incident_map 1 base ≡ ok (entries, base))
    × (total_of stats.incidents_by_category ≡ stats.total_incidents)
    × ((c : IncidentCategory) → groups_of c stats.incidents_by_category ≤ 1)
    × (stats.claimed_this_month ≤ stats.total_incidents)
    × (stats.resolved_incidents ≤ stats.total_incidents)
    × (length entries ≡ stats.total_incidents)
get_org_stats-adds_up_example = get_org_stats-adds_up anywhere anywhere 0 1 base base-unique_stages
