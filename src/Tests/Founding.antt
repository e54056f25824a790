-- ===== src/Tests/Founding.antt =====
-- A citizen registers an organisation with a name that is taken.
use ecotrack_api.Common.{
  [], any, codes, count_where, false, find, first_free, insert_by, none, refl, select, some,
  sort_by, true, update_where, ◌++◌, ◌∷◌, ◌≡◌,
}
use ecotrack_api.Db.{Db, OrganisationRow, UserRole, UserRow}
use ecotrack_api.Organisations.Founding.{create_organisation-founds}
use ecotrack_api.Organisations.Names.{
  dash_runs, dashed, drop_dashes, generate_unique_slug, has_org_slug, organisation_slug,
  trim_dashes,
}
use ecotrack_api.Organisations.Registration.{
  ActingUser, RegisterOrganisation, appoint, create_organisation, insert_organisation, nominee,
  organisation_row, register, set_up,
}
use ecotrack_api.Organisations.Setup.{IsFounded}
use ecotrack_api.Tasks.{user_by_id}
use ecotrack_api.Tests.Fixtures.{base, here_point, state_after, user}
use ecotrack_api.Users.{member_row}
use ecotrack_api.Workflow.Positions.{IsContiguous, of_organisation}
use ecotrack_api.Workflow.Rules.{get_rules}
use ecotrack_api.Workflow.Slug.{is_upper, print, same_text, slugify, to_lower}
use ecotrack_api.Workflow.Stages.{free_slug, seed_default_stages, seed_from, stages_of, unique_slug}

abbrev founder : UserRow
founder = record (user 8 UserRole.citizen) { organisation_id = none }

abbrev open_db : Db
open_db = record base { users = founder ∷ [] }

abbrev request : RegisterOrganisation
request = record {
  name = " Green  Creek! ";
  description = none;
  contact_email = "office@example.org";
  initial_admin_email = none;
  center = here_point;
  radius_km = 25;
}

abbrev acting : ActingUser
acting = record { id = 8; email = "someone@example.org"; organisation_id = none }

abbrev founded : OrganisationRow
founded = organisation_row 100 1000 request (codes "green-creek-2")

abbrev after_founding : Db
after_founding = state_after (create_organisation request acting "token") open_db

create_organisation-founds_example :
    (any (has_org_slug founded.slug) open_db.organisations ≡ false)
    × (after_founding.organisations ≡ open_db.organisations ++ founded ∷ [])
    × IsFounded request founded
    × (count_where (of_organisation 1000) after_founding.workflow_stages ≡ 5)
    × IsContiguous 1000 after_founding.workflow_stages
    × (nominee none "someone@example.org" ≡ none
        → (acting.organisation_id ≡ none)
          × ((u : UserRow)
              → user_by_id 8 open_db ≡ some u
              → user_by_id 8 after_founding
                ≡ some (member_row 100 (some 1000) UserRole.org_admin none u)))
unfolding create_organisation register insert_organisation generate_unique_slug first_free
    organisation_slug dash_runs trim_dashes drop_dashes dashed print to_lower is_upper same_text
    set_up seed_default_stages seed_from unique_slug free_slug slugify get_rules appoint stages_of
    find any select sort_by insert_by update_where count_where
create_organisation-founds_example =
    create_organisation-founds request acting "token" open_db after_founding (founded, none, true)
      refl refl
