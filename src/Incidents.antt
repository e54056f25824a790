-- ===== src/Incidents.antt =====
-- IncidentsService, src/modules/incidents/incidents.service.ts: reports and their lookup. The
-- children hold the claim from the pool and what an organisation does with a claimed incident. The
-- images that `findMyReports` adds, with URLs signed by MediaService, are left out.
pub mod Pool
pub mod Actions
pub mod Advance
pub mod Effects
pub mod Frames
pub mod Listing
pub mod Lifecycle
use ecotrack_api.Common.{
  Bool, List, Option, String, [], find, get_or, is_value, length, none, not, select, some,
  sort_desc_by, suc, ℕ, ◌++◌, ◌+◌, ◌==◌, ◌∷◌,
}
use ecotrack_api.Db.{
  Db, DispatchKind, DispatchRow, GeographyPoint, HttpException, IncidentCategory, IncidentImageRow,
  IncidentRow, IncidentSeverity, MetaValue, Request, bad_request, execute, fresh_id, not_found,
  or_throw, pure, query, throw_if, ◌>>=◌, ◌>>◌,
}
use ecotrack_api.Platform.Audit.{AuditEntry, Paginated, paginate, record_audit}

abbrev pub incident_not_found : HttpException
incident_not_found = not_found "Incident not found"

abbrev pub is_incident : ℕ → IncidentRow → Bool
is_incident id i = i.id == id

abbrev pub incident_by_id : ℕ → Db → Option IncidentRow
incident_by_id id db = find (is_incident id) db.incidents

abbrev pub find_incident : ℕ → Request IncidentRow
find_incident id = do found ← query (incident_by_id id); or_throw found incident_not_found

-- `findScoped`: only an incident that this organisation has claimed.
abbrev pub find_scoped_incident : ℕ → ℕ → Request IncidentRow
find_scoped_incident organisation_id incident_id = do
  incident ← find_incident incident_id
  throw_if (not (is_value incident.organisation_id organisation_id)) incident_not_found
  pure incident

-- CreateIncidentDto
pub record CreateIncident : Type 0 where
  pub title : String
  pub description : Option String
  pub category : Option IncidentCategory
  pub urgency : IncidentSeverity
  pub location : GeographyPoint
  pub address : Option String
  pub media_urls : List String

abbrev pub new_incident : ℕ → ℕ → ℕ → CreateIncident → IncidentRow
new_incident now id reported_by_user_id d = record {
  id = id;
  organisation_id = none;
  reported_by_user_id = some reported_by_user_id;
  title = d.title;
  description = get_or d.description "";
  category = get_or d.category IncidentCategory.other;
  severity = d.urgency;
  location = d.location;
  address = d.address;
  verification_status = none;
  current_stage_id = none;
  rejection_reason = none;
  duplicate_of_id = none;
  claimed_by_user_id = none;
  claimed_at = none;
  version = 0;
  created_at = now;
  updated_at = now;
}

-- `insert(incidentImages).values(urls.map(…))`
unfoldable pub images_from : ℕ → ℕ → List String → List IncidentImageRow
images_from id incident_id [] = []
images_from id incident_id (url ∷ urls) =
    record { id = id; incident_id = incident_id; url = url } ∷ images_from (suc id) incident_id urls

abbrev pub proximity_dispatch : ℕ → ℕ → ℕ → DispatchRow
proximity_dispatch now id incident_id = record {
  id = id;
  kind = DispatchKind.incident_proximity;
  entity_type = "incident";
  entity_id = incident_id;
  due_at = now;
  dispatched_at = none;
  attempts = 0;
  updated_at = now;
}

abbrev pub incident_entry :
    Option ℕ → ℕ → String → ℕ → Option (List (String × MetaValue)) → AuditEntry
incident_entry organisation_id acting_user_id action entity_id metadata = record {
  organisation_id = organisation_id;
  acting_user_id = some acting_user_id;
  action = action;
  entity_type = "incident";
  entity_id = some entity_id;
  metadata = metadata;
}

-- `create`: a new report enters the pool and is queued for the proximity alert.
unfoldable pub create_incident : ℕ → CreateIncident → Request IncidentRow
create_incident reported_by_user_id d = do
  throw_if (length d.media_urls == 0) (bad_request "At least one photograph is required")
  now ← query λ db. db.clock
  id ← fresh_id
  execute
      λ db. record db { incidents = db.incidents ++ new_incident now id reported_by_user_id d ∷ [] }
  execute λ db. record db {
    next_id = db.next_id + length d.media_urls;
    incident_images = db.incident_images ++ images_from db.next_id id d.media_urls;
  }
  record_audit (incident_entry none reported_by_user_id "incident.reported" id none)
  dispatch_id ← fresh_id
  execute λ db. record db {
    notification_dispatches =
        db.notification_dispatches ++ proximity_dispatch now dispatch_id id ∷ [];
  }
  find_incident id

abbrev pub find_my_reports : ℕ → ℕ → ℕ → Request (Paginated IncidentRow)
find_my_reports reported_by_user_id page limit = query λ db.
    paginate
      (sort_desc_by (λ (i : IncidentRow). i.created_at)
        (select (λ (i : IncidentRow). is_value i.reported_by_user_id reported_by_user_id)
          db.incidents))
      page limit
