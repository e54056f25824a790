-- ===== src/Incidents/Actions.antt =====
-- What happens to a claimed incident: `advanceStage`, `reject`, `markDuplicate`, `updateStage` and
-- `listForOrg` of src/modules/incidents/incidents.service.ts.
use ecotrack_api.Common.{
  Bool, List, Option, String, [], any, false, find, if◌then◌else◌, is_none, is_value, length, none,
  not, select, some, some_or, sort_desc_by, true, update_where, ℕ, ◌&&◌, ◌+◌, ◌<>◌, ◌==◌, ◌∷◌,
}
use ecotrack_api.Db.{
  HttpException, IncidentRow, MetaValue, NotificationType, Request, VerificationStatus, conflict,
  execute, forbidden, internal, is_approved, or_throw, pure, query, throw_if, unprocessable,
  when_some, ◌>>=◌, ◌>>◌,
}
use ecotrack_api.Incidents.{
  find_incident, find_scoped_incident, incident_by_id, incident_entry, is_incident,
}
use ecotrack_api.Platform.Audit.{Paginated, paginate, record_audit}
use ecotrack_api.Platform.Notifications.{Notice, notify}
use ecotrack_api.Workflow.Rules.{CreationTrigger, list_eligible_stage_ids, stage_id, uuid_or_null}
use ecotrack_api.Workflow.Stages.{find_dismissed_stage, list_stages}
use ecotrack_api.Workflow.Stages.Changes.{has_id}

abbrev pub advance_row : ℕ → ℕ → IncidentRow → IncidentRow
advance_row now target_stage_id i = record i {
  current_stage_id = some target_stage_id;
  version = i.version + 1;
  updated_at = now;
}

unfoldable pub advance_stage : ℕ → ℕ → ℕ → ℕ → String → Request (Unit {0})
advance_stage organisation_id incident_id target_stage_id acting_user_id trigger = do
  execute λ db. record db {
    incidents =
        update_where (is_incident incident_id) (advance_row db.clock target_stage_id) db.incidents;
  }
  record_audit (
      incident_entry (some organisation_id) acting_user_id "incident.stage_changed" incident_id (
        some (
          ("newStageId", MetaValue.uuid target_stage_id)
          ∷ ("trigger", MetaValue.text trigger)
          ∷ [])))

-- `verificationStatus !== APPROVED` on the nullable column.
abbrev pub is_verified : Option VerificationStatus → Bool
is_verified none = false
is_verified (some s) = is_approved s

abbrev pub already_resolved : HttpException
already_resolved = forbidden "This incident has already been rejected or marked as a duplicate"

abbrev pub assert_claimed_and_active : IncidentRow → Request (Unit {0})
assert_claimed_and_active i = do
  throw_if (is_none i.organisation_id)
      (forbidden "This incident has not been claimed by an organisation yet")
  throw_if (not (is_verified i.verification_status)) already_resolved

abbrev pub reject_row : ℕ → String → Option ℕ → IncidentRow → IncidentRow
reject_row now reason dismissed i = record i {
  verification_status = some VerificationStatus.rejected;
  rejection_reason = some reason;
  current_stage_id = some_or dismissed i.current_stage_id;
  version = i.version + 1;
  updated_at = now;
}

abbrev pub rejected_notice : ℕ → IncidentRow → String → ℕ → Notice
rejected_notice organisation_id i reason user_id = record {
  user_id = user_id;
  organisation_id = some organisation_id;
  type = NotificationType.incident_rejected;
  title = "Incident rejected";
  message = "Your report \"" <> i.title <> "\" was rejected: " <> reason;
  related_entity_type = some "incident";
  related_entity_id = some i.id;
}

-- The part of `reject` from its UPDATE on, with the incident that the checks have read. The UPDATE
-- names the identifier alone; its row is there, since no incident is ever deleted.
unfoldable pub reject_write : ℕ → ℕ → ℕ → String → IncidentRow → Option ℕ → Request IncidentRow
reject_write organisation_id incident_id acting_user_id reason incident dismissed = do
  now ← query λ db. db.clock
  hit ← query (incident_by_id incident_id)
  before ← or_throw hit (internal "Incident not found")
  execute λ db. record db {
    incidents =
        update_where (is_incident incident_id) (reject_row now reason dismissed) db.incidents;
  }
  record_audit (
      incident_entry (some organisation_id) acting_user_id "incident.rejected" incident_id
        (some (("reason", MetaValue.text reason) ∷ [])))
  when_some incident.reported_by_user_id
      (λ user_id. notify (rejected_notice organisation_id incident reason user_id))
  pure (reject_row now reason dismissed before)

unfoldable pub reject : ℕ → ℕ → ℕ → String → Request IncidentRow
unfolding reject_write
reject organisation_id incident_id acting_user_id reason = do
  incident ← find_scoped_incident organisation_id incident_id
  assert_claimed_and_active incident
  dismissed ← find_dismissed_stage organisation_id
  reject_write organisation_id incident_id acting_user_id reason incident (stage_id dismissed)

abbrev pub duplicate_row : ℕ → ℕ → IncidentRow → IncidentRow
duplicate_row now duplicate_of_id i = record i {
  verification_status = some VerificationStatus.duplicate;
  duplicate_of_id = some duplicate_of_id;
  updated_at = now;
}

-- The part of `markDuplicate` from its UPDATE on, which names the identifier alone.
unfoldable pub duplicate_write : ℕ → ℕ → ℕ → ℕ → Request IncidentRow
duplicate_write organisation_id incident_id acting_user_id duplicate_of_id = do
  now ← query λ db. db.clock
  hit ← query (incident_by_id incident_id)
  before ← or_throw hit (internal "Incident not found")
  execute λ db. record db {
    incidents =
        update_where (is_incident incident_id) (duplicate_row now duplicate_of_id) db.incidents;
  }
  record_audit (
      incident_entry (some organisation_id) acting_user_id "incident.marked_duplicate" incident_id
        (some (("duplicateOfId", MetaValue.uuid duplicate_of_id) ∷ [])))
  pure (duplicate_row now duplicate_of_id before)

unfoldable pub mark_duplicate : ℕ → ℕ → ℕ → ℕ → Request IncidentRow
unfolding duplicate_write
mark_duplicate organisation_id incident_id acting_user_id duplicate_of_id = do
  incident ← find_scoped_incident organisation_id incident_id
  assert_claimed_and_active incident
  original ← find_scoped_incident organisation_id duplicate_of_id
  duplicate_write organisation_id incident_id acting_user_id duplicate_of_id

-- `versionGuard`: the id, and the version that the caller expects, if it names one.
abbrev pub version_guard : ℕ → Option ℕ → IncidentRow → Bool
version_guard incident_id none i = i.id == incident_id
version_guard incident_id (some expected) i = i.id == incident_id && i.version == expected

abbrev pub modified_concurrently : HttpException
modified_concurrently =
    conflict "Incident status was modified concurrently; please refresh and retry."

-- The guarded UPDATE of `updateStage` and its audit entry.
unfoldable pub move_stage : ℕ → IncidentRow → ℕ → Option ℕ → ℕ → Request IncidentRow
move_stage organisation_id incident target expected_version acting_user_id = do
  now ← query λ db. db.clock
  hit ← query λ db. find (version_guard incident.id expected_version) db.incidents
  execute λ db. record db {
    incidents =
        update_where (version_guard incident.id expected_version) (advance_row now target)
          db.incidents;
  }
  before ← or_throw hit modified_concurrently
  record_audit (
      incident_entry (some organisation_id) acting_user_id "incident.stage_changed" incident.id (
        some (
          ("previousStageId", uuid_or_null incident.current_stage_id)
          ∷ ("newStageId", MetaValue.uuid target)
          ∷ [])))
  pure (advance_row now target before)

unfoldable pub update_incident_stage : ℕ → ℕ → ℕ → Option ℕ → ℕ → Request IncidentRow
update_incident_stage organisation_id incident_id stage expected_version acting_user_id = do
  incident ← find_incident incident_id
  throw_if (is_none incident.organisation_id)
      (conflict "This incident has not been claimed by an organisation yet.")
  stages ← list_stages organisation_id
  target ←
      or_throw (find (has_id stage) stages)
        (unprocessable "not a valid workflow stage for this organisation.")
  if is_value incident.current_stage_id target.id
      then pure incident
      else move_stage organisation_id incident target.id expected_version acting_user_id

-- The condition of `listForOrg`: organisation, status, and the stages that a trigger allows.
abbrev pub same_status : VerificationStatus → Option VerificationStatus → Bool
same_status VerificationStatus.approved (some VerificationStatus.approved) = true
same_status VerificationStatus.rejected (some VerificationStatus.rejected) = true
same_status VerificationStatus.duplicate (some VerificationStatus.duplicate) = true
same_status _ _ = false

abbrev pub has_status : Option VerificationStatus → IncidentRow → Bool
has_status none i = true
has_status (some s) i = same_status s i.verification_status

abbrev pub sits_on : List ℕ → IncidentRow → Bool
sits_on stage_ids i =
    is_verified i.verification_status && any (is_value i.current_stage_id) stage_ids

abbrev pub list_page : ℕ → ℕ → ℕ → (IncidentRow → Bool) → Request (Paginated IncidentRow)
list_page organisation_id page limit test = query λ db.
    paginate
      (sort_desc_by (λ (i : IncidentRow). i.created_at)
        (select (λ i. is_value i.organisation_id organisation_id && test i) db.incidents))
      page limit

abbrev pub empty_page : ℕ → ℕ → Paginated IncidentRow
empty_page page limit = record { items = []; total = 0; page = page; limit = limit }

abbrev pub list_eligible :
    ℕ → ℕ → ℕ → Option VerificationStatus → Option CreationTrigger → Request (Paginated IncidentRow)
list_eligible organisation_id page limit status none =
    list_page organisation_id page limit (has_status status)
list_eligible organisation_id page limit status (some trigger) = do
  stage_ids ← list_eligible_stage_ids organisation_id trigger
  if length stage_ids == 0
      then pure (empty_page page limit)
      else list_page organisation_id page limit (λ i. has_status status i && sits_on stage_ids i)
