-- ===== src/Incidents/Pool.antt =====
-- IncidentPoolService.claim, src/modules/incidents/incident-pool.service.ts, in the two parts that
-- the source's comment tells apart: the checks, which only choose the error, and the conditional
-- UPDATE, which alone decides who wins. `st_dwithin` is PostGIS's, on a point, a centre and metres.
use ecotrack_api.Common.{
  Bool, Option, find, is_none, none, not, some, suc, update_where, ℕ, ◌&&◌, ◌*◌, ◌+◌, ◌<>◌, ◌==◌,
}
use ecotrack_api.Db.{
  Db, GeographyPoint, HttpException, IncidentRow, NotificationType, OrganisationRow, Request,
  VerificationStatus, bad_request, conflict, execute, or_throw, pure, query, throw_if,
  unprocessable, when_some, ◌>>=◌, ◌>>◌,
}
use ecotrack_api.Incidents.{incident_by_id, incident_entry, incident_not_found}
use ecotrack_api.Platform.Audit.{record_audit}
use ecotrack_api.Platform.Notifications.{Notice, notify}
use ecotrack_api.Workflow.Rules.{stage_id}
use ecotrack_api.Workflow.Stages.{find_default_claim_stage}

abbrev pub organisation_by_id : ℕ → Db → Option OrganisationRow
organisation_by_id id db = find (λ (o : OrganisationRow). o.id == id) db.organisations

-- `!org?.serviceAreaCenter || !org.serviceAreaRadiusKm`: none; a radius of 0 counts as none.
abbrev pub area : Option GeographyPoint → Option ℕ → Option (GeographyPoint × ℕ)
area (some center) (some (suc radius)) = some (center, suc radius * 1000)
area _ _ = none

abbrev pub service_area : Option OrganisationRow → Option (GeographyPoint × ℕ)
service_area none = none
service_area (some o) = area o.service_area_center o.service_area_radius_km

abbrev pub already_claimed : HttpException
already_claimed = conflict "This incident has already been claimed by another organisation"

abbrev pub just_claimed : HttpException
just_claimed = conflict "This incident was just claimed by another organisation"

abbrev pub is_pooled : ℕ → IncidentRow → Bool
is_pooled id i = i.id == id && is_none i.organisation_id

abbrev pub claim_row : ℕ → ℕ → ℕ → Option ℕ → IncidentRow → IncidentRow
claim_row now organisation_id acting_user_id stage i = record i {
  organisation_id = some organisation_id;
  claimed_by_user_id = some acting_user_id;
  claimed_at = some now;
  verification_status = some VerificationStatus.approved;
  current_stage_id = stage;
  version = i.version + 1;
  updated_at = now;
}

abbrev pub claimed_notice : ℕ → ℕ → IncidentRow → ℕ → Notice
claimed_notice organisation_id incident_id i user_id = record {
  user_id = user_id;
  organisation_id = some organisation_id;
  type = NotificationType.incident_claimed;
  title = "Your report was claimed";
  message = "\"" <> i.title <> "\" has been claimed and is being handled.";
  related_entity_type = some "incident";
  related_entity_id = some incident_id;
}

-- The UPDATE … WHERE organisation_id IS NULL and what follows it.
unfoldable pub claim_write : ℕ → ℕ → ℕ → Option ℕ → Request IncidentRow
claim_write incident_id organisation_id acting_user_id stage = do
  now ← query λ db. db.clock
  won ← query λ db. find (is_pooled incident_id) db.incidents
  execute λ db. record db {
    incidents =
        update_where (is_pooled incident_id) (claim_row now organisation_id acting_user_id stage)
          db.incidents;
  }
  pooled ← or_throw won just_claimed
  let claimed = claim_row now organisation_id acting_user_id stage pooled
  record_audit
      (incident_entry (some organisation_id) acting_user_id "incident.claimed" incident_id none)
  when_some claimed.reported_by_user_id
      (λ user_id. notify (claimed_notice organisation_id incident_id claimed user_id))
  pure claimed

module _ (st_dwithin : GeographyPoint → GeographyPoint → ℕ → Bool) where
  -- Everything before the UPDATE; the result is the stage that the incident will land on.
  unfoldable pub claim_check : ℕ → ℕ → Request (Option ℕ)
  claim_check incident_id organisation_id = do
    found ← query (incident_by_id incident_id)
    incident ← or_throw found incident_not_found
    throw_if (not (is_none incident.organisation_id)) already_claimed
    org ← query (organisation_by_id organisation_id)
    (center, meters) ←
        or_throw (service_area org)
          (bad_request "This organisation has no service area configured yet")
    throw_if (not (st_dwithin incident.location center meters))
        (unprocessable "This incident is outside your organisation's service area")
    claim_stage ← find_default_claim_stage organisation_id
    pure (stage_id claim_stage)

  unfoldable pub claim : ℕ → ℕ → ℕ → Request IncidentRow
  unfolding claim_check claim_write
  claim incident_id organisation_id acting_user_id = do
    stage ← claim_check incident_id organisation_id
    claim_write incident_id organisation_id acting_user_id stage
