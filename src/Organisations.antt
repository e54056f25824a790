-- ===== src/Organisations.antt =====
-- Lookups that the services of src/modules/organisations share.
pub mod InviteLinks
pub mod Redemption
pub mod LinkHistory
pub mod Limits
pub mod Admission
pub mod JoinRequests
pub mod Requests
pub mod Resolution
pub mod Invitations
pub mod SingleUse
pub mod Names
pub mod Registration
pub mod Setup
pub mod Founding
use ecotrack_api.Common.{Bool, Option, is_none, none, not, some, ℕ}
use ecotrack_api.Db.{
  GeographyPoint, OrganisationRow, Request, UserRow, bad_request, conflict, or_throw, throw_if,
  unprocessable, ◌>>=◌, ◌>>◌,
}
use ecotrack_api.Incidents.Pool.{service_area}

-- `user?.organisationId`
abbrev pub membership : Option UserRow → Option ℕ
membership none = none
membership (some u) = u.organisation_id

abbrev pub assert_no_membership : Option UserRow → Request (Unit {0})
assert_no_membership user =
    throw_if (not (is_none (membership user)))
      (conflict "Already a member of another organisation.")

module _ (st_dwithin : GeographyPoint → GeographyPoint → ℕ → Bool) where
  -- The check of the service area that join requests and invite links share.
  unfoldable pub assert_within : OrganisationRow → GeographyPoint → Request (Unit {0})
  assert_within org location = do
    (center, meters) ←
        or_throw (service_area (some org))
          (bad_request "This organisation's service area is not configured.")
    throw_if (not (st_dwithin location center meters))
        (unprocessable "You are outside the organisation's service area.")
