-- ===== src/Tests/Invites.antt =====
-- Invite links, join requests and invitations of organisation 1 of the small database, for account 8,
-- which belongs to no organisation. A token stands for its own hash, and every place is near.
use ecotrack_api.Common.{
  Bool, String, [], any, arith, count_where, false, find, none, refl, select, some, true,
  update_where, ℕ, ◌++◌, ◌∷◌, ◌≡◌, ◌≤◌,
}
use ecotrack_api.Db.{
  Db, GeographyPoint, InvitationRow, InviteLinkRow, JoinRequestRow, JoinRequestStatus, UserRole,
  UserRow, err, for_each, ok,
}
use ecotrack_api.Organisations.{assert_within, membership}
use ecotrack_api.Organisations.Admission.{accept-admits, generate-get_public_info, revoke-accept}
use ecotrack_api.Organisations.Invitations.{
  accept_for_user, find_invitation, invitation_invalid, invitation_row,
}
use ecotrack_api.Organisations.InviteLinks.{
  accept, accept_check, claim_use, find_by_token, generate, get_public_info, is_link, link_revoked,
  new_link, redeem, revoke, revoke_row, use_row,
}
use ecotrack_api.Organisations.JoinRequests.{
  announce_request, assert_eligible, assert_free, insert_request, is_open, is_scoped_request,
  is_standing, new_request, request_resolved, resolved_row, submit, update_request,
}
use ecotrack_api.Organisations.Limits.{accept-IsWithinLimits}
use ecotrack_api.Organisations.LinkHistory.{LinkReach, LinksOk}
use ecotrack_api.Organisations.Redemption.{IsAdmissible, IsWithinLimits}
use ecotrack_api.Organisations.Requests.{OneStanding, submit-OneStanding}
use ecotrack_api.Organisations.Resolution.{
  update_request-OneStanding, update_request-resolves, users_after,
}
use ecotrack_api.Organisations.SingleUse.{IsAcceptable, accept_for_user-once}
use ecotrack_api.Tasks.{user_by_id}
use ecotrack_api.Tests.Fixtures.{base, green_creek, here_point, state_after, user}
use ecotrack_api.Users.{duplicate_key, member_row}
use ecotrack_api.Workflow.Slug.{is_upper, same_text, to_lower}

abbrev plain : String → String
plain token = token

abbrev anywhere : GeographyPoint → GeographyPoint → ℕ → Bool
anywhere a b meters = true

abbrev citizen : UserRow
citizen = record (user 8 UserRole.citizen) { organisation_id = none }

abbrev link : InviteLinkRow
link = new_link 90 60 1 "secret" (some 2) none 2

abbrev inviting : Db
inviting = record base { users = citizen ∷ []; invite_links = link ∷ [] }

inviting-LinksOk : LinksOk inviting
inviting-LinksOk = record { unique = (tt, tt); fresh = (omega arith, tt); within = (refl, tt) }

abbrev granted : UserRole → ℕ × UserRole
granted role = (1, role)

abbrev admitted : Db
admitted = state_after (accept plain anywhere "secret" 8 here_point) inviting

accept-IsWithinLimits_example : IsWithinLimits admitted
unfolding accept accept_check assert_within find_by_token redeem claim_use find update_where
accept-IsWithinLimits_example =
    accept-IsWithinLimits plain anywhere "secret" 8 here_point link inviting inviting admitted
      (1, UserRole.volunteer) inviting-LinksOk refl LinkReach.here refl

accept-admits_example :
    (l : InviteLinkRow) × IsAdmissible plain anywhere "secret" 8 here_point l inviting
    × (granted UserRole.volunteer ≡ (l.organisation_id, UserRole.volunteer))
    × (find (is_link l.id) admitted.invite_links ≡ some (use_row 100 l))
    × ((u : UserRow)
        → user_by_id 8 inviting ≡ some u
        → user_by_id 8 admitted
          ≡ some (member_row 100 (some l.organisation_id) UserRole.volunteer (some here_point) u))
unfolding accept accept_check assert_within find_by_token redeem claim_use find update_where
accept-admits_example =
    accept-admits plain anywhere "secret" 8 here_point inviting admitted (1, UserRole.volunteer)
      (tt, tt) refl

abbrev after_revocation : Db
after_revocation = state_after (revoke 1 60 2) inviting

revoke-accept_example :
    accept plain anywhere "secret" 8 here_point after_revocation ≡ err link_revoked
unfolding revoke find update_where
revoke-accept_example =
    revoke-accept plain anywhere 1 60 2 8 "secret" here_point link green_creek inviting
      after_revocation (revoke_row 100 link) refl refl refl refl

abbrev generated : InviteLinkRow × String
generated = (new_link 100 1000 1 "other" (some 5) (some 3) 2, "other")

abbrev after_generation : Db
after_generation = state_after (generate plain 1 "other" (some 5) (some 3) 2) inviting

generate-get_public_info_example :
    get_public_info plain generated.1 after_generation
    ≡ ok (
      record {
        organisation_name = "Green Creek";
        expired = false;
        revoked = false;
        exhausted = false;
      },
      after_generation,
    )
unfolding generate any find
generate-get_public_info_example =
    generate-get_public_info plain 1 "other" (some 5) (some 3) 2 green_creek inviting
      after_generation generated refl (λ e. absurd (ground arith)) refl

abbrev asked : Db
asked = state_after (submit anywhere 8 1 here_point none) inviting

abbrev request : JoinRequestRow
request = new_request 100 1000 1 8 none

submit-OneStanding_example :
    (membership (user_by_id 8 inviting) ≡ none)
    × (request.status ≡ JoinRequestStatus.pending)
    × (asked.join_requests ≡ [] ++ request ∷ [])
    × OneStanding asked
unfolding submit assert_eligible assert_within insert_request announce_request for_each find any
    select count_where
submit-OneStanding_example =
    submit-OneStanding anywhere 8 1 here_point none inviting asked request (λ o u. omega arith) refl

abbrev decided_on : Db
decided_on = state_after (update_request 1 1000 true 2) asked

update_request-resolves_example :
    (j : JoinRequestRow) × (find (is_scoped_request 1 1000) asked.join_requests ≡ some j)
    × (is_open j.status ≡ true)
    × (resolved_row 100 true request ≡ resolved_row 100 true j)
    × (find (is_scoped_request 1 1000) decided_on.join_requests
        ≡ some (resolved_row 100 true request))
    × (true ≡ true → membership (user_by_id j.user_id asked) ≡ none)
    × (decided_on.users ≡ users_after 1 true j asked)
    × ((again : Bool) (other : ℕ)
        → update_request 1 1000 again other decided_on ≡ err request_resolved)
unfolding submit assert_eligible assert_within insert_request announce_request update_request
    assert_free for_each find any select update_where
update_request-resolves_example =
    update_request-resolves 1 1000 true 2 asked decided_on (resolved_row 100 true request) refl

update_request-OneStanding_example : count_where (is_standing 1 8) decided_on.join_requests ≤ 1
unfolding submit assert_eligible assert_within insert_request announce_request update_request
    assert_free for_each find any select update_where count_where
update_request-OneStanding_example =
    update_request-OneStanding 1 1000 true 2 asked decided_on (resolved_row 100 true request)
      (tt, tt) (λ o u. ground arith) refl 1 8

-- An old rejected request hides a pending one from the pre-check of `submit`: a third request meets
-- the index, and the answer is an internal error in place of the conflict.
abbrev hidden : Db
hidden = record inviting {
  join_requests =
      record request { id = 70; status = JoinRequestStatus.rejected }
      ∷ record request { id = 71 }
      ∷ [];
}

hidden_request : submit anywhere 8 1 here_point none hidden ≡ err duplicate_key
unfolding submit assert_eligible assert_within insert_request find any
hidden_request = refl

abbrev invitation : InvitationRow
invitation =
    invitation_row 90 80
      (record {
        organisation_id = 1;
        email = "Someone@Example.org";
        full_name = none;
        role = some UserRole.org_admin;
        invited_by_user_id = 2;
      })
      "token"

abbrev invited : Db
invited = record inviting { invitations = invitation ∷ [] }

abbrev joined : Db
joined = state_after (accept_for_user "token" 8) invited

accept_for_user-once_example :
    (i : InvitationRow) × IsAcceptable "token" 8 i invited
    × (granted UserRole.org_admin ≡ (i.organisation_id, i.role))
    × ((u : UserRow)
        → user_by_id 8 invited ≡ some u
        → user_by_id 8 joined ≡ some (member_row 100 (some i.organisation_id) i.role none u))
    × ((other : ℕ) → accept_for_user "token" other joined ≡ err invitation_invalid)
unfolding accept_for_user find_invitation to_lower is_upper same_text find update_where
accept_for_user-once_example =
    accept_for_user-once "token" 8 invited joined (1, UserRole.org_admin) refl
