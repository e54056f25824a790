-- ===== src/Organisations/SingleUse.antt =====
-- An invitation is accepted once, by its addressee (src/modules/organisations/invitations.service.ts).
use ecotrack_api.Common.{
  ==_refl, Bool-cases, Option-cases, String, arith, false, find, find-update_same, find_holds, inl,
  inr, ltb, none, refl, some, true, update_where, ℕ, ◌≡◌,
}
use ecotrack_api.Db.{Db, InvitationRow, OrganisationRow, UserRole, UserRow, err, ok}
use ecotrack_api.Incidents.Pool.{organisation_by_id}
use ecotrack_api.Organisations.Invitations.{
  accept_for_user, accepted_row, find_invitation, has_token, invitation_invalid, is_addressee,
  is_invitation,
}
use ecotrack_api.Tasks.{user_by_id}
use ecotrack_api.Users.{is_user, member_row}

found_invitation :
    (token : String) (db : Db) (p : InvitationRow × OrganisationRow)
    → find_invitation token db ≡ some p
    → (find (has_token token) db.invitations ≡ some p.0)
      × (organisation_by_id p.0.organisation_id db ≡ some p.1)
unfolding find_invitation
found_invitation token db p h = elim (Option-cases (find (has_token token) db.invitations)) [
  | inl none' ↦ absurd (ground arith)
  | inr (i, some') ↦ elim (Option-cases (organisation_by_id i.organisation_id db)) [
    | inl none'' ↦ absurd (ground arith)
    | inr (o, some'') ↦ let e : (i, o) ≡ p = ground arith in rw⁻¹ e (some', some'')
  ]
]

joined_invitation :
    (token : String) (db : Db) (i : InvitationRow) (o : OrganisationRow)
    → find (has_token token) db.invitations ≡ some i
    → organisation_by_id i.organisation_id db ≡ some o
    → find_invitation token db ≡ some (i, o)
unfolding find_invitation
joined_invitation token db i o e f = ground arith

-- An invitation that can still be accepted by the user.
pub record IsAcceptable (token : String) (user_id : ℕ) (i : InvitationRow) (db : Db) : Type 0 where
  pub found : find (has_token token) db.invitations ≡ some i
  pub unaccepted : i.accepted_at ≡ none
  pub current : ltb i.expires_at db.clock ≡ false
  pub addressed : is_addressee (user_by_id user_id db) i ≡ true
  pub active :
      (o : OrganisationRow) × (organisation_by_id i.organisation_id db ≡ some o)
      × (o.is_active ≡ true)

pub accept_for_user_effect :
    (token : String) (user_id : ℕ) (db db' : Db) (r : ℕ × UserRole)
    → accept_for_user token user_id db ≡ ok (r, db')
    → (i : InvitationRow) × IsAcceptable token user_id i db
      × (r ≡ (i.organisation_id, i.role))
      × (db'.users
          ≡ update_where
              (is_user user_id)
              (member_row db.clock (some i.organisation_id) i.role none)
              db.users)
      × (db'.invitations ≡ update_where (is_invitation i.id) (accepted_row db.clock) db.invitations)
      × (db'.organisations ≡ db.organisations)
unfolding accept_for_user
accept_for_user_effect token user_id db db' r h = elim (Option-cases (find_invitation token db)) [
  | inl none' ↦ absurd (ground arith)
  | inr ((i, o), some') ↦ elim (Option-cases i.accepted_at) [
    | inr (_, accepted) ↦ absurd (ground arith)
    | inl unaccepted ↦ elim (Bool-cases (ltb i.expires_at db.clock)) [
      | inl late ↦ absurd (ground arith)
      | inr current ↦ elim (Bool-cases (is_addressee (user_by_id user_id db) i)) [
        | inr stranger ↦ absurd (ground arith)
        | inl addressed ↦ elim (Bool-cases o.is_active) [
          | inr inactive ↦ absurd (ground arith)
          | inl active ↦
              let (found, org) = found_invitation token db (i, o) some' in
              (
                i,
                record {
                  found = found;
                  unaccepted = unaccepted;
                  current = current;
                  addressed = addressed;
                  active = (o, org, active);
                },
                ground arith,
                ground arith,
                ground arith,
                ground arith,
              )
        ]
      ]
    ]
  ]
]

spent_invitation :
    (token : String) (user_id : ℕ) (db : Db) (i : InvitationRow) (o : OrganisationRow) (at : ℕ)
    → find_invitation token db ≡ some (i, o)
    → i.accepted_at ≡ some at
    → accept_for_user token user_id db ≡ err invitation_invalid
unfolding accept_for_user
spent_invitation token user_id db i o at found accepted = ground arith

-- A successful acceptForUser found an invitation that was not yet accepted, not expired, addressed to
-- the account and of an active organisation; the account gets the invitation's organisation and role;
-- and accepting with the same token again fails for every account.
pub accept_for_user-once :
    (token : String) (user_id : ℕ) (db db' : Db) (r : ℕ × UserRole)
    → accept_for_user token user_id db ≡ ok (r, db')
    → (i : InvitationRow) × IsAcceptable token user_id i db
      × (r ≡ (i.organisation_id, i.role))
      × ((u : UserRow)
          → user_by_id user_id db ≡ some u
          → user_by_id user_id db'
            ≡ some (member_row db.clock (some i.organisation_id) i.role none u))
      × ((other : ℕ) → accept_for_user token other db' ≡ err invitation_invalid)
accept_for_user-once token user_id db db' r h =
    let (i, open', at, users, rows, orgs) = accept_for_user_effect token user_id db db' r h in
    let (o, known, _) = open'.active in
    let again : find (has_token token) db'.invitations ≡ some (accepted_row db.clock i) = rw rows (
      find-update_same (has_token token) (is_invitation i.id) (accepted_row db.clock) db.invitations
        (λ y. refl) open'.found (==_refl i.id)) in
    let whole = joined_invitation token db' (accepted_row db.clock i) o again (rw orgs known) in
    (
      i,
      open',
      at,
      (λ u there. rw users (
          find-update_same (is_user user_id) (is_user user_id)
            (member_row db.clock (some i.organisation_id) i.role none) db.users (λ y. refl) there
            (find_holds (is_user user_id) db.users there))),
      (λ other. spent_invitation token other db' (accepted_row db.clock i) o db.clock whole refl),
    )
