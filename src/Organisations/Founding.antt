-- ===== src/Organisations/Founding.antt =====
-- `create` of src/modules/organisations/organisations.service.ts: what a registration makes.
use ecotrack_api.Common.{
  Bool, Bool-cases, Option, String, [], any, ap, arith, count_where, false, find-update_same,
  find_holds, inl, inr, is_none, none, not, refl, some, update_where, ℕ, ◌&&◌, ◌++◌, ◌∙◌, ◌∷◌, ◌≡◌,
}
use ecotrack_api.Db.{>>=-eq-ok, Db, InvitationRow, Keeps-eq, OrganisationRow, UserRole, UserRow, ok}
use ecotrack_api.Organisations.Names.{has_org_slug}
use ecotrack_api.Organisations.Registration.{
  ActingUser, RegisterOrganisation, appoint, create_organisation, insert_organisation, nominee,
  register, set_up,
}
use ecotrack_api.Organisations.Setup.{
  IsFounded, appoint-Keeps, insert_organisation_effect, set_up-IsContiguous, set_up-Keeps,
}
use ecotrack_api.Tasks.{user_by_id}
use ecotrack_api.Users.{is_user, member_row}
use ecotrack_api.Workflow.Positions.{IsContiguous, of_organisation}

appoint_self :
    (organisation_id user_id : ℕ) (token : String) (db db' : Db) (r : Option InvitationRow × Bool)
    → appoint organisation_id none user_id token db ≡ ok (r, db')
    → db'.users
      ≡ update_where
          (is_user user_id)
          (member_row db.clock (some organisation_id) UserRole.org_admin none)
          db.users
unfolding appoint
appoint_self organisation_id user_id token db db' r h = ground arith

register_effect :
    (d : RegisterOrganisation) (other : Option String) (user_id : ℕ) (token : String) (db db' : Db)
    (r : OrganisationRow × Option InvitationRow × Bool)
    → register d other user_id token db ≡ ok (r, db')
    → (o : OrganisationRow) × (appointed : Option InvitationRow × Bool) × (db₁ db₂ : Db) × (r
        ≡ (o, appointed.0, appointed.1))
      × (insert_organisation d db ≡ ok (o, db₁))
      × (set_up o.id user_id db₁ ≡ ok (tt, db₂))
      × (appoint o.id other user_id token db₂ ≡ ok (appointed, db'))
unfolding register
register_effect d other user_id token db db' r h =
    let (s, e, g) = >>=-eq-ok (insert_organisation d) _ db h in
    let (t, f, g') = >>=-eq-ok (set_up s.0.id user_id) _ s.1 g in
    let (a, k, g'') = >>=-eq-ok (appoint s.0.id other user_id token) _ t.1 g' in
    let last : a.1 ≡ db' = ground arith in
    (s.0, a.0, s.1, t.1, ground arith, e, f, k ∙ ap (λ x. ok (a.0, x)) last)

create_organisation_effect :
    (d : RegisterOrganisation) (acting : ActingUser) (token : String) (db db' : Db)
    (r : OrganisationRow × Option InvitationRow × Bool)
    → create_organisation d acting token db ≡ ok (r, db')
    → (nominee d.initial_admin_email acting.email ≡ none → acting.organisation_id ≡ none)
      × (register d (nominee d.initial_admin_email acting.email) acting.id token db ≡ ok (r, db'))
unfolding create_organisation
create_organisation_effect d acting token db db' r h =
    elim (Bool-cases (
      not (is_none acting.organisation_id)
      && is_none (nominee d.initial_admin_email acting.email))) [
        | inl twice ↦ absurd (ground arith)
        | inr single ↦ ((λ e. ground arith), ground arith)
      ]

appointed_admin :
    (organisation_id : ℕ) (other : Option String) (user_id : ℕ) (token : String) (db db₂ db' : Db)
    (a : Option InvitationRow × Bool) (u : UserRow)
    → other ≡ none
    → db₂.users ≡ db.users
    → db₂.clock ≡ db.clock
    → user_by_id user_id db ≡ some u
    → appoint organisation_id other user_id token db₂ ≡ ok (a, db')
    → user_by_id user_id db'
      ≡ some (member_row db.clock (some organisation_id) UserRole.org_admin none u)
appointed_admin organisation_id (some email) user_id token db db₂ db' a u self us now there k =
    absurd (cc)
appointed_admin organisation_id none user_id token db db₂ db' a u self us now there k =
    rw (appoint_self organisation_id user_id token db₂ db' a k, us, now)
      (find-update_same (is_user user_id) (is_user user_id)
        (member_row db.clock (some organisation_id) UserRole.org_admin none) db.users (λ y. refl)
        there (find_holds (is_user user_id) db.users there))

-- A successful registration, where no stage has the new organisation's identifier, adds one
-- organisation, active and with the request's name, contact, description and service area, with a
-- slug that none had before and five workflow stages at the positions 0 to 4; where the caller nominates nobody else, the caller belonged to no organisation and, where the
-- account exists, becomes an admin of the new one.
pub create_organisation-founds :
    (d : RegisterOrganisation) (acting : ActingUser) (token : String) (db db' : Db)
    (r : OrganisationRow × Option InvitationRow × Bool)
    → count_where (of_organisation db.next_id) db.workflow_stages ≡ 0
    → create_organisation d acting token db ≡ ok (r, db')
    → (any (has_org_slug r.0.slug) db.organisations ≡ false)
      × (db'.organisations ≡ db.organisations ++ r.0 ∷ [])
      × IsFounded d r.0
      × (count_where (of_organisation r.0.id) db'.workflow_stages ≡ 5)
      × IsContiguous r.0.id db'.workflow_stages
      × (nominee d.initial_admin_email acting.email ≡ none
          → (acting.organisation_id ≡ none)
            × ((u : UserRow)
                → user_by_id acting.id db ≡ some u
                → user_by_id acting.id db'
                  ≡ some (member_row db.clock (some r.0.id) UserRole.org_admin none u)))
create_organisation-founds d acting token db db' r empty h =
    let other = nominee d.initial_admin_email acting.email in
    let (guard, reg) = create_organisation_effect d acting token db db' r h in
    let (o, a, db₁, db₂, at, e, f, k) = register_effect d other acting.id token db db' r reg in
    let (free, id, st, row) = insert_organisation_effect d db db₁ o e in
    let own : r.0 ≡ o = ap (λ x. x.0) at in
    let empty' : count_where (of_organisation o.id) db₁.workflow_stages ≡ 0 =
      ap (λ i. count_where (of_organisation i) db₁.workflow_stages) id
      ∙ ap (λ x. count_where (of_organisation db.next_id) x.workflow_stages) st
      ∙ empty in
    let (five, contiguous) = set_up-IsContiguous o.id acting.id db₁ db₂ empty' f in
    let stages =
      Keeps-eq (λ x. x.workflow_stages) (appoint o.id other acting.id token)
        (appoint-Keeps (λ x. x.workflow_stages) (λ x n us is. refl) o.id other acting.id token) db₂
        db' a k in
    let orgs =
      Keeps-eq (λ x. x.organisations) (appoint o.id other acting.id token)
        (appoint-Keeps (λ x. x.organisations) (λ x n us is. refl) o.id other acting.id token) db₂
        db' a k
      ∙ Keeps-eq (λ x. x.organisations) (set_up o.id acting.id)
          (set_up-Keeps (λ x. x.organisations) (λ x n ss. refl) (λ x n is rs ls. refl) o.id
            acting.id)
          db₁ db₂ tt f
      ∙ ap (λ x. x.organisations) st in
    rw own (
      free,
      orgs,
      row,
      rw stages five,
      rw stages contiguous,
      (λ self. (
        guard self,
        (λ u there.
            appointed_admin o.id other acting.id token db db₂ db' a u self
              (Keeps-eq (λ x. x.users) (set_up o.id acting.id)
                  (set_up-Keeps (λ x. x.users) (λ x n ss. refl) (λ x n is rs ls. refl) o.id
                    acting.id)
                  db₁ db₂ tt f
                ∙ ap (λ x. x.users) st)
              (Keeps-eq (λ x. x.clock) (set_up o.id acting.id)
                  (set_up-Keeps (λ x. x.clock) (λ x n ss. refl) (λ x n is rs ls. refl) o.id
                    acting.id)
                  db₁ db₂ tt f
                ∙ ap (λ x. x.clock) st)
              there k),
      )),
    )
