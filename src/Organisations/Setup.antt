-- ===== src/Organisations/Setup.antt =====
-- What the steps of a registration make, and what they leave alone
-- (src/modules/organisations/organisations.service.ts).
use ecotrack_api.Common.{
  Bool-cases, List, Option, Option-cases, String, [], any, ap, arith, count_where, false, find, inl,
  inr, none, refl, some, suc, true, update_where, ℕ, ◌++◌, ◌∙◌, ◌∷◌, ◌≡◌,
}
use ecotrack_api.Db.{
  >>=-eq-ok, AuditLogRow, Db, IncidentRow, InvitationRow, Keeps, Keeps->>=, Keeps-eq, Keeps-execute,
  OrganisationRow, UserRole, UserRow, WorkflowStageRow, WorkflowStageRuleRow, ok, ◌>>=◌,
}
use ecotrack_api.Incidents.Frames.{advanced_parts, get_rules-Keeps}
use ecotrack_api.Organisations.Invitations.{create_invitation, has_token, invitation_row}
use ecotrack_api.Organisations.Names.{generate_unique_slug-free, has_org_slug}
use ecotrack_api.Organisations.Registration.{
  RegisterOrganisation, admin_invitation, appoint, insert_organisation, organisation_entry,
  organisation_row, set_up,
}
use ecotrack_api.Platform.Audit.{record_audit}
use ecotrack_api.Users.{has_email, is_user, member_row}
use ecotrack_api.Workflow.Positions.{IsContiguous, of_organisation}
use ecotrack_api.Workflow.Rules.{get_rules}
use ecotrack_api.Workflow.Stages.{seed_default_stages}
use ecotrack_api.Workflow.Stages.Seeding.{
  seed_default_stages-IsContiguous, seed_default_stages-Keeps,
}

-- The organisation is active, and has the name, the contact and the service area of the request.
pub record IsFounded (d : RegisterOrganisation) (o : OrganisationRow) : Type 0 where
  pub active : o.is_active ≡ true
  pub name : o.name ≡ d.name
  pub contact : (o.contact_email ≡ d.contact_email) × (o.description ≡ d.description)
  pub area : (o.service_area_center ≡ some d.center) × (o.service_area_radius_km ≡ some d.radius_km)

pub insert_organisation_effect :
    (d : RegisterOrganisation) (db db' : Db) (r : OrganisationRow)
    → insert_organisation d db ≡ ok (r, db')
    → (any (has_org_slug r.slug) db.organisations ≡ false)
      × (r.id ≡ db.next_id)
      × (db' ≡ record db { next_id = suc db.next_id; organisations = db.organisations ++ r ∷ [] })
      × IsFounded d r
unfolding insert_organisation
insert_organisation_effect d db db' r h =
    let (slug, e, free) = generate_unique_slug-free d.name db.organisations in
    let at : organisation_row db.clock db.next_id d slug ≡ r = ground arith in
    (
      rw⁻¹ at free,
      rw⁻¹ at refl,
      rw⁻¹ at (ground arith),
      rw⁻¹ at (record { active = refl; name = refl; contact = (refl, refl); area = (refl, refl) }),
    )

module _ {X : Type 0} (part : Db → X)
    (blind : (db : Db) (n : ℕ) (ss : List WorkflowStageRow)
      → part (record db { next_id = n; workflow_stages = ss }) ≡ part db)
    (blind' : (db : Db) (n : ℕ) (is : List IncidentRow) (rs : List WorkflowStageRuleRow)
        (ls : List AuditLogRow)
      → part (advanced_parts n is rs ls db) ≡ part db) where
  pub set_up-Keeps : (organisation_id user_id : ℕ) → Keeps part (set_up organisation_id user_id)
  unfolding set_up
  set_up-Keeps organisation_id user_id =
      Keeps->>= part (seed_default_stages organisation_id)
        (λ _. get_rules organisation_id >>= λ _.
          record_audit (organisation_entry organisation_id user_id "organisation.created"))
        (seed_default_stages-Keeps part blind organisation_id)
        (λ _.
          Keeps->>= part (get_rules organisation_id)
            (λ _. record_audit (organisation_entry organisation_id user_id "organisation.created"))
            (get_rules-Keeps part blind' organisation_id)
            (λ _. Keeps-execute part _ (λ db. blind' db _ _ _ _)))

-- The workflow that the set-up leaves.
pub set_up-IsContiguous :
    (organisation_id user_id : ℕ) (db db' : Db)
    → count_where (of_organisation organisation_id) db.workflow_stages ≡ 0
    → set_up organisation_id user_id db ≡ ok (tt, db')
    → (count_where (of_organisation organisation_id) db'.workflow_stages ≡ 5)
      × IsContiguous organisation_id db'.workflow_stages
unfolding set_up
set_up-IsContiguous organisation_id user_id db db' empty h =
    let (s, e, g) = >>=-eq-ok (seed_default_stages organisation_id) _ db h in
    let (t, f, g') = >>=-eq-ok (get_rules organisation_id) _ s.1 g in
    let same : db'.workflow_stages ≡ s.1.workflow_stages =
      let last : db'.workflow_stages ≡ t.1.workflow_stages = ground arith in
      last
      ∙ Keeps-eq (λ d. d.workflow_stages) (get_rules organisation_id)
          (get_rules-Keeps (λ d. d.workflow_stages) (λ d n is rs ls. refl) organisation_id) s.1 t.1
          t.0 f in
    rw same (seed_default_stages-IsContiguous organisation_id db s.1 s.0 empty e)

module _ {X : Type 0} (part : Db → X)
    (blind : (db : Db) (n : ℕ) (us : List UserRow) (is : List InvitationRow)
      → part (record db { next_id = n; users = us; invitations = is }) ≡ part db) where
  pub appoint-Keeps :
      (organisation_id : ℕ) (other : Option String) (user_id : ℕ) (token : String)
      → Keeps part (appoint organisation_id other user_id token)
  unfolding appoint create_invitation Keeps
  appoint-Keeps organisation_id none user_id token db db' r h =
      let e : db' ≡ record db {
        next_id = db.next_id;
        users =
            update_where (is_user user_id)
              (member_row db.clock (some organisation_id) UserRole.org_admin none) db.users;
        invitations = db.invitations;
      } =
        ground arith in
      ap part e ∙ blind db _ _ _
  appoint-Keeps organisation_id (some email) user_id token db db' r h =
      elim (Option-cases (find (has_email email) db.users)) [
        | inr (u, some') ↦
            let e : db' ≡ record db {
              next_id = db.next_id;
              users =
                  update_where (is_user u.id)
                    (member_row db.clock (some organisation_id) UserRole.org_admin none) db.users;
              invitations = db.invitations;
            } =
              ground arith in
            ap part e ∙ blind db _ _ _
        | inl none' ↦ elim (Bool-cases (any (has_token token) db.invitations)) [
          | inl clash ↦ absurd (ground arith)
          | inr free ↦
              let i =
                invitation_row db.clock db.next_id (admin_invitation organisation_id email user_id)
                  token in
              let e : db' ≡ record db {
                next_id = suc db.next_id;
                users = db.users;
                invitations = db.invitations ++ i ∷ [];
              } =
                ground arith in
              ap part e ∙ blind db _ _ _
        ]
      ]
