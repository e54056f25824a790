-- ===== src/Organisations/Redemption.antt =====
-- The limit on the uses of an invite link, src/modules/organisations/invite-links.service.ts.
use ecotrack_api.Common.{
  All, Bool, Bool-cases, List, Option, Option-cases, String, [], arith, false, find, inl, inr, ltb,
  none, refl, some, true, update_where, ℕ, ◌∷◌, ◌≡◌, ◌≤◌,
}
use ecotrack_api.Db.{>>=-eq-ok, Db, GeographyPoint, InviteLinkRow, OrganisationRow, UserRole, ok}
use ecotrack_api.Events.Capacity.{fits}
use ecotrack_api.Incidents.Pool.{organisation_by_id, service_area}
use ecotrack_api.Organisations.{assert_within, membership}
use ecotrack_api.Organisations.InviteLinks.{
  accept_check, claim_use, find_by_token, has_hash, is_exhausted, is_usable, redeem, use_row,
}
use ecotrack_api.Tasks.{user_by_id}
use ecotrack_api.Users.{is_user, member_row}

-- No link has been used more often than its limit.
abbrev pub IsWithinLimits : Db → Type 0
IsWithinLimits db = All (λ (l : InviteLinkRow). fits l.max_uses l.uses_count ≡ true) db.invite_links

used_fits :
    (now id : ℕ) (limit : Option ℕ) (l : InviteLinkRow)
    → l.max_uses ≡ limit
    → is_usable id limit l ≡ true
    → fits l.max_uses l.uses_count ≡ true
    → fits (use_row now l).max_uses (use_row now l).uses_count ≡ true
used_fits now id none l e hit h = rw e refl
used_fits now id (some limit) l e hit h = rw e (ground arith)

-- What a successful conditional UPDATE did.
pub claim_use_effect :
    (link : InviteLinkRow) (db db' : Db)
    → claim_use link db ≡ ok (tt, db')
    → ((l : InviteLinkRow) × (find (is_usable link.id link.max_uses) db.invite_links ≡ some l))
      × (db' ≡ record db {
        invite_links =
            update_where (is_usable link.id link.max_uses) (use_row db.clock) db.invite_links;
      })
unfolding claim_use
claim_use_effect link db db' h =
    elim (Option-cases (find (is_usable link.id link.max_uses) db.invite_links)) [
      | inl none' ↦ absurd (ground arith)
      | inr (l, some') ↦ ((l, some'), ground arith)
    ]

pub usable_id :
    (id : ℕ) (limit : Option ℕ) (l : InviteLinkRow) → is_usable id limit l ≡ true → l.id ≡ id
usable_id id none l h = ground arith
usable_id id (some limit) l h = ground arith

pub claim_use-IsWithinLimits :
    (link : InviteLinkRow) (db db' : Db)
    → All (λ (l : InviteLinkRow). l.id ≡ link.id → l.max_uses ≡ link.max_uses) db.invite_links
    → IsWithinLimits db
    → claim_use link db ≡ ok (tt, db')
    → IsWithinLimits db'
unfolding update_where
claim_use-IsWithinLimits link db db' same s h =
    let (_, at) = claim_use_effect link db db' h in rw at (go db.invite_links same s)
  where
    go :
        (rows : List InviteLinkRow)
        → All (λ (l : InviteLinkRow). l.id ≡ link.id → l.max_uses ≡ link.max_uses) rows
        → All (λ (l : InviteLinkRow). fits l.max_uses l.uses_count ≡ true) rows
        → All
            (λ (l : InviteLinkRow). fits l.max_uses l.uses_count ≡ true)
            (update_where (is_usable link.id link.max_uses) (use_row db.clock) rows)
    go [] e s = tt
    go (l ∷ rows) e s = elim (Bool-cases (is_usable link.id link.max_uses l)) [
      | inl hit ↦
          let limit = e.0 (usable_id link.id link.max_uses l hit) in
          rw hit (used_fits db.clock link.id link.max_uses l limit hit s.0, go rows e.1 s.1)
      | inr miss ↦ rw miss (s.0, go rows e.1 s.1)
    ]

pub redeem_effect :
    (link : InviteLinkRow) (user_id : ℕ) (location : GeographyPoint) (db db' : Db)
    (r : ℕ × UserRole)
    → redeem link user_id location db ≡ ok (r, db')
    → (db₁ : Db) × (claim_use link db ≡ ok (tt, db₁))
      × (db'.invite_links ≡ db₁.invite_links)
      × (db'.users
          ≡ update_where
              (is_user user_id)
              (member_row db₁.clock (some link.organisation_id) UserRole.volunteer (some location))
              db₁.users)
      × (db₁.next_id ≤ db'.next_id)
      × (r ≡ (link.organisation_id, UserRole.volunteer))
unfolding redeem
redeem_effect link user_id location db db' r h =
    let (s, e, g) = >>=-eq-ok (claim_use link) _ db h in
    (s.1, e, ground arith, ground arith, ground arith, ground arith)

module _ (hash_token : String → String) where
  found_link :
      (token : String) (db : Db) (p : InviteLinkRow × OrganisationRow)
      → find_by_token hash_token token db ≡ some p
      → (find (has_hash (hash_token token)) db.invite_links ≡ some p.0)
        × (organisation_by_id p.0.organisation_id db ≡ some p.1)
  unfolding find_by_token
  found_link token db p h =
      elim (Option-cases (find (has_hash (hash_token token)) db.invite_links)) [
        | inl none' ↦ absurd (ground arith)
        | inr (l, some') ↦ elim (Option-cases (organisation_by_id l.organisation_id db)) [
          | inl none'' ↦ absurd (ground arith)
          | inr (o, some'') ↦ let e : (l, o) ≡ p = ground arith in rw⁻¹ e (some', some'')
        ]
      ]

  module _ (st_dwithin : GeographyPoint → GeographyPoint → ℕ → Bool) where
    -- The guards of a redemption: the link is there, not revoked, not expired and not used up, the
    -- place is in the organisation's service area, and the account belongs to no organisation.
    pub record IsAdmissible (token : String) (user_id : ℕ) (location : GeographyPoint)
        (link : InviteLinkRow) (db : Db) : Type 0 where
      pub found : find (has_hash (hash_token token)) db.invite_links ≡ some link
      pub valid : link.revoked_at ≡ none
      pub current : ltb link.expires_at db.clock ≡ false
      pub unused : is_exhausted link.max_uses link.uses_count ≡ false
      pub near :
          (org : OrganisationRow) × (c : GeographyPoint × ℕ) × (organisation_by_id
              link.organisation_id db
            ≡ some org)
          × (service_area (some org) ≡ some c)
          × (st_dwithin location c.0 c.1 ≡ true)
      pub unattached : membership (user_by_id user_id db) ≡ none

    pub accept_check_effect :
        (token : String) (user_id : ℕ) (location : GeographyPoint) (db db' : Db)
        (link : InviteLinkRow)
        → accept_check hash_token st_dwithin token user_id location db ≡ ok (link, db')
        → (db' ≡ db) × IsAdmissible token user_id location link db
    unfolding accept_check assert_within
    accept_check_effect token user_id location db db' link h =
        elim (Option-cases (find_by_token hash_token token db)) [
          | inl none' ↦ absurd (ground arith)
          | inr ((l, o), some') ↦ elim (Option-cases l.revoked_at) [
            | inr (_, rev) ↦ absurd (ground arith)
            | inl valid ↦ elim (Bool-cases (ltb l.expires_at db.clock)) [
              | inl late ↦ absurd (ground arith)
              | inr current ↦ elim (Bool-cases (is_exhausted l.max_uses l.uses_count)) [
                | inl used ↦ absurd (ground arith)
                | inr unused ↦ elim (Option-cases (service_area (some o))) [
                  | inl none'' ↦ absurd (ground arith)
                  | inr (c, area') ↦ elim (Bool-cases (st_dwithin location c.0 c.1)) [
                    | inr far ↦ absurd (ground arith)
                    | inl near ↦ elim (Option-cases (membership (user_by_id user_id db))) [
                      | inr (_, m) ↦ absurd (ground arith)
                      | inl unattached ↦
                          let at : l ≡ link = ground arith in
                          let (found, org) = found_link token db (l, o) some' in
                          (
                            ground arith,
                            rw⁻¹ at (record {
                              found = found;
                              valid = valid;
                              current = current;
                              unused = unused;
                              near = (o, c, org, area', near);
                              unattached = unattached;
                            }),
                          )
                    ]
                  ]
                ]
              ]
            ]
          ]
        ]
