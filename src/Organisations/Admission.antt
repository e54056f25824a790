-- ===== src/Organisations/Admission.antt =====
-- Who an invite link admits, and which links admit nobody
-- (src/modules/organisations/invite-links.service.ts).
use ecotrack_api.Common.{
  ==_refl, Bool, List, Option, String, UniqueBy, [], any, ap, arith, eq_iff, false, find,
  find-own_key, find-update_same, find_holds, get_or, ltb, none, refl, some, str_eq, suc, sym, true,
  update_where, zero, ℕ, ◌*◌, ◌++◌, ◌+◌, ◌∙◌, ◌∷◌, ◌≡◌, ◌≢◌,
}
use ecotrack_api.Db.{
  >>=-eq-ok, Db, GeographyPoint, InviteLinkRow, OrganisationRow, UserRole, UserRow, err, ok,
}
use ecotrack_api.Incidents.Pool.{organisation_by_id}
use ecotrack_api.Organisations.InviteLinks.{
  accept, accept_check, find_by_token, generate, get_public_info, has_hash, is_exhausted, is_link,
  is_usable, link_revoked, new_link, redeem, revoke, revoke_row, use_row,
}
use ecotrack_api.Organisations.LinkHistory.{generate_effect, revoke_effect}
use ecotrack_api.Organisations.Redemption.{
  IsAdmissible, accept_check_effect, claim_use_effect, redeem_effect,
}
use ecotrack_api.Tasks.{user_by_id}
use ecotrack_api.Users.{is_user, member_row}

find-hash_snoc :
    (hash : String) (rows : List InviteLinkRow) (l : InviteLinkRow)
    → any (has_hash hash) rows ≡ false
    → has_hash hash l ≡ true
    → find (has_hash hash) (rows ++ l ∷ []) ≡ some l
unfolding find any
find-hash_snoc hash [] l h own = rw own refl
find-hash_snoc hash (x ∷ xs) l h own = ground (arith, find-hash_snoc hash xs l)

usable_found :
    (id : ℕ) (limit : Option ℕ) (l : InviteLinkRow)
    → l.id ≡ id
    → is_exhausted limit l.uses_count ≡ false
    → is_usable id limit l ≡ true
usable_found id none l e h = ground arith
usable_found id (some n) l e h = ground arith

str_refl : (s : String) → str_eq s s ≡ true
str_refl s = (eq_iff s s).1 refl

not_expired : (now : ℕ) (days : Option ℕ) → ltb (now + get_or days 7 * 86400000) now ≡ false
not_expired now none = ground arith
not_expired now (some n) = ground arith

not_used_up : (limit : Option ℕ) → limit ≢ some 0 → is_exhausted limit 0 ≡ false
not_used_up none h = refl
not_used_up (some zero) h = absurd (h refl)
not_used_up (some (suc n)) h = ground arith

module _ (hash_token : String → String) where
  joined :
      (token : String) (db : Db) (l : InviteLinkRow) (o : OrganisationRow)
      → find (has_hash (hash_token token)) db.invite_links ≡ some l
      → organisation_by_id l.organisation_id db ≡ some o
      → find_by_token hash_token token db ≡ some (l, o)
  unfolding find_by_token
  joined token db l o e f = ground arith

  public_info :
      (token : String) (db : Db) (l : InviteLinkRow) (o : OrganisationRow)
      → find_by_token hash_token token db ≡ some (l, o)
      → l.revoked_at ≡ none
      → ltb l.expires_at db.clock ≡ false
      → is_exhausted l.max_uses l.uses_count ≡ false
      → get_public_info hash_token token db
        ≡ ok (
          record {
            organisation_name = o.name;
            expired = false;
            revoked = false;
            exhausted = false;
          },
          db,
        )
  unfolding get_public_info
  public_info token db l o found valid current unused = rw (found, valid, current, unused) refl

  -- A link that generate has made for an organisation is found by its token: the public information
  -- gives the organisation's name and says that the link is not expired, not revoked and not used
  -- up, where its limit, if any, is at least one.
  pub generate-get_public_info :
      (organisation_id : ℕ) (token : String) (max_uses expires_in_days : Option ℕ) (user_id : ℕ)
      (org : OrganisationRow) (db db' : Db) (r : InviteLinkRow × String)
      → organisation_by_id organisation_id db ≡ some org
      → max_uses ≢ some 0
      → generate hash_token organisation_id token max_uses expires_in_days user_id db ≡ ok (r, db')
      → get_public_info hash_token r.1 db'
        ≡ ok (
          record {
            organisation_name = org.name;
            expired = false;
            revoked = false;
            exhausted = false;
          },
          db',
        )
  generate-get_public_info organisation_id token max_uses days user_id org db db' r known positive
        h =
      let (free, at, t, _, clock, orgs) =
        generate_effect hash_token organisation_id token max_uses days user_id db db' r h in
      let link =
        new_link db.clock db.next_id organisation_id (hash_token token) max_uses days user_id in
      let rows : db'.invite_links ≡ db.invite_links ++ link ∷ [] =
        t ∙ ap (λ p. db.invite_links ++ p.0 ∷ []) at in
      let found : find_by_token hash_token token db' ≡ some (link, org) =
        joined token db' link org
          (rw rows (
            find-hash_snoc (hash_token token) db.invite_links link free
              (str_refl (hash_token token))))
          (rw orgs known) in
      let name : r.1 ≡ token = ap (λ p. p.1) at in
      rw name (
        public_info token db' link org found refl (rw clock (not_expired db.clock days))
          (not_used_up max_uses positive))

  module _ (st_dwithin : GeographyPoint → GeographyPoint → ℕ → Bool) where
    -- A successful accept, where link identifiers are unique, passed every guard of a redemption,
    -- counted one use of the link, and makes the account, where it exists, a volunteer of the link's
    -- organisation.
    pub accept-admits :
        (token : String) (user_id : ℕ) (location : GeographyPoint) (db db' : Db) (r : ℕ × UserRole)
        → UniqueBy (λ (l : InviteLinkRow). l.id) db.invite_links
        → accept hash_token st_dwithin token user_id location db ≡ ok (r, db')
        → (link : InviteLinkRow) × IsAdmissible hash_token st_dwithin token user_id location link db
          × (r ≡ (link.organisation_id, UserRole.volunteer))
          × (find (is_link link.id) db'.invite_links ≡ some (use_row db.clock link))
          × ((u : UserRow)
              → user_by_id user_id db ≡ some u
              → user_by_id user_id db'
                ≡ some (
                    member_row db.clock
                      (some link.organisation_id)
                      UserRole.volunteer
                      (some location)
                      u))
    unfolding accept
    accept-admits token user_id location db db' r u h =
        let (s, e, g) =
          >>=-eq-ok (accept_check hash_token st_dwithin token user_id location) _ db h in
        let link = s.0 in
        let (same, open') =
          accept_check_effect hash_token st_dwithin token user_id location db s.1 link e in
        let done : redeem link user_id location db ≡ ok (r, db') =
          sym (ap (redeem link user_id location) same) ∙ g in
        let (db₁, c, links, users, _, at) = redeem_effect link user_id location db db' r done in
        let (_, claimed) = claim_use_effect link db db₁ c in
        let by_id =
          find-own_key (λ l. l.id) (has_hash (hash_token token)) db.invite_links u open'.found in
        let links' : db'.invite_links
            ≡ update_where (is_usable link.id link.max_uses) (use_row db.clock) db.invite_links =
          links ∙ ap (λ d. d.invite_links) claimed in
        let users' : db'.users
            ≡ update_where (is_user user_id)
                (member_row db.clock (some link.organisation_id) UserRole.volunteer (some location))
                db.users =
          users
          ∙ ap
              (λ d.
                update_where (is_user user_id)
                  (member_row d.clock (some link.organisation_id) UserRole.volunteer
                    (some location))
                  d.users)
              claimed in
        (
          link,
          open',
          at,
          rw links' (
              find-update_same (is_link link.id) (is_usable link.id link.max_uses)
                (use_row db.clock) db.invite_links (λ y. refl) by_id
                (usable_found link.id link.max_uses link refl open'.unused)),
          (λ u known. rw users' (
              find-update_same (is_user user_id) (is_user user_id)
                (member_row db.clock (some link.organisation_id) UserRole.volunteer (some location))
                db.users (λ y. refl) known (find_holds (is_user user_id) db.users known))),
        )

    check_revoked :
        (token : String) (user_id : ℕ) (location : GeographyPoint) (db : Db) (l : InviteLinkRow)
        (o : OrganisationRow) (at : ℕ)
        → find_by_token hash_token token db ≡ some (l, o)
        → l.revoked_at ≡ some at
        → accept_check hash_token st_dwithin token user_id location db ≡ err link_revoked
    unfolding accept_check
    check_revoked token user_id location db l o at found gone' = ground arith

    -- Once an organisation's revoke of a link has succeeded, accept with the token of that link fails
    -- for every account and place with the error for a revoked link, where the link's
    -- organisation exists.
    pub revoke-accept :
        (organisation_id id acting_user_id user_id : ℕ) (token : String) (location : GeographyPoint)
        (link : InviteLinkRow) (org : OrganisationRow) (db db' : Db) (r : InviteLinkRow)
        → find (has_hash (hash_token token)) db.invite_links ≡ some link
        → link.id ≡ id
        → organisation_by_id link.organisation_id db ≡ some org
        → revoke organisation_id id acting_user_id db ≡ ok (r, db')
        → accept hash_token st_dwithin token user_id location db' ≡ err link_revoked
    unfolding accept
    revoke-accept organisation_id id acting_user_id user_id token location link org db db' r found
          own known h =
        let (e, _, _, t, _, orgs) = revoke_effect organisation_id id acting_user_id db db' r h in
        let again : find (has_hash (hash_token token)) db'.invite_links
            ≡ some (revoke_row db.clock link) =
          rw t (
            find-update_same (has_hash (hash_token token)) (is_link id) (revoke_row db.clock)
              db.invite_links (λ y. refl) found (rw own (==_refl id))) in
        let whole = joined token db' (revoke_row db.clock link) org again (rw orgs known) in
        let denied =
          check_revoked token user_id location db' (revoke_row db.clock link) org db.clock whole
            refl in
        ground arith
