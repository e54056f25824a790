-- ===== src/Organisations/Limits.antt =====
-- The limit on the uses of an invite link over any sequence of writes, for redemptions whose checks
-- and writes interleave (src/modules/organisations/invite-links.service.ts).
use ecotrack_api.Common.{
  All-append, All-found_only, All-map, All-update_where, Bool, Evolves-append, Evolves-find,
  Evolves-refl, Evolves-trans, Evolves-update_where, Option, String, UniqueBy-snoc,
  UniqueBy-update_where, [], ap, arith, find, find-own_key, none, refl, some, true, update_where, ℕ,
  ◌++◌, ◌<◌, ◌∙◌, ◌∷◌, ◌≡◌, ◌≤◌,
}
use ecotrack_api.Db.{Db, GeographyPoint, InviteLinkRow, UserRole, ok}
use ecotrack_api.Events.Capacity.{fits}
use ecotrack_api.Organisations.InviteLinks.{
  accept_check, has_hash, is_link, is_usable, redeem, revoke_row, use_row,
}
use ecotrack_api.Organisations.LinkHistory.{
  IsSnapshot, LinkReach, LinkStep, LinksKept, LinksOk, SameLimit, generate_effect, revoke_effect,
}
use ecotrack_api.Organisations.Redemption.{
  IsWithinLimits, accept_check_effect, claim_use-IsWithinLimits, claim_use_effect, redeem_effect,
}

updated-LinksKept :
    (db db' : Db) (p : InviteLinkRow → Bool) (f : InviteLinkRow → InviteLinkRow)
    → ((l : InviteLinkRow) → (f l).id ≡ l.id)
    → ((l : InviteLinkRow) → (f l).max_uses ≡ l.max_uses)
    → db'.invite_links ≡ update_where p f db.invite_links
    → db.next_id ≤ db'.next_id
    → IsWithinLimits db'
    → LinksOk db
    → LinksKept db db'
updated-LinksKept db db' p f same_id same_limit t n w s = record {
  table = record {
    unique = rw t (UniqueBy-update_where (λ l. l.id) p f db.invite_links same_id s.unique);
    fresh = rw t (
        All-update_where (λ l. l.id < db'.next_id) p f db.invite_links
          (λ l hit lt. rw (same_id l) lt)
          (All-map _ _ (λ l lt. omega arith) db.invite_links s.fresh));
    within = w;
  };
  limits = rw t (
      Evolves-update_where SameLimit p f (λ l. (refl, refl)) (λ l hit. (same_id l, same_limit l))
        db.invite_links);
}

appended-LinksKept :
    (db db' : Db) (l : InviteLinkRow)
    → db'.invite_links ≡ db.invite_links ++ l ∷ []
    → l.id ≡ db.next_id
    → fits l.max_uses l.uses_count ≡ true
    → db.next_id < db'.next_id
    → LinksOk db
    → LinksKept db db'
appended-LinksKept db db' l t own fit lt s = record {
  table = record {
    unique = rw t (
        UniqueBy-snoc (λ x. x.id) db.invite_links l s.unique
          (All-map _ _ (λ x below e. absurd (omega arith)) db.invite_links s.fresh));
    fresh = rw t (
        All-append (λ x. x.id < db'.next_id) db.invite_links (l ∷ [])
          (All-map _ _ (λ x below. omega arith) db.invite_links s.fresh) (omega arith, tt));
    within = rw t (
        All-append (λ x. fits x.max_uses x.uses_count ≡ true) db.invite_links (l ∷ []) s.within
          (fit, tt));
  };
  limits = rw t (Evolves-append SameLimit (λ x. (refl, refl)) db.invite_links (l ∷ []));
}

fits_unused : (limit : Option ℕ) → fits limit 0 ≡ true
fits_unused none = refl
fits_unused (some n) = ground arith

redeemed-LinksKept :
    (link : InviteLinkRow) (user_id : ℕ) (location : GeographyPoint) (db db' : Db)
    (r : ℕ × UserRole)
    → IsSnapshot link db
    → redeem link user_id location db ≡ ok (r, db')
    → LinksOk db
    → LinksKept db db'
redeemed-LinksKept link user_id location db db' r snap h s =
    let (db₁, e, links, _, n, _) = redeem_effect link user_id location db db' r h in
    let (_, at) = claim_use_effect link db db₁ e in
    let t : db'.invite_links
        ≡ update_where (is_usable link.id link.max_uses) (use_row db.clock) db.invite_links =
      links ∙ ap (λ d. d.invite_links) at in
    let m : db₁.next_id ≡ db.next_id = ap (λ d. d.next_id) at in
    updated-LinksKept db db' (is_usable link.id link.max_uses) (use_row db.clock) (λ l. refl)
      (λ l. refl) t (omega arith) (rw links (claim_use-IsWithinLimits link db db₁ snap s.within e))
      s

-- Each single write keeps the table sound and every link's limit.
LinkStep-Kept :
    (hash_token : String → String) (db db' : Db)
    → LinkStep hash_token db db'
    → LinksOk db
    → LinksKept db db'
LinkStep-Kept hash_token db db' (LinkStep.generated organisation_id token max_uses days user_id r h)
      s =
    let (_, at, t, n, _, _) =
      generate_effect hash_token organisation_id token max_uses days user_id db db' r h in
    appended-LinksKept db db' r.0 t (rw at refl) (rw at (fits_unused max_uses)) n s
LinkStep-Kept hash_token db db' (LinkStep.revoked organisation_id id user_id r h) s =
    let (e, _, _, t, n, _) = revoke_effect organisation_id id user_id db db' r h in
    updated-LinksKept db db' (is_link id) (revoke_row db.clock) (λ l. refl) (λ l. refl) t
      (omega arith)
      (rw t (
        All-update_where (λ l. fits l.max_uses l.uses_count ≡ true) (is_link id)
          (revoke_row db.clock) db.invite_links (λ l hit w. w) s.within))
      s
LinkStep-Kept hash_token db db' (LinkStep.redeemed link user_id location r snap h) s =
    redeemed-LinksKept link user_id location db db' r snap h s
LinkStep-Kept hash_token db db' (LinkStep.elsewhere t n) s = record {
  table = record {
    unique = rw t s.unique;
    fresh = rw t (All-map _ _ (λ l lt. omega arith) db.invite_links s.fresh);
    within = rw t s.within;
  };
  limits = rw t (Evolves-refl SameLimit (λ l. (refl, refl)) db.invite_links);
}

LinkReach-Kept :
    (hash_token : String → String) {db db' : Db}
    → LinkReach hash_token db db'
    → LinksOk db
    → LinksKept db db'
LinkReach-Kept hash_token {db} LinkReach.here s = record {
  table = s;
  limits = Evolves-refl SameLimit (λ l. (refl, refl)) db.invite_links;
}
LinkReach-Kept hash_token {db} {db'} (LinkReach.next {db₁} {db₂} reach step) s =
    let before = LinkReach-Kept hash_token reach s in
    let after = LinkStep-Kept hash_token db₁ db₂ step before.table in
    record {
      table = after.table;
      limits =
          Evolves-trans SameLimit (λ x y z p q. (q.0 ∙ p.0, q.1 ∙ p.1)) db.invite_links
            db₁.invite_links db₂.invite_links before.limits after.limits;
    }

-- A link that a check has read still has its row's limit after any writes.
LinkReach-IsSnapshot :
    (hash_token : String → String) (p : InviteLinkRow → Bool) (link : InviteLinkRow) (db db' : Db)
    → LinksOk db
    → find p db.invite_links ≡ some link
    → LinkReach hash_token db db'
    → IsSnapshot link db'
LinkReach-IsSnapshot hash_token p link db db' s found reach =
    let kept = LinkReach-Kept hash_token reach s in
    let by_id = find-own_key (λ l. l.id) p db.invite_links s.unique found in
    let (b, there, same) =
      Evolves-find SameLimit (λ l. l.id) link.id (λ x y q. q.0) db.invite_links db'.invite_links
        kept.limits by_id in
    All-map _ _ (λ l only e. ap (λ x. x.max_uses) (only e) ∙ same.1) db'.invite_links
      (All-found_only (λ l. l.id) link.id db'.invite_links kept.table.unique there)

-- From a sound table of invite links on, whatever generations, revocations and redemptions come
-- between the checks of an acceptance and its writes, the acceptance leaves no link used more often
-- than its limit.
pub accept-IsWithinLimits :
    (hash_token : String → String) (st_dwithin : GeographyPoint → GeographyPoint → ℕ → Bool)
    (token : String) (user_id : ℕ) (location : GeographyPoint) (link : InviteLinkRow)
    (db db₁ db₂ : Db) (r : ℕ × UserRole)
    → LinksOk db
    → accept_check hash_token st_dwithin token user_id location db ≡ ok (link, db)
    → LinkReach hash_token db db₁
    → redeem link user_id location db₁ ≡ ok (r, db₂)
    → IsWithinLimits db₂
accept-IsWithinLimits hash_token st_dwithin token user_id location link db db₁ db₂ r s c reach h =
    let (_, open') =
      accept_check_effect hash_token st_dwithin token user_id location db db link c in
    let snap =
      LinkReach-IsSnapshot hash_token (has_hash (hash_token token)) link db db₁ s open'.found
        reach in
    (redeemed-LinksKept link user_id location db₁ db₂ r snap h
      (LinkReach-Kept hash_token reach s).table).table.within
