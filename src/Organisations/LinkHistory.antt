-- ===== src/Organisations/LinkHistory.antt =====
-- The writes that invite links see, one at a time and in sequence, and what a generation and a
-- revocation change (src/modules/organisations/invite-links.service.ts).
use ecotrack_api.Common.{
  All, Bool-cases, Evolves, Option, Option-cases, String, UniqueBy, [], any, arith, false, find,
  inl, inr, some, sym, update_where, ℕ, ◌++◌, ◌<◌, ◌∷◌, ◌≡◌, ◌≤◌,
}
use ecotrack_api.Db.{Db, GeographyPoint, InviteLinkRow, UserRole, ok}
use ecotrack_api.Organisations.InviteLinks.{
  generate, has_hash, is_link, is_scoped_link, new_link, redeem, revoke, revoke_row,
}
use ecotrack_api.Organisations.Redemption.{IsWithinLimits}

-- What no write to an invite link changes.
abbrev pub SameLimit : InviteLinkRow → InviteLinkRow → Type 0
SameLimit a b = (b.id ≡ a.id) × (b.max_uses ≡ a.max_uses)

-- A link that was read has the limit that its row still has.
abbrev pub IsSnapshot : InviteLinkRow → Db → Type 0
IsSnapshot link db =
    All (λ (l : InviteLinkRow). l.id ≡ link.id → l.max_uses ≡ link.max_uses) db.invite_links

-- Identifiers are unique and handed out, and no link is used beyond its limit.
pub record LinksOk (db : Db) : Type 0 where
  pub unique : UniqueBy (λ (l : InviteLinkRow). l.id) db.invite_links
  pub fresh : All (λ (l : InviteLinkRow). l.id < db.next_id) db.invite_links
  pub within : IsWithinLimits db

-- One successful write. A redemption is the part of `accept` from the conditional UPDATE on, with
-- the link that an earlier check has read.
pub data LinkStep (hash_token : String → String) (db db' : Db) : Type 0 where
  generated :
      (organisation_id : ℕ) (token : String) (max_uses expires_in_days : Option ℕ) (user_id : ℕ)
      (r : InviteLinkRow × String)
      → generate hash_token organisation_id token max_uses expires_in_days user_id db ≡ ok (r, db')
      → LinkStep hash_token db db'
  revoked :
      (organisation_id id user_id : ℕ) (r : InviteLinkRow)
      → revoke organisation_id id user_id db ≡ ok (r, db')
      → LinkStep hash_token db db'
  redeemed :
      (link : InviteLinkRow) (user_id : ℕ) (location : GeographyPoint) (r : ℕ × UserRole)
      → IsSnapshot link db
      → redeem link user_id location db ≡ ok (r, db')
      → LinkStep hash_token db db'
  elsewhere :
      db'.invite_links ≡ db.invite_links → db.next_id ≤ db'.next_id → LinkStep hash_token db db'

pub data LinkReach (hash_token : String → String) (db : Db) : Db → Type 0 where
  here : LinkReach hash_token db db
  next :
      {db₁ db₂ : Db}
      → LinkReach hash_token db db₁
      → LinkStep hash_token db₁ db₂
      → LinkReach hash_token db db₂

-- What the writes keep.
pub record LinksKept (db db' : Db) : Type 0 where
  pub table : LinksOk db'
  pub limits : Evolves SameLimit db.invite_links db'.invite_links

pub generate_effect :
    (hash_token : String → String) (organisation_id : ℕ) (token : String)
    (max_uses expires_in_days : Option ℕ) (user_id : ℕ) (db db' : Db) (r : InviteLinkRow × String)
    → generate hash_token organisation_id token max_uses expires_in_days user_id db ≡ ok (r, db')
    → (any (has_hash (hash_token token)) db.invite_links ≡ false)
      × (r ≡ (
        new_link db.clock db.next_id organisation_id
            (hash_token token)
            max_uses
            expires_in_days
            user_id,
        token,
      ))
      × (db'.invite_links ≡ db.invite_links ++ r.0 ∷ [])
      × (db.next_id < db'.next_id)
      × (db'.clock ≡ db.clock)
      × (db'.organisations ≡ db.organisations)
unfolding generate
generate_effect hash_token organisation_id token max_uses expires_in_days user_id db db' r h =
    elim (Bool-cases (any (has_hash (hash_token token)) db.invite_links)) [
      | inl clash ↦ absurd (ground arith)
      | inr free ↦
          let at : (
            new_link db.clock db.next_id organisation_id (hash_token token) max_uses expires_in_days
                user_id,
            token,
          )
              ≡ r =
            ground arith in
          (free, sym at, ground arith, ground arith, ground arith, ground arith)
    ]

pub revoke_effect :
    (organisation_id id user_id : ℕ) (db db' : Db) (r : InviteLinkRow)
    → revoke organisation_id id user_id db ≡ ok (r, db')
    → (e : InviteLinkRow) × (find (is_scoped_link organisation_id id) db.invite_links ≡ some e)
      × (r ≡ revoke_row db.clock e)
      × (db'.invite_links ≡ update_where (is_link id) (revoke_row db.clock) db.invite_links)
      × (db.next_id < db'.next_id)
      × (db'.organisations ≡ db.organisations)
unfolding revoke
revoke_effect organisation_id id user_id db db' r h =
    elim (Option-cases (find (is_scoped_link organisation_id id) db.invite_links)) [
      | inl none' ↦ absurd (ground arith)
      | inr (e, some') ↦ (e, some', ground arith, ground arith, ground arith, ground arith)
    ]
