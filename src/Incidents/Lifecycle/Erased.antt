-- ===== src/Incidents/Lifecycle/Erased.antt =====
-- The deletion of an account (src/modules/users/users.service.ts), as the incidents see it: the
-- foreign keys to the account are set null.
use ecotrack_api.Common.{
  All-update_where, Bool-cases, Evolves-refl, Evolves-update_where, List, Option, Option-cases,
  UniqueBy-update_where, [], ap, arith, inl, inr, map, none, refl, some, true, update_where, ℕ, ◌<◌,
  ◌==◌, ◌∙◌, ◌∷◌, ◌≡◌, ◌≢◌, ◌⊎◌,
}
use ecotrack_api.Db.{Db, IncidentRow, ok}
use ecotrack_api.Incidents.Lifecycle.{IncidentsOk, IsSound, Kept, Later, Later-refl}
use ecotrack_api.Tasks.{user_by_id}
use ecotrack_api.Users.Deletion.{cleared, delete_account, erase_user, sees}
use ecotrack_api.Users.Erasure.{delete_account_effect, leave-Keeps}

abbrev pub without : ℕ → IncidentRow → IncidentRow
without id i = record i {
  reported_by_user_id = cleared id i.reported_by_user_id;
  claimed_by_user_id = cleared id i.claimed_by_user_id;
}

-- An UPDATE without a WHERE.
map-update_where :
    (f : IncidentRow → IncidentRow) (xs : List IncidentRow)
    → map f xs ≡ update_where (λ x. true) f xs
unfolding update_where
map-update_where f [] = refl
map-update_where f (x ∷ xs) = ap (λ ys. f x ∷ ys) (map-update_where f xs)

cleared-none : (id : ℕ) (x : Option ℕ) → x ≡ none → cleared id x ≡ none
cleared-none id none e = refl
cleared-none id (some y) e = absurd (cc)

cleared-kept : (id : ℕ) (x : Option ℕ) → cleared id x ≢ none → cleared id x ≡ x
cleared-kept id none ne = refl
cleared-kept id (some y) ne = elim (Bool-cases (y == id)) [
  | inl hit ↦ absurd (ne (rw hit refl))
  | inr miss ↦ rw miss refl
]

without-Later : (id : ℕ) (i : IncidentRow) → Later i (without id i)
without-Later id i = record {
  same_id = refl;
  reporter = cleared-kept id i.reported_by_user_id;
  kept_owner = λ _. refl;
  kept_claim = λ _. refl;
  terminal = λ ne e. (ne, e);
  version_grows = omega arith;
}

without-IsSound : (id : ℕ) (i : IncidentRow) → IsSound i → IsSound (without id i)
without-IsSound id i s = record {
  pooled = λ e.
      let (verdict, stage, claimant, at) = s.pooled e in
      (verdict, stage, cleared-none id i.claimed_by_user_id claimant, at);
  claimed = s.claimed;
  reasoned = s.reasoned;
  linked = s.linked;
}

nobody_deleted :
    (user_id : ℕ) (db db' : Db)
    → user_by_id user_id db ≡ none
    → delete_account user_id db ≡ ok (tt, db')
    → db' ≡ db
unfolding delete_account
nobody_deleted user_id db db' nobody h = ground arith

-- A successful `deleteAccount` finds no account and changes nothing, or clears the references to it.
delete_account-incidents :
    (user_id : ℕ) (db db' : Db)
    → delete_account user_id db ≡ ok (tt, db')
    → (db' ≡ db)
      ⊎ ((id : ℕ) × (db'.incidents ≡ map (without id) db.incidents) × (db'.next_id ≡ db.next_id))
unfolding erase_user
delete_account-incidents user_id db db' h = elim (Option-cases (user_by_id user_id db)) [
  | inl nobody ↦ inl (nobody_deleted user_id db db' nobody h)
  | inr (u, found) ↦
      let (db₁, _, left, at) = delete_account_effect user_id u db db' found h in
      let is =
        leave-Keeps (λ d. d.incidents) (λ d ws ts rs es. refl) (sees u) u.id u.organisation_id db
          db₁ left in
      let n =
        leave-Keeps (λ d. d.next_id) (λ d ws ts rs es. refl) (sees u) u.id u.organisation_id db db₁
          left in
      inr (u.id, rw at (ap (map (without u.id)) is), rw at n)
]

pub erased-Kept :
    (user_id : ℕ) (db db' : Db)
    → IncidentsOk db
    → delete_account user_id db ≡ ok (tt, db')
    → Kept db db'
erased-Kept user_id db db' s h = elim (delete_account-incidents user_id db db' h) [
  | inl same ↦ rw same (record { table = s; later = Evolves-refl Later Later-refl db.incidents })
  | inr (id, t, n) ↦
      let t' = t ∙ map-update_where (without id) db.incidents in
      record {
        table = record {
          unique = rw t' (
              UniqueBy-update_where (λ (i : IncidentRow). i.id) (λ i. true) (without id)
                db.incidents (λ y. refl) s.unique);
          fresh =
              rw (t', n)
                (All-update_where (λ (i : IncidentRow). i.id < db.next_id) (λ i. true) (without id)
                  db.incidents (λ a _ b. b) s.fresh);
          sound = rw t' (
              All-update_where IsSound (λ i. true) (without id) db.incidents
                (λ a _ b. without-IsSound id a b) s.sound);
        };
        later = rw t' (
            Evolves-update_where Later (λ i. true) (without id) Later-refl
              (λ y _. without-Later id y) db.incidents);
      }
]
