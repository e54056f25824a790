-- ===== src/Users/Provisioning.antt =====
-- `findOrProvisionByAuthSubject`, src/modules/users/users.service.ts: one account per identity.
use ecotrack_api.Common.{
  ==_refl, Bool, Bool-cases, List, Option-cases, String, [], any, any_of_none, arith, count_where,
  count_where-append, count_where-update_same, count_zero_of_any, eq_iff, false, find,
  find-update_same, find_holds, inl, inr, none, refl, some, str_eq, sym, true, update_where, ◌&&◌,
  ◌++◌, ◌∷◌, ◌≡◌, ◌≤◌, ◌⊎◌,
}
use ecotrack_api.Db.{Db, UserRow, ok}
use ecotrack_api.Users.{
  Claims, email_taken, find_or_provision, has_email, has_subject, is_user, new_user, provision_user,
  sync_user, synced_row,
}

str_same : (s t : String) → str_eq s t ≡ true → s ≡ t
str_same s t h = (eq_iff s t).0 h

subject_count-append :
    (s : String) (u : UserRow) (rows : List UserRow)
    → any (has_subject u.auth_subject) rows ≡ false
    → ((s : String) → count_where (has_subject s) rows ≤ 1)
    → count_where (has_subject s) (rows ++ u ∷ []) ≤ 1
unfolding count_where
subject_count-append s u rows absent h =
    rw (count_where-append (has_subject s) rows (u ∷ []))
      (elim (Bool-cases (str_eq u.auth_subject s)) [
        | inl same ↦
            let at : u.auth_subject ≡ s = str_same _ _ same in
            let absent' : any (has_subject s) rows ≡ false = rw⁻¹ at absent in
            ground (arith, count_zero_of_any (has_subject s) rows absent')
        | inr other ↦ ground (arith, h s)
      ])

-- What a successful call did, by the three branches of the source.
pub find_or_provision_effect :
    (c : Claims) (db db' : Db) (u : UserRow)
    → find_or_provision c db ≡ ok (u, db')
    → ((find (has_subject c.auth_subject) db.users ≡ some u)
        × (u.email ≡ c.email)
        × (u.full_name ≡ c.full_name)
        × (db' ≡ db))
      ⊎ (((v : UserRow) × (find (has_subject c.auth_subject) db.users ≡ some v)
            × (u ≡ synced_row db.clock c v)
            × (db'.users ≡ update_where (is_user v.id) (synced_row db.clock c) db.users))
          ⊎ ((find (has_subject c.auth_subject) db.users ≡ none)
              × (u ≡ new_user db.clock db.next_id c)
              × (db'.users ≡ db.users ++ u ∷ [])))
unfolding find_or_provision sync_user provision_user
find_or_provision_effect c db db' u h =
    elim (Option-cases (find (has_subject c.auth_subject) db.users)) [
      | inr (v, found) ↦
          elim (Bool-cases (str_eq v.email c.email && str_eq v.full_name c.full_name)) [
            | inl same ↦
                let e = str_same v.email c.email (ground arith) in
                let n = str_same v.full_name c.full_name (ground arith) in
                let at : v ≡ u = ground arith in
                inl (rw (found, at) refl, rw⁻¹ at e, rw⁻¹ at n, ground arith)
            | inr changed ↦ elim (Bool-cases (any (email_taken v.id c.email) db.users)) [
              | inl clash ↦ absurd (ground arith)
              | inr free ↦ inr (inl (v, found, ground arith, ground arith))
            ]
          ]
      | inl absent ↦ elim (Bool-cases (any (has_email c.email) db.users)) [
        | inl clash ↦ absurd (ground arith)
        | inr free ↦
            let at : new_user db.clock db.next_id c ≡ u = ground arith in
            inr (inr (absent, sym at, ground arith))
      ]
    ]

str_refl : (s : String) → str_eq s s ≡ true
str_refl s = (eq_iff s s).1 refl

-- An account that is found and carries the claims is returned as it is.
provisioned_already :
    (c : Claims) (db : Db) (u : UserRow)
    → find (has_subject c.auth_subject) db.users ≡ some u
    → u.email ≡ c.email
    → u.full_name ≡ c.full_name
    → find_or_provision c db ≡ ok (u, db)
unfolding find_or_provision
provisioned_already c db u found e n =
    let e' : str_eq u.email c.email ≡ true = rw e (str_refl c.email) in
    let n' : str_eq u.full_name c.full_name ≡ true = rw n (str_refl c.full_name) in ground arith

find-snoc :
    (p : UserRow → Bool) (rows : List UserRow) (u : UserRow)
    → find p rows ≡ none
    → p u ≡ true
    → find p (rows ++ u ∷ []) ≡ some u
unfolding find
find-snoc p [] u e h = rw h refl
find-snoc p (x ∷ xs) u e h = ground (arith, find-snoc p xs u)

-- A successful provisioning returns an account of the token's subject with the token's email and
-- name, and provisioning the same claims again returns that account and changes nothing.
pub find_or_provision-settles :
    (c : Claims) (db db' : Db) (u : UserRow)
    → find_or_provision c db ≡ ok (u, db')
    → (u.auth_subject ≡ c.auth_subject)
      × (u.email ≡ c.email)
      × (u.full_name ≡ c.full_name)
      × (find_or_provision c db' ≡ ok (u, db'))
find_or_provision-settles c db db' u h = elim (find_or_provision_effect c db db' u h) [
  | inl (found, e, n, same) ↦
      let s = str_same _ _ (find_holds (has_subject c.auth_subject) db.users found) in
      (s, e, n, rw same (provisioned_already c db u found e n))
  | inr (inl (v, found, at, users)) ↦
      let s = str_same _ _ (find_holds (has_subject c.auth_subject) db.users found) in
      let again : find (has_subject c.auth_subject) db'.users ≡ some u =
        rw (users, at)
          (find-update_same (has_subject c.auth_subject) (is_user v.id) (synced_row db.clock c)
            db.users (λ y. refl) found (==_refl v.id)) in
      (rw at s, rw at refl, rw at refl, provisioned_already c db' u again (rw at refl) (rw at refl))
  | inr (inr (absent, at, users)) ↦
      let again : find (has_subject c.auth_subject) db'.users ≡ some u = rw users (
        find-snoc (has_subject c.auth_subject) db.users u absent
          (rw at (str_refl c.auth_subject))) in
      (
        rw at refl,
        rw at refl,
        rw at refl,
        provisioned_already c db' u again (rw at refl) (rw at refl),
      )
]

-- A successful provisioning leaves at most one account for every subject, where there was at most
-- one before.
pub find_or_provision-one_account :
    (c : Claims) (db db' : Db) (u : UserRow)
    → ((s : String) → count_where (has_subject s) db.users ≤ 1)
    → find_or_provision c db ≡ ok (u, db')
    → (s : String) → count_where (has_subject s) db'.users ≤ 1
find_or_provision-one_account c db db' u one h s = elim (find_or_provision_effect c db db' u h) [
  | inl (found, e, n, same) ↦ rw same (one s)
  | inr (inl (v, found, at, users)) ↦
      rw
        (
          users,
          count_where-update_same (has_subject s) (is_user v.id) (synced_row db.clock c) db.users
              (λ y. refl),
        )
        (one s)
  | inr (inr (absent, at, users)) ↦
      let none' = any_of_none (has_subject c.auth_subject) db.users absent in
      rw users (subject_count-append s u db.users (rw at none') one)
]
