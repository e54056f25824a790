-- ===== src/Organisations/Resolution.antt =====
-- `updateStatus` of a join request, src/modules/organisations/join-requests.service.ts.
use ecotrack_api.Common.{
  All-found_only, All-map, Bool, Bool-cases, List, Option-cases, UniqueBy, ap, arith,
  count_where-update_le, false, find, find-UniqueBy, find-update_same, find_holds, inl, inr, none,
  refl, some, sym, true, update_where, ℕ, ◌∙◌, ◌≡◌,
}
use ecotrack_api.Db.{Db, JoinRequestRow, UserRole, UserRow, err, ok}
use ecotrack_api.Organisations.{membership}
use ecotrack_api.Organisations.JoinRequests.{
  assert_free, decision, is_open, is_request, is_scoped_request, is_standing, request_resolved,
  resolved_row, update_request,
}
use ecotrack_api.Organisations.Requests.{OneStanding}
use ecotrack_api.Tasks.{user_by_id}
use ecotrack_api.Users.{is_user, member_row}

abbrev pub users_after : ℕ → Bool → JoinRequestRow → Db → List UserRow
users_after organisation_id true j db =
    update_where (is_user j.user_id)
      (member_row db.clock (some organisation_id) UserRole.volunteer none) db.users
users_after organisation_id false j db = db.users

update_request_effect :
    (organisation_id request_id : ℕ) (approve : Bool) (acting_user_id : ℕ) (db db' : Db)
    (r : JoinRequestRow)
    → update_request organisation_id request_id approve acting_user_id db ≡ ok (r, db')
    → (j : JoinRequestRow) × (find (is_scoped_request organisation_id request_id) db.join_requests
        ≡ some j)
      × (is_open j.status ≡ true)
      × (approve ≡ true → membership (user_by_id j.user_id db) ≡ none)
      × (r ≡ resolved_row db.clock approve j)
      × (db'.join_requests
          ≡ update_where (is_request request_id) (resolved_row db.clock approve) db.join_requests)
      × (db'.users ≡ users_after organisation_id approve j db)
unfolding update_request assert_free
update_request_effect organisation_id request_id approve acting_user_id db db' r h =
    elim (Option-cases (find (is_scoped_request organisation_id request_id) db.join_requests)) [
      | inl none' ↦ absurd (ground arith)
      | inr (j, found) ↦ elim (Bool-cases (is_open j.status)) [
        | inr resolved ↦ absurd (ground arith)
        | inl open' ↦ elim (Bool-cases approve) [
          | inl yes' ↦ elim (Option-cases (membership (user_by_id j.user_id db))) [
            | inr (_, m) ↦ absurd (ground arith)
            | inl free ↦ (j, found, open', (λ _. free), ground arith, ground arith, ground arith)
          ]
          | inr no' ↦ (
            j,
            found,
            open',
            (λ e. absurd (ground arith)),
            ground arith,
            ground arith,
            ground arith,
          )
        ]
      ]
    ]

closed_request :
    (organisation_id request_id : ℕ) (approve : Bool) (acting_user_id : ℕ) (db : Db)
    (j : JoinRequestRow)
    → find (is_scoped_request organisation_id request_id) db.join_requests ≡ some j
    → is_open j.status ≡ false
    → update_request organisation_id request_id approve acting_user_id db ≡ err request_resolved
unfolding update_request
closed_request organisation_id request_id approve acting_user_id db j found closed = ground arith

decided : (approve : Bool) → is_open (decision approve) ≡ false
decided true = refl
decided false = refl

-- A successful updateStatus found a pending request of the organisation and leaves it approved or
-- rejected as asked; an approval is of an account without an organisation and makes it a volunteer of
-- this one, a rejection changes no account; and every further updateStatus of the request by the
-- organisation fails with the error for a resolved request.
pub update_request-resolves :
    (organisation_id request_id : ℕ) (approve : Bool) (acting_user_id : ℕ) (db db' : Db)
    (r : JoinRequestRow)
    → update_request organisation_id request_id approve acting_user_id db ≡ ok (r, db')
    → (j : JoinRequestRow) × (find (is_scoped_request organisation_id request_id) db.join_requests
        ≡ some j)
      × (is_open j.status ≡ true)
      × (r ≡ resolved_row db.clock approve j)
      × (find (is_scoped_request organisation_id request_id) db'.join_requests ≡ some r)
      × (approve ≡ true → membership (user_by_id j.user_id db) ≡ none)
      × (db'.users ≡ users_after organisation_id approve j db)
      × ((again : Bool) (other : ℕ)
          → update_request organisation_id request_id again other db' ≡ err request_resolved)
update_request-resolves organisation_id request_id approve acting_user_id db db' r h =
    let (j, found, open', free, at, rows, users) =
      update_request_effect organisation_id request_id approve acting_user_id db db' r h in
    let own = find_holds (is_scoped_request organisation_id request_id) db.join_requests found in
    let there : find (is_scoped_request organisation_id request_id) db'.join_requests
        ≡ some (resolved_row db.clock approve j) =
      rw rows (
        find-update_same (is_scoped_request organisation_id request_id) (is_request request_id)
          (resolved_row db.clock approve) db.join_requests (λ y. refl) found (ground arith)) in
    (
      j,
      found,
      open',
      at,
      there ∙ ap some (sym at),
      free,
      users,
      (λ again other.
          closed_request organisation_id request_id again other db'
            (resolved_row db.clock approve j) there (decided approve)),
    )

still_standing :
    (now organisation_id user_id : ℕ) (approve : Bool) (j : JoinRequestRow)
    → is_open j.status ≡ true
    → is_standing organisation_id user_id (resolved_row now approve j) ≡ true
    → is_standing organisation_id user_id j ≡ true
still_standing now organisation_id user_id approve j open' h = ground arith

-- A successful updateStatus leaves every account with at most one request to an organisation that is
-- not rejected, where it had at most one and request identifiers are unique.
pub update_request-OneStanding :
    (organisation_id request_id : ℕ) (approve : Bool) (acting_user_id : ℕ) (db db' : Db)
    (r : JoinRequestRow)
    → UniqueBy (λ (j : JoinRequestRow). j.id) db.join_requests
    → OneStanding db
    → update_request organisation_id request_id approve acting_user_id db ≡ ok (r, db')
    → OneStanding db'
update_request-OneStanding organisation_id request_id approve acting_user_id db db' r u one h o v =
    let (j, found, open', _, _, rows, _) =
      update_request_effect organisation_id request_id approve acting_user_id db db' r h in
    let only =
      All-found_only (λ x. x.id) request_id db.join_requests u
        (find-UniqueBy (λ x. x.id) request_id (is_scoped_request organisation_id request_id)
          db.join_requests u (λ y p. ground arith) found) in
    let fewer =
      count_where-update_le (is_standing o v) (is_request request_id)
        (resolved_row db.clock approve) db.join_requests
        (All-map _ _
          (λ y same hit after.
            let e : y ≡ j = same (ground arith) in
            still_standing db.clock o v approve y (rw e open') after)
          db.join_requests only) in
    rw rows (omega (arith, fewer, one o v))
