-- ===== src/Organisations/Requests.antt =====
-- The states of a join request, src/modules/organisations/join-requests.service.ts.
use ecotrack_api.Common.{
  Bool, Bool-cases, List, Option, Option-cases, String, [], any, ap, arith, count_where,
  count_where-append, count_zero_of_any, false, find, inl, inr, map, none, refl, some, sym, ℕ, ◌++◌,
  ◌<>◌, ◌∙◌, ◌∷◌, ◌≡◌, ◌≤◌,
}
use ecotrack_api.Db.{
  >>=-eq-ok, Db, GeographyPoint, JoinRequestRow, JoinRequestStatus, Keeps, Keeps-eq, Keeps-for_each,
  NotificationType, OrganisationRow, Request, UserRole, UserRow, for_each, ok, ◌>>◌,
}
use ecotrack_api.Incidents.Pool.{organisation_by_id, service_area}
use ecotrack_api.Members.{PublicMember, members, public_member}
use ecotrack_api.Organisations.{assert_within, membership}
use ecotrack_api.Organisations.JoinRequests.{
  announce_request, assert_eligible, insert_request, is_request_of, is_standing, name_or,
  new_request, request_entry, request_notice, stands, submit,
}
use ecotrack_api.Platform.Audit.{record_audit}
use ecotrack_api.Platform.Notifications.{Notice, notify}
use ecotrack_api.Tasks.{user_by_id}
use ecotrack_api.Users.{set_home_location}

-- Every account has at most one request to an organisation that is not rejected.
abbrev pub OneStanding : Db → Type 0
OneStanding db =
    (organisation_id user_id : ℕ)
    → count_where (is_standing organisation_id user_id) db.join_requests ≤ 1

-- What a successful insertion did.
insert_request_effect :
    (organisation_id user_id : ℕ) (message : Option String) (db db' : Db) (r : JoinRequestRow)
    → insert_request organisation_id user_id message db ≡ ok (r, db')
    → (any (is_standing organisation_id user_id) db.join_requests ≡ false)
      × (r ≡ new_request db.clock db.next_id organisation_id user_id message)
      × (db'.join_requests ≡ db.join_requests ++ r ∷ [])
unfolding insert_request
insert_request_effect organisation_id user_id message db db' r h =
    elim (Bool-cases (stands (find (is_request_of organisation_id user_id) db.join_requests))) [
      | inl earlier ↦ absurd (ground arith)
      | inr clear ↦ elim (Bool-cases (any (is_standing organisation_id user_id) db.join_requests)) [
        | inl clash ↦ absurd (ground arith)
        | inr free ↦
            let at : new_request db.clock db.next_id organisation_id user_id message ≡ r =
              ground arith in
            (free, sym at, ground arith)
      ]
    ]

notify-requests : (n : Notice) → Keeps (λ db. db.join_requests) (notify n)
unfolding Keeps
notify-requests n db db' t h = ground arith

announce-requests :
    (org : OrganisationRow) (user : Option UserRow) (user_id : ℕ) (created : JoinRequestRow)
    (location : GeographyPoint) (db db' : Db)
    → announce_request org user user_id created location db ≡ ok (tt, db')
    → db'.join_requests ≡ db.join_requests
unfolding announce_request
announce-requests org user user_id created location db db' h =
    let admins = map public_member (members org.id (some UserRole.org_admin) db) in
    let body : PublicMember → Request (Unit {0}) = λ a. notify (
      request_notice org.id a.id created.id NotificationType.join_request_submitted
        "New volunteer join request"
        (name_or user "A citizen" <> " wants to join " <> org.name <> ".")) in
    let (s, e, g) =
      >>=-eq-ok (for_each admins body)
        (λ _.
          record_audit (request_entry org.id user_id "join_request.submitted" created.id)
          >> set_home_location user_id location)
        db h in
    let rest : db'.join_requests ≡ s.1.join_requests = ground arith in
    rest
    ∙ Keeps-eq (λ d. d.join_requests) (for_each admins body)
        (Keeps-for_each (λ d. d.join_requests) admins body (λ a. notify-requests _)) db s.1 tt e

assert_eligible_effect :
    (st_dwithin : GeographyPoint → GeographyPoint → ℕ → Bool) (user_id organisation_id : ℕ)
    (location : GeographyPoint) (db db' : Db) (r : OrganisationRow × Option UserRow)
    → assert_eligible st_dwithin user_id organisation_id location db ≡ ok (r, db')
    → (db' ≡ db) × (membership (user_by_id user_id db) ≡ none)
unfolding assert_eligible assert_within
assert_eligible_effect st_dwithin user_id organisation_id location db db' r h =
    elim (Option-cases (organisation_by_id organisation_id db)) [
      | inl none' ↦ absurd (ground arith)
      | inr (o, some') ↦ elim (Option-cases (service_area (some o))) [
        | inl none'' ↦ absurd (ground arith)
        | inr (c, area') ↦ elim (Bool-cases (st_dwithin location c.0 c.1)) [
          | inr far ↦ absurd (ground arith)
          | inl near ↦ elim (Option-cases (membership (user_by_id user_id db))) [
            | inr (_, m) ↦ absurd (ground arith)
            | inl unattached ↦ (ground arith, unattached)
          ]
        ]
      ]
    ]

pub submit_effect :
    (st_dwithin : GeographyPoint → GeographyPoint → ℕ → Bool) (user_id organisation_id : ℕ)
    (location : GeographyPoint) (message : Option String) (db db' : Db) (r : JoinRequestRow)
    → submit st_dwithin user_id organisation_id location message db ≡ ok (r, db')
    → (membership (user_by_id user_id db) ≡ none)
      × (any (is_standing organisation_id user_id) db.join_requests ≡ false)
      × (r ≡ new_request db.clock db.next_id organisation_id user_id message)
      × (db'.join_requests ≡ db.join_requests ++ r ∷ [])
unfolding submit
submit_effect st_dwithin user_id organisation_id location message db db' r h =
    let (s, e, g) =
      >>=-eq-ok (assert_eligible st_dwithin user_id organisation_id location) _ db h in
    let (same, unattached) =
      assert_eligible_effect st_dwithin user_id organisation_id location db s.1 s.0 e in
    let (t, f, g') = >>=-eq-ok (insert_request organisation_id user_id message) _ s.1 g in
    let inserted : insert_request organisation_id user_id message db ≡ ok t =
      sym (ap (insert_request organisation_id user_id message) same) ∙ f in
    let (free, at, rows) =
      insert_request_effect organisation_id user_id message db t.1 t.0 inserted in
    let (v, k, g'') = >>=-eq-ok (announce_request s.0.0 s.0.1 user_id t.0 location) _ t.1 g' in
    let kept = announce-requests s.0.0 s.0.1 user_id t.0 location t.1 v.1 k in
    let last : t.0 ≡ r = ground arith in
    let end' : v.1 ≡ db' = ground arith in
    (
      unattached,
      free,
      sym last ∙ at,
      sym (ap (λ d. d.join_requests) end')
          ∙ kept
          ∙ rows
          ∙ ap (λ j. db.join_requests ++ j ∷ []) last,
    )

standing-append :
    (organisation_id user_id : ℕ) (j : JoinRequestRow) (rows : List JoinRequestRow)
    → any (is_standing j.organisation_id j.user_id) rows ≡ false
    → count_where (is_standing organisation_id user_id) rows ≤ 1
    → count_where (is_standing organisation_id user_id) (rows ++ j ∷ []) ≤ 1
unfolding count_where
standing-append organisation_id user_id j rows free one =
    rw (count_where-append (is_standing organisation_id user_id) rows (j ∷ []))
      (elim (Bool-cases (is_request_of organisation_id user_id j)) [
        | inl same ↦
            let at : j.organisation_id ≡ organisation_id = ground arith in
            let by : j.user_id ≡ user_id = ground arith in
            let none' : any (is_standing organisation_id user_id) rows ≡ false =
              rw⁻¹ (at, by) free in
            ground (arith, count_zero_of_any (is_standing organisation_id user_id) rows none')
        | inr other ↦ ground arith
      ])

-- A successful submit is by an account without an organisation, adds one pending request, and leaves
-- every account with at most one request to an organisation that is not rejected, where it had at
-- most one before.
pub submit-OneStanding :
    (st_dwithin : GeographyPoint → GeographyPoint → ℕ → Bool) (user_id organisation_id : ℕ)
    (location : GeographyPoint) (message : Option String) (db db' : Db) (r : JoinRequestRow)
    → OneStanding db
    → submit st_dwithin user_id organisation_id location message db ≡ ok (r, db')
    → (membership (user_by_id user_id db) ≡ none)
      × (r.status ≡ JoinRequestStatus.pending)
      × (db'.join_requests ≡ db.join_requests ++ r ∷ [])
      × OneStanding db'
submit-OneStanding st_dwithin user_id organisation_id location message db db' r one h =
    let (unattached, free, at, rows) =
      submit_effect st_dwithin user_id organisation_id location message db db' r h in
    (
      unattached,
      rw at refl,
      rows,
      (λ o u. rw rows (standing-append o u r db.join_requests (rw at free) (one o u))),
    )
