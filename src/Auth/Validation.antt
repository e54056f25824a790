-- ===== src/Auth/Validation.antt =====
-- What a validated token gives, src/modules/auth/strategies/jwt.strategy.ts.
use ecotrack_api.Auth.{JwtPayload, claims_of, non_empty, outlives, validate}
use ecotrack_api.Common.{
  Bool-cases, Option-cases, String, any, ap, arith, false, find, get_or, inl, inr, some, str_eq,
  sym, true, ◌&&◌, ◌+◌, ◌/◌, ◌∙◌, ◌≡◌, ◌≤◌,
}
use ecotrack_api.Db.{Db, Result-cases, UserRow, ok}
use ecotrack_api.Users.{
  Claims, email_taken, find_or_provision, has_email, has_subject, provision_user, sync_user,
}
use ecotrack_api.Users.Provisioning.{find_or_provision-settles}
use ecotrack_api.Workflow.Stages.Changes.{given}

provision_clock :
    (c : Claims) (db db' : Db) (u : UserRow)
    → find_or_provision c db ≡ ok (u, db')
    → db'.clock ≡ db.clock
unfolding find_or_provision sync_user provision_user
provision_clock c db db' u h = elim (Option-cases (find (has_subject c.auth_subject) db.users)) [
  | inr (v, found) ↦ elim (Bool-cases (str_eq v.email c.email && str_eq v.full_name c.full_name)) [
    | inl same ↦ ground arith
    | inr changed ↦ elim (Bool-cases (any (email_taken v.id c.email) db.users)) [
      | inl clash ↦ absurd (ground arith)
      | inr free ↦ ground arith
    ]
  ]
  | inl absent ↦ elim (Bool-cases (any (has_email c.email) db.users)) [
    | inl clash ↦ absurd (ground arith)
    | inr free ↦ ground arith
  ]
]

validate_effect :
    (p : JwtPayload) (db db' : Db) (u : UserRow)
    → validate p db ≡ ok (u, db')
    → (outlives db.clock p ≡ false)
      × ((email : String) × (non_empty p.email ≡ some email)
          × (find_or_provision (claims_of p email) db ≡ ok (u, db')))
      × (u.is_active ≡ true)
unfolding validate
validate_effect p db db' u h = elim (Bool-cases (outlives db.clock p)) [
  | inl long ↦ absurd (ground arith)
  | inr short ↦ elim (Option-cases (non_empty p.email)) [
    | inl missing ↦ absurd (ground arith)
    | inr (email, given) ↦ elim (Result-cases (find_or_provision (claims_of p email) db)) [
      | inr (e, failed) ↦ absurd (ground arith)
      | inl ((v, db₁), done) ↦ elim (Bool-cases v.is_active) [
        | inr inactive ↦ absurd (ground arith)
        | inl active ↦
            let same : v ≡ u = ground arith in
            let end' : db₁ ≡ db' = ground arith in
            (
              short,
              (email, given, done ∙ ap (λ x. ok (x, db₁)) same ∙ ap (λ x. ok (u, x)) end'),
              rw⁻¹ same active,
            )
      ]
    ]
  ]
]

validated_again :
    (p : JwtPayload) (email : String) (db : Db) (u : UserRow)
    → outlives db.clock p ≡ false
    → non_empty p.email ≡ some email
    → find_or_provision (claims_of p email) db ≡ ok (u, db)
    → u.is_active ≡ true
    → validate p db ≡ ok (u, db)
unfolding validate
validated_again p email db u short given done active = ground arith

-- A successful validation is of a token that lives at most 3660 seconds from its issue (or from now,
-- where it does not tell) and has an email; it returns an active account of the token's subject with
-- that email; and validating the token again at once returns that account and changes nothing.
pub validate-account :
    (p : JwtPayload) (db db' : Db) (u : UserRow)
    → validate p db ≡ ok (u, db')
    → (p.exp ≤ get_or p.iat (db.clock / 1000) + 3660)
      × (non_empty p.email ≡ some u.email)
      × (u.auth_subject ≡ p.sub)
      × (u.is_active ≡ true)
      × (validate p db' ≡ ok (u, db'))
validate-account p db db' u h =
    let (short, (email, given, done), active) = validate_effect p db db' u h in
    let (subject, mail, _, again) = find_or_provision-settles (claims_of p email) db db' u done in
    let now = provision_clock (claims_of p email) db db' u done in
    (
      ground arith,
      given ∙ ap some (sym mail),
      subject,
      active,
      validated_again p email db' u (rw now short) given again active,
    )
