-- ===== src/Db/Transaction.antt =====
-- A request: a computation on the database state that returns or throws one of Nest's exceptions.
-- TenantInterceptor (src/common/interceptors/tenant.interceptor.ts) runs each request in one
-- transaction and rolls it back when the handler throws, so a failure carries no state.
use Prim.Native.Nat.{ℕ, suc}
use Prim.Native.String.{String}
use mathlib.Core.Path.{◌≡◌, refl}
use mathlib.Core.Bool.{Bool, true, false}
use mathlib.Core.Option.{Option, none, some}
use mathlib.Core.List.{List, [], ◌∷◌}
use ecotrack_api.Db.Tables.{Db}

-- The exceptions that the services throw, with their message; the values that a message quotes (a
-- name, a count) are left out of it.
pub data HttpException : Type 0 where
  bad_request unauthorized forbidden not_found : String → HttpException
  conflict gone unprocessable internal : String → HttpException

pub data Result {ℓ} (A : Type ℓ) : Type ℓ where
  ok : A → Result A
  err : HttpException → Result A

abbrev pub Request : Type 0 → Type 0
Request A = Db → Result (A × Db)

infixl 5 ◌>>=◌ ◌>>◌
abbrev pub ◌>>=◌ : {A B : Type 0} → Request A → (A → Request B) → Request B
◌>>=◌ m f db = elim (m db) [ ok (a, db') ↦ f a db' | err e ↦ err e ]

abbrev pub ◌>>◌ : {A B : Type 0} → Request A → Request B → Request B
◌>>◌ m k = m >>= λ _. k

abbrev pub pure : {A : Type 0} → A → Request A
pure a db = ok (a, db)

abbrev pub throw : {A : Type 0} → HttpException → Request A
throw e db = err e

-- `if (test) throw e;`
abbrev pub throw_if : Bool → HttpException → Request (Unit {0})
throw_if true e db = err e
throw_if false e db = ok (tt, db)

-- `if (test) { action }`
abbrev pub when : Bool → Request (Unit {0}) → Request (Unit {0})
when true m db = m db
when false m db = ok (tt, db)

-- `if (value) { action(value) }`
abbrev pub when_some : {A : Type 0} → Option A → (A → Request (Unit {0})) → Request (Unit {0})
when_some none f db = ok (tt, db)
when_some (some a) f db = f a db

-- `if (!value) throw e;`, and the value otherwise.
abbrev pub or_throw : {A : Type 0} → Option A → HttpException → Request A
or_throw none e db = err e
or_throw (some a) e db = ok (a, db)

-- A query, and a write.
abbrev pub query : {A : Type 0} → (Db → A) → Request A
query f db = ok (f db, db)

abbrev pub execute : (Db → Db) → Request (Unit {0})
execute f db = ok (tt, f db)

-- `defaultRandom()`: an identifier that no row has.
abbrev pub fresh_id : Request ℕ
fresh_id db = ok (db.next_id, record db { next_id = suc db.next_id })

-- `for (const x of xs) await body(x);`
unfoldable pub for_each : {A : Type 0} → List A → (A → Request (Unit {0})) → Request (Unit {0})
for_each [] body db = ok (tt, db)
for_each (x ∷ xs) body db = elim (body x db) [ ok (_, db') ↦ for_each xs body db' | err e ↦ err e ]

-- Inversion of a successful bind.
pub >>=-eq-ok :
    {A B : Type 0} (m : Request A) (f : A → Request B) (db : Db) {r : B × Db}
    → (m >>= f) db ≡ ok r
    → (s : A × Db) × (m db ≡ ok s) × (f s.0 s.1 ≡ ok r)
>>=-eq-ok {A} {B} m f db {r} h = go (m db) refl h
  where
    go :
        (x : Result (A × Db))
        → m db ≡ x
        → elim x as (λ z. Result (B × Db)) [ ok p ↦ f p.0 p.1 | err e ↦ err e ] ≡ ok r
        → (s : A × Db) × (m db ≡ ok s) × (f s.0 s.1 ≡ ok r)
    go (ok p) e k = (p, e, k)
    go (err e') e k = cc
