-- ===== src/Db/Loops.antt =====
-- What a loop of requests establishes: an assertion on the items still to come and the state.
use mathlib.Core.Path.{◌≡◌, refl}
use mathlib.Core.Logic.{◌⊎◌, inl, inr}
use mathlib.Core.List.{List, [], ◌∷◌}
use native.Mathlib.Omega.{arith}
use ecotrack_api.Db.Tables.{Db}
use ecotrack_api.Db.Transaction.{HttpException, Result, ok, err, Request, for_each, >>=-eq-ok}

module _ {A : Type 0} (J : List A → Db → Type 0) (body : A → Request (Unit {0})) where
  -- Where each round leads from the assertion on the items that were left to that on the items that
  -- are left, the loop leads to the assertion on no items.
  pub for_each-drains :
      ((x : A) (rest : List A) (db db' : Db)
        → J (x ∷ rest) db
        → body x db ≡ ok (tt, db')
        → J rest db')
      → (xs : List A) (db db' : Db) → J xs db
      → for_each xs body db ≡ ok (tt, db')
      → J [] db'
  unfolding for_each
  for_each-drains step [] db db' h e = let same : db ≡ db' = ground arith in rw⁻¹ same h
  for_each-drains step (x ∷ xs) db db' h e =
      let (s, f, g) = >>=-eq-ok (body x) (λ _. for_each xs body) db e in
      for_each-drains step xs s.1 db' (step x xs db s.1 h f) g

-- A request's outcome.
pub Result-cases :
    {A : Type 0} (x : Result A) → ((a : A) × (x ≡ ok a)) ⊎ ((e : HttpException) × (x ≡ err e))
Result-cases (ok a) = inl (a, refl)
Result-cases (err e) = inr (e, refl)
