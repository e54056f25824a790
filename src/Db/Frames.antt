-- ===== src/Db/Frames.antt =====
-- Requests that leave a part of the state alone.
use mathlib.Core.Path.{◌≡◌, ◌∙◌}
use mathlib.Core.Bool.{Bool, true, false}
use mathlib.Core.Option.{Option, none, some}
use mathlib.Core.List.{List, [], ◌∷◌}
use native.Mathlib.Omega.{arith}
use ecotrack_api.Common.{if◌then◌else◌}
use ecotrack_api.Db.Tables.{Db}
use ecotrack_api.Db.Transaction.{
  HttpException, ok, Request, ◌>>=◌, pure, throw_if, when, when_some, or_throw, query, execute,
  for_each, >>=-eq-ok,
}

module _ {X : Type 0} (part : Db → X) where
  -- Where the request succeeds, the part is what it was.
  unfoldable pub Keeps : {A : Type 0} → Request A → Type 0
  Keeps {A} m = (db db' : Db) (r : A) → m db ≡ ok (r, db') → part db' ≡ part db

  pub Keeps->>= :
      {A B : Type 0} (m : Request A) (k : A → Request B)
      → Keeps m
      → ((a : A) → Keeps (k a))
      → Keeps (m >>= k)
  unfolding Keeps
  Keeps->>= m k hm hk db db' r h =
      let (s, e, f) = >>=-eq-ok m k db h in hk s.0 s.1 db' r f ∙ hm db s.1 s.0 e

  pub Keeps-pure : {A : Type 0} (a : A) → Keeps (pure a)
  unfolding Keeps
  Keeps-pure a db db' r h = ground arith

  pub Keeps-throw_if : (b : Bool) (e : HttpException) → Keeps (throw_if b e)
  unfolding Keeps
  Keeps-throw_if true e db db' r h = cc
  Keeps-throw_if false e db db' r h = ground arith

  pub Keeps-or_throw : {A : Type 0} (o : Option A) (e : HttpException) → Keeps (or_throw o e)
  unfolding Keeps
  Keeps-or_throw none e db db' r h = cc
  Keeps-or_throw (some a) e db db' r h = ground arith

  pub Keeps-query : {A : Type 0} (f : Db → A) → Keeps (query f)
  unfolding Keeps
  Keeps-query f db db' r h = ground arith

  pub Keeps-execute : (f : Db → Db) → ((db : Db) → part (f db) ≡ part db) → Keeps (execute f)
  unfolding Keeps
  Keeps-execute f same db db' r h = ground (arith, same db)

  pub Keeps-eq :
      {A : Type 0} (m : Request A)
      → Keeps m
      → (db db' : Db) (r : A) → m db ≡ ok (r, db')
      → part db' ≡ part db
  unfolding Keeps
  Keeps-eq m hm = hm

  pub Keeps-if :
      {A : Type 0} (b : Bool) (m n : Request A) → Keeps m → Keeps n → Keeps (if b then m else n)
  Keeps-if true m n hm hn = hm
  Keeps-if false m n hm hn = hn

  pub Keeps-when : (b : Bool) (m : Request (Unit {0})) → Keeps m → Keeps (when b m)
  unfolding Keeps
  Keeps-when true m hm db db' r h = hm db db' r h
  Keeps-when false m hm db db' r h = ground arith

  pub Keeps-when_some :
      {A : Type 0} (o : Option A) (f : A → Request (Unit {0}))
      → ((a : A) → Keeps (f a))
      → Keeps (when_some o f)
  unfolding Keeps
  Keeps-when_some none f hf db db' r h = ground arith
  Keeps-when_some (some a) f hf db db' r h = hf a db db' r h

  pub Keeps-for_each :
      {A : Type 0} (xs : List A) (f : A → Request (Unit {0}))
      → ((a : A) → Keeps (f a))
      → Keeps (for_each xs f)
  unfolding for_each Keeps
  Keeps-for_each [] f hf db db' r h = ground arith
  Keeps-for_each {A} (x ∷ xs) f hf db db' r h =
      let (s, e, k) = >>=-eq-ok (f x) (λ _. for_each xs f) db h in
      Keeps-for_each xs f hf s.1 db' r k ∙ hf x db s.1 s.0 e
