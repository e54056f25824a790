-- ===== src/Common/Tables.antt =====
-- Tables with a key: rows are found, changed and added by it.
use Prim.Native.Nat.{ℕ}
use mathlib.Core.Path.{◌≡◌, refl, sym, ◌∙◌}
use mathlib.Core.Logic.{◌≢◌, inl, inr}
use mathlib.Core.Bool.{Bool, true, false}
use mathlib.Core.Option.{some, none}
use mathlib.Core.List.{List, [], ◌∷◌, ◌++◌}
use native.Mathlib.Omega.{arith}
use ecotrack_api.Common.Tests.{not_true, Option-cases, Bool-cases, ◌==◌, ==_iff, ==_ne}
use ecotrack_api.Common.Lists.{
  find_holds, All, All-append, All-find, All-update_where, find, update_where,
}

module _ {ℓ} {A : Type ℓ} where
  -- No two rows share the key.
  abbrev pub UniqueBy : (A → ℕ) → List A → Type 0
  UniqueBy key [] = Unit
  UniqueBy key (x ∷ xs) = All (λ y. key y ≢ key x) xs × UniqueBy key xs

  -- Every row of the first table is still there in the second, in its place, changed along `R`;
  -- further rows may follow.
  abbrev pub Evolves : (A → A → Type 0) → List A → List A → Type 0
  Evolves R [] ys = Unit
  Evolves R (x ∷ xs) [] = ⊥
  Evolves R (x ∷ xs) (y ∷ ys) = R x y × Evolves R xs ys

module _ {ℓ} {A : Type ℓ} (R : A → A → Type 0) where
  pub Evolves-refl : ((y : A) → R y y) → (xs : List A) → Evolves R xs xs
  Evolves-refl r [] = tt
  Evolves-refl r (x ∷ xs) = (r x, Evolves-refl r xs)

  pub Evolves-append : ((y : A) → R y y) → (xs ys : List A) → Evolves R xs (xs ++ ys)
  Evolves-append r [] ys = tt
  Evolves-append r (x ∷ xs) ys = (r x, Evolves-append r xs ys)

  pub Evolves-trans :
      ((x y z : A) → R x y → R y z → R x z)
      → (xs ys zs : List A) → Evolves R xs ys
      → Evolves R ys zs
      → Evolves R xs zs
  Evolves-trans t [] ys zs h k = tt
  Evolves-trans t (x ∷ xs) [] zs h k = absurd h
  Evolves-trans t (x ∷ xs) (y ∷ ys) [] h k = absurd k
  Evolves-trans t (x ∷ xs) (y ∷ ys) (z ∷ zs) h k =
      (t x y z h.0 k.0, Evolves-trans t xs ys zs h.1 k.1)

  -- An update changes each row that it hits along `R`.
  pub Evolves-update_where :
      (p : A → Bool) (f : A → A)
      → ((y : A) → R y y)
      → ((y : A) → p y ≡ true → R y (f y))
      → (xs : List A) → Evolves R xs (update_where p f xs)
  unfolding update_where
  Evolves-update_where p f r step [] = tt
  Evolves-update_where p f r step (x ∷ xs) = elim (Bool-cases (p x)) [
    | inl hit ↦ rw hit (step x hit, Evolves-update_where p f r step xs)
    | inr miss ↦ rw miss (r x, Evolves-update_where p f r step xs)
  ]

  -- A row that could be found by a key that `R` keeps is still found, changed along `R`.
  pub Evolves-find :
      (key : A → ℕ) (k : ℕ)
      → ((x y : A) → R x y → key y ≡ key x)
      → (xs ys : List A) {a : A} → Evolves R xs ys
      → find (λ y. key y == k) xs ≡ some a
      → (b : A) × (find (λ y. key y == k) ys ≡ some b) × R a b
  unfolding find
  Evolves-find key k keep [] ys h e = absurd (cc)
  Evolves-find key k keep (x ∷ xs) [] h e = absurd h
  Evolves-find key k keep (x ∷ xs) (y ∷ ys) {a} h e =
      let same : key y ≡ key x = keep x y h.0 in
      elim (Bool-cases (key x == k)) [
        | inl here ↦ let at : x ≡ a = ground arith in (y, rw (same, here), rw at at h.0)
        | inr there ↦
            let (b, found, r) = Evolves-find key k keep xs ys {a = a} h.1 (ground arith) in
            (b, rw (same, there) found, r)
      ]

module _ {ℓ} {A : Type ℓ} (key : A → ℕ) where
  -- An update that hits only the key `k` changes nothing where no row has it.
  update_absent :
      (k : ℕ) (p : A → Bool) (f : A → A) (xs : List A)
      → ((y : A) → p y ≡ true → key y ≡ k)
      → All (λ y. key y ≢ k) xs
      → update_where p f xs ≡ xs
  unfolding update_where
  update_absent k p f [] only h = refl
  update_absent k p f (x ∷ xs) only h = elim (Bool-cases (p x)) [
    | inl hit ↦ absurd (h.0 (only x hit))
    | inr miss ↦ rw (miss, update_absent k p f xs only h.1)
  ]

  pub UniqueBy-update_where :
      (p : A → Bool) (f : A → A) (xs : List A)
      → ((y : A) → key (f y) ≡ key y)
      → UniqueBy key xs
      → UniqueBy key (update_where p f xs)
  unfolding update_where
  UniqueBy-update_where p f [] same h = tt
  UniqueBy-update_where p f (x ∷ xs) same h = elim (Bool-cases (p x)) [
    | inl hit ↦ rw hit (
      rw (same x)
          (All-update_where (λ y. key y ≢ key x) p f xs (λ a _ ne e. ne (sym (same a) ∙ e)) h.0),
      UniqueBy-update_where p f xs same h.1,
    )
    | inr miss ↦ rw miss (
      All-update_where (λ y. key y ≢ key x) p f xs (λ a _ ne e. ne (sym (same a) ∙ e)) h.0,
      UniqueBy-update_where p f xs same h.1,
    )
  ]

  pub UniqueBy-snoc :
      (xs : List A) (a : A)
      → UniqueBy key xs
      → All (λ y. key y ≢ key a) xs
      → UniqueBy key (xs ++ a ∷ [])
  UniqueBy-snoc [] a h absent = (tt, tt)
  UniqueBy-snoc (x ∷ xs) a h absent = (
    All-append (λ y. key y ≢ key x) xs (a ∷ []) h.0 ((λ e. absent.0 (sym e)), tt),
    UniqueBy-snoc xs a h.1 absent.1,
  )

  -- An update that hits only the key `k`, at which `a` stands, keeps `P` if it does so at `a`.
  pub All-update_found :
      (P : A → Type 0) (k : ℕ) (p : A → Bool) (f : A → A) (xs : List A) (a : A)
      → UniqueBy key xs
      → find (λ y. key y == k) xs ≡ some a
      → ((y : A) → p y ≡ true → key y ≡ k)
      → P (f a)
      → All P xs
      → All P (update_where p f xs)
  unfolding update_where find
  All-update_found P k p f [] a u e only keep h = tt
  All-update_found P k p f (x ∷ xs) a u e only keep h = elim (Bool-cases (key x == k)) [
    | inl here ↦
        let at : key x ≡ k = (==_iff _ _).0 here in
        let same : x ≡ a = ground arith in
        let rest : All P (update_where p f xs) =
          rw (update_absent k p f xs only (rw at at u.0)) h.1 in
        elim (Bool-cases (p x)) [
          | inl hit ↦ rw hit (rw same keep, rest)
          | inr miss ↦ rw miss (h.0, rest)
        ]
    | inr there ↦
        let rest : All P (update_where p f xs) =
          All-update_found P k p f xs a u.1 (ground arith) only keep h.1 in
        elim (Bool-cases (p x)) [
          | inl hit ↦ let clash : key x ≡ k = only x hit in absurd (ground arith)
          | inr miss ↦ rw miss (h.0, rest)
        ]
  ]

  pub Evolves-update_found :
      (R : A → A → Type 0) (k : ℕ) (p : A → Bool) (f : A → A) (xs : List A) (a : A)
      → ((y : A) → R y y)
      → UniqueBy key xs
      → find (λ y. key y == k) xs ≡ some a
      → ((y : A) → p y ≡ true → key y ≡ k)
      → R a (f a)
      → Evolves R xs (update_where p f xs)
  unfolding update_where find
  Evolves-update_found R k p f [] a r u e only step = tt
  Evolves-update_found R k p f (x ∷ xs) a r u e only step = elim (Bool-cases (key x == k)) [
    | inl here ↦
        let at : key x ≡ k = (==_iff _ _).0 here in
        let same : x ≡ a = ground arith in
        let rest : Evolves R xs (update_where p f xs) =
          rw (update_absent k p f xs only (rw at at u.0)) (Evolves-refl R r xs) in
        elim (Bool-cases (p x)) [
          | inl hit ↦ rw hit (rw same step, rest)
          | inr miss ↦ rw miss (r x, rest)
        ]
    | inr there ↦
        let rest : Evolves R xs (update_where p f xs) =
          Evolves-update_found R k p f xs a r u.1 (ground arith) only step in
        elim (Bool-cases (p x)) [
          | inl hit ↦ let clash : key x ≡ k = only x hit in absurd (ground arith)
          | inr miss ↦ rw miss (r x, rest)
        ]
  ]

  -- What is found by a condition that implies the key is found by the key.
  pub find-UniqueBy :
      (k : ℕ) (p : A → Bool) (xs : List A) {a : A}
      → UniqueBy key xs
      → ((y : A) → p y ≡ true → key y ≡ k)
      → find p xs ≡ some a
      → find (λ y. key y == k) xs ≡ some a
  unfolding find
  find-UniqueBy k p [] u only e = cc
  find-UniqueBy k p (x ∷ xs) {a} u only e = elim (Bool-cases (p x)) [
    | inl hit ↦ let at : key x ≡ k = only x hit in ground (arith, ==_iff (key x) k)
    | inr miss ↦
        let deep : find p xs ≡ some a = ground arith in
        let (apart, holds) = All-find (λ y. key y ≢ key x) p xs u.0 deep in
        let at : key a ≡ k = only a holds in
        rw (==_ne (key x) k (λ s. apart (at ∙ sym s))) (find-UniqueBy k p xs {a = a} u.1 only deep)
  ]

  -- The row that an update hits is found changed.
  pub find-update_found :
      (k : ℕ) (p : A → Bool) (f : A → A) (xs : List A) {a : A}
      → ((y : A) → key (f y) ≡ key y)
      → find (λ y. key y == k) xs ≡ some a
      → p a ≡ true
      → ((y : A) → p y ≡ true → key y ≡ k)
      → find (λ y. key y == k) (update_where p f xs) ≡ some (f a)
  unfolding find update_where
  find-update_found k p f [] keep e hit only = cc
  find-update_found k p f (x ∷ xs) {a} keep e hit only = elim (Bool-cases (key x == k)) [
    | inl here ↦
        let at : x ≡ a = ground arith in
        let hit' : p x ≡ true = rw at hit in rw (hit', keep x, here, at)
    | inr there ↦
        let deep : find (λ y. key y == k) xs ≡ some a = ground arith in
        let miss : p x ≡ false = not_true (p x) (λ q. ground (arith, only x q)) in
        rw (miss, there) (find-update_found k p f xs {a = a} keep deep hit only)
  ]

  -- A condition that fails at the row with its key finds nothing.
  pub find-none_found :
      (k : ℕ) (p : A → Bool) (xs : List A) {a : A}
      → UniqueBy key xs
      → find (λ y. key y == k) xs ≡ some a
      → p a ≡ false
      → ((y : A) → p y ≡ true → key y ≡ k)
      → find p xs ≡ none
  find-none_found k p xs {a} u e miss only = elim (Option-cases (find p xs)) [
    | inl none' ↦ none'
    | inr (b, hit) ↦
        let same : find (λ y. key y == k) xs ≡ some b = find-UniqueBy k p xs u only hit in
        let twin : p b ≡ true = find_holds p xs hit in absurd (ground arith)
  ]
