-- ===== src/Common/Updates.antt =====
-- How a search and a count act through an UPDATE, and through a DELETE that they do not look at.
use Prim.Native.Nat.{ℕ, ◌≤◌}
use mathlib.Core.Path.{◌≡◌, refl, sym, ◌∙◌}
use mathlib.Core.Logic.{◌≢◌, inl, inr}
use mathlib.Core.Bool.{Bool, true, false}
use mathlib.Core.Option.{some}
use mathlib.Core.List.{List, [], ◌∷◌}
use native.Mathlib.Omega.{arith}
use ecotrack_api.Common.Tests.{Bool-cases, ◌==◌, ==_iff, ==_ne, ==_refl}
use ecotrack_api.Common.Tables.{UniqueBy}
use ecotrack_api.Common.Lists.{
  All, All-find, All-map, find, any, count_where, update_where, delete_where, select,
}

module _ {ℓ} {A : Type ℓ} where
  -- An UPDATE that the search does not see changes the row that is found, where it hits it.
  pub find-update_same :
      (p q : A → Bool) (f : A → A) (xs : List A) {a : A}
      → ((y : A) → p (f y) ≡ p y)
      → find p xs ≡ some a
      → q a ≡ true
      → find p (update_where q f xs) ≡ some (f a)
  unfolding find update_where
  find-update_same p q f [] same e hit = cc
  find-update_same p q f (x ∷ xs) {a} same e hit = elim (Bool-cases (p x)) [
    | inl here ↦
        let at : x ≡ a = ground arith in
        let hit' : q x ≡ true = rw at hit in rw (hit', same x, here, at)
    | inr there ↦
        let rest = find-update_same p q f xs {a = a} same (ground arith) hit in
        elim (Bool-cases (q x)) [
          | inl yes' ↦ rw (yes', same x, there) rest
          | inr no' ↦ rw (no', there) rest
        ]
  ]

  pub count_where-update_same :
      (p q : A → Bool) (f : A → A) (xs : List A)
      → ((y : A) → p (f y) ≡ p y)
      → count_where p (update_where q f xs) ≡ count_where p xs
  unfolding count_where update_where
  count_where-update_same p q f [] same = refl
  count_where-update_same p q f (x ∷ xs) same =
      ground (arith, count_where-update_same p q f xs same, same x)

  pub any-update_same :
      (p q : A → Bool) (f : A → A) (xs : List A)
      → ((y : A) → p (f y) ≡ p y)
      → any p (update_where q f xs) ≡ any p xs
  unfolding any update_where
  any-update_same p q f [] same = refl
  any-update_same p q f (x ∷ xs) same = ground (arith, any-update_same p q f xs same, same x)

  -- A row that the DELETE does not match is still there.
  pub any-delete_other :
      (p q : A → Bool) (xs : List A)
      → ((y : A) → p y ≡ true → q y ≡ false)
      → any p xs ≡ true
      → any p (delete_where q xs) ≡ true
  unfolding any delete_where
  any-delete_other p q [] apart h = cc
  any-delete_other p q (x ∷ xs) apart h = elim (Bool-cases (p x)) [
    | inl yes' ↦ let kept = apart x yes' in ground arith
    | inr no' ↦ ground (arith, any-delete_other p q xs apart)
  ]

  pub any-deleted : (p : A → Bool) (xs : List A) → any p (delete_where p xs) ≡ false
  unfolding any delete_where
  any-deleted p [] = refl
  any-deleted p (x ∷ xs) = ground (arith, any-deleted p xs)

  -- Every row that a query selects is still counted among those that it selected.
  pub All-selected_among :
      (p : A → Bool) (same : A → A → Bool) (xs : List A)
      → ((y : A) → same y y ≡ true)
      → All (λ x. p x ≡ true → any (same x) (select p xs) ≡ true) xs
  unfolding any select
  All-selected_among p same xs own = go xs xs (λ y m. m)
    where
      go :
          (ys zs : List A)
          → ((y : A) → any (same y) (select p zs) ≡ true → any (same y) (select p ys) ≡ true)
          → All (λ x. p x ≡ true → any (same x) (select p ys) ≡ true) zs
      go ys [] inc = tt
      go ys (z ∷ zs) inc =
          ((λ hit. inc z (rw hit (rw (own z) refl))), go ys zs (λ y m. inc y (ground (arith, m))))

module _ {ℓ} {A : Type ℓ} where
  -- A row on which `p` holds gives, hit or not, a row on which `r` holds.
  pub any-update_to :
      (p r q : A → Bool) (f : A → A) (xs : List A)
      → ((y : A) → p y ≡ true → q y ≡ true → r (f y) ≡ true)
      → ((y : A) → p y ≡ true → q y ≡ false → r y ≡ true)
      → any p xs ≡ true
      → any r (update_where q f xs) ≡ true
  unfolding any update_where
  any-update_to p r q f [] hit miss h = cc
  any-update_to p r q f (x ∷ xs) hit miss h = elim (Bool-cases (p x)) [
    | inl here ↦ elim (Bool-cases (q x)) [
      | inl yes' ↦ let done = hit x here yes' in ground arith
      | inr no' ↦ let done = miss x here no' in ground arith
    ]
    | inr there ↦ ground (arith, any-update_to p r q f xs hit miss)
  ]

  pub any-delete_none :
      (p q : A → Bool) (xs : List A) → any p xs ≡ false → any p (delete_where q xs) ≡ false
  unfolding any delete_where
  any-delete_none p q [] h = refl
  any-delete_none p q (x ∷ xs) h = ground (arith, any-delete_none p q xs)

  pub any-refuted :
      (p : A → Bool) (xs : List A) → All (λ x. p x ≡ true → false ≡ true) xs → any p xs ≡ false
  unfolding any
  any-refuted p [] h = refl
  any-refuted p (x ∷ xs) h = elim (Bool-cases (p x)) [
    | inl yes' ↦ absurd (ground (arith, h.0 yes'))
    | inr no' ↦ ground (arith, any-refuted p xs h.1)
  ]

module _ {ℓ} {A : Type ℓ} where
  -- A DELETE that makes Q of P on the rows that it leaves.
  pub All-delete_change :
      (P Q : A → Type 0) (q : A → Bool) (xs : List A)
      → ((y : A) → q y ≡ false → P y → Q y)
      → All P xs
      → All Q (delete_where q xs)
  unfolding delete_where
  All-delete_change P Q q [] keep h = tt
  All-delete_change P Q q (x ∷ xs) keep h = elim (Bool-cases (q x)) [
    | inl gone' ↦ rw gone' (All-delete_change P Q q xs keep h.1)
    | inr kept ↦ rw kept (keep x kept h.0, All-delete_change P Q q xs keep h.1)
  ]

module _ {ℓ} {A : Type ℓ} where
  pub All-any_own :
      (same : A → A → Bool) (xs : List A)
      → ((y : A) → same y y ≡ true)
      → All (λ x. any (same x) xs ≡ true) xs
  unfolding any
  All-any_own same xs own = go xs xs (λ y m. m)
    where
      go :
          (ys zs : List A)
          → ((y : A) → any (same y) zs ≡ true → any (same y) ys ≡ true)
          → All (λ x. any (same x) ys ≡ true) zs
      go ys [] inc = tt
      go ys (z ∷ zs) inc = (inc z (rw (own z) refl), go ys zs (λ y m. inc y (ground (arith, m))))

  pub All-selected_map :
      (P Q : A → Type 0) (p : A → Bool) (xs : List A)
      → ((y : A) → p y ≡ true → P y → Q y)
      → All P xs
      → All Q (select p xs)
  unfolding select
  All-selected_map P Q p [] make h = tt
  All-selected_map P Q p (x ∷ xs) make h = elim (Bool-cases (p x)) [
    | inl hit ↦ rw hit (make x hit h.0, All-selected_map P Q p xs make h.1)
    | inr miss ↦ rw miss (All-selected_map P Q p xs make h.1)
  ]

module _ {A : Type 0} (key : A → ℕ) where
  -- Whatever finds a row of a table with unique keys, its key finds it too.
  pub find-own_key :
      (p : A → Bool) (xs : List A) {a : A}
      → UniqueBy key xs
      → find p xs ≡ some a
      → find (λ y. key y == key a) xs ≡ some a
  unfolding find
  find-own_key p [] u e = cc
  find-own_key p (x ∷ xs) {a} u e = elim (Bool-cases (p x)) [
    | inl here ↦ let at : x ≡ a = ground arith in rw (at, ==_refl (key a)) refl
    | inr there ↦
        let deep : find p xs ≡ some a = ground arith in
        let apart = (All-find (λ y. key y ≢ key x) p xs u.0 deep).0 in
        rw (==_ne (key x) (key a) (λ s. apart (sym s))) (find-own_key p xs {a = a} u.1 deep)
  ]

  -- The row that is found by a key is the only one with it.
  pub All-found_only :
      (k : ℕ) (xs : List A) {a : A}
      → UniqueBy key xs
      → find (λ y. key y == k) xs ≡ some a
      → All (λ y. key y ≡ k → y ≡ a) xs
  unfolding find
  All-found_only k [] u e = tt
  All-found_only k (x ∷ xs) {a} u e = elim (Bool-cases (key x == k)) [
    | inl here ↦
        let at : x ≡ a = ground arith in
        let own : key x ≡ k = (==_iff _ _).0 here in
        ((λ _. at), All-map (λ y. key y ≢ key x) _ (λ y n s. absurd (n (s ∙ sym own))) xs u.0)
    | inr there ↦ ((λ s. absurd (ground arith)), All-found_only k xs {a = a} u.1 (ground arith))
  ]

module _ {ℓ} {A : Type ℓ} where
  -- An UPDATE whose hits were counted where they are counted afterwards.
  pub count_where-update_le :
      (p q : A → Bool) (f : A → A) (xs : List A)
      → All (λ x. q x ≡ true → p (f x) ≡ true → p x ≡ true) xs
      → count_where p (update_where q f xs) ≤ count_where p xs
  unfolding count_where update_where
  count_where-update_le p q f [] h = omega arith
  count_where-update_le p q f (x ∷ xs) h =
      let rest = count_where-update_le p q f xs h.1 in
      elim (Bool-cases (q x)) [
        | inl hit ↦ elim (Bool-cases (p (f x))) [
          | inl after ↦ let before = h.0 hit after in ground arith
          | inr after ↦ ground arith
        ]
        | inr miss ↦ ground arith
      ]
