-- ===== src/Common/Queries.antt =====
-- How the queries on a table act through `map`, `select`, an update and a deletion.
use Prim.Native.Nat.{ℕ, ◌+◌, ◌<◌, ◌≤◌}
use mathlib.Core.Path.{◌≡◌, refl, sym, ◌∙◌}
use mathlib.Core.Logic.{◌≢◌, inl, inr}
use mathlib.Core.Bool.{Bool, true, false, ◌&&◌}
use mathlib.Core.Option.{none, some}
use mathlib.Core.List.{List, [], ◌∷◌, map}
use native.Mathlib.Omega.{arith}
use ecotrack_api.Common.Tests.{Bool-cases, if◌then◌else◌}
use ecotrack_api.Common.Lists.{
  All, All-map, find, select, any, count_where, delete_where, update_where, length,
}
use ecotrack_api.Common.Tables.{UniqueBy}

module _ {ℓ} {A : Type ℓ} where
  pub any-select : (f p : A → Bool) (xs : List A) → any f (select p xs) ≡ any (λ x. p x && f x) xs
  unfolding any select
  any-select f p [] = refl
  any-select f p (x ∷ xs) = ground (arith, any-select f p xs)

  pub find-select :
      (f p : A → Bool) (xs : List A) → find f (select p xs) ≡ find (λ x. p x && f x) xs
  unfolding find select
  find-select f p [] = refl
  find-select f p (x ∷ xs) = ground (arith, find-select f p xs)

  pub count_where-select :
      (f p : A → Bool) (xs : List A)
      → count_where f (select p xs) ≡ count_where (λ x. p x && f x) xs
  unfolding count_where select
  count_where-select f p [] = refl
  count_where-select f p (x ∷ xs) = ground (arith, count_where-select f p xs)

  pub length-select : (p : A → Bool) (xs : List A) → length (select p xs) ≡ count_where p xs
  unfolding count_where select
  length-select p [] = refl
  length-select p (x ∷ xs) = ground (arith, length-select p xs)

  pub All-select : (P : A → Type 0) (p : A → Bool) (xs : List A) → All P xs → All P (select p xs)
  unfolding select
  All-select P p [] h = tt
  All-select P p (x ∷ xs) h = elim (Bool-cases (p x)) [
    | inl hit ↦ rw hit (h.0, All-select P p xs h.1)
    | inr miss ↦ rw miss (All-select P p xs h.1)
  ]

  pub All-delete_where :
      (P : A → Type 0) (p : A → Bool) (xs : List A) → All P xs → All P (delete_where p xs)
  unfolding delete_where
  All-delete_where P p [] h = tt
  All-delete_where P p (x ∷ xs) h = elim (Bool-cases (p x)) [
    | inl hit ↦ rw hit (All-delete_where P p xs h.1)
    | inr miss ↦ rw miss (h.0, All-delete_where P p xs h.1)
  ]

  pub All-selected : (p : A → Bool) (xs : List A) → All (λ x. p x ≡ true) (select p xs)
  unfolding select
  All-selected p [] = tt
  All-selected p (x ∷ xs) = elim (Bool-cases (p x)) [
    | inl hit ↦ rw hit (hit, All-selected p xs)
    | inr miss ↦ rw miss (All-selected p xs)
  ]

  pub count_where-cong :
      (p q : A → Bool) (xs : List A) → All (λ x. p x ≡ q x) xs → count_where p xs ≡ count_where q xs
  unfolding count_where
  count_where-cong p q [] h = refl
  count_where-cong p q (x ∷ xs) h = rw (h.0, count_where-cong p q xs h.1)

  pub any-eq-false_of_count : (p : A → Bool) (xs : List A) → count_where p xs ≡ 0 → any p xs ≡ false
  unfolding any count_where
  any-eq-false_of_count p [] h = refl
  any-eq-false_of_count p (x ∷ xs) h = ground (arith, any-eq-false_of_count p xs)

  pub any-eq-true_of_count : (p : A → Bool) (xs : List A) → 0 < count_where p xs → any p xs ≡ true
  unfolding any count_where
  any-eq-true_of_count p [] h = absurd (omega arith)
  any-eq-true_of_count p (x ∷ xs) h = ground (arith, any-eq-true_of_count p xs)

module _ {ℓ κ} {A : Type ℓ} {B : Type κ} where
  pub any-map : (f : B → Bool) (g : A → B) (xs : List A) → any f (map g xs) ≡ any (λ x. f (g x)) xs
  unfolding any
  any-map f g [] = refl
  any-map f g (x ∷ xs) = ground (arith, any-map f g xs)

  pub count_where-map :
      (f : B → Bool) (g : A → B) (xs : List A)
      → count_where f (map g xs) ≡ count_where (λ x. f (g x)) xs
  unfolding count_where
  count_where-map f g [] = refl
  count_where-map f g (x ∷ xs) = ground (arith, count_where-map f g xs)

module _ {ℓ} {A : Type ℓ} where
  pub update_where-eq-map :
      (p : A → Bool) (f : A → A) (xs : List A)
      → update_where p f xs ≡ map (λ x. if p x then f x else x) xs
  unfolding update_where
  update_where-eq-map p f [] = refl
  update_where-eq-map p f (x ∷ xs) = rw (update_where-eq-map p f xs)

  pub map_same : (f : A → A) (xs : List A) → All (λ x. f x ≡ x) xs → map f xs ≡ xs
  map_same f [] h = refl
  map_same f (x ∷ xs) h = rw (h.0, map_same f xs h.1)

  pub map_agree : (f g : A → A) (xs : List A) → All (λ x. f x ≡ g x) xs → map f xs ≡ map g xs
  map_agree f g [] h = refl
  map_agree f g (x ∷ xs) h = rw (h.0, map_agree f g xs h.1)

  pub map_twice : (f g : A → A) (xs : List A) → map f (map g xs) ≡ map (λ x. f (g x)) xs
  map_twice f g [] = refl
  map_twice f g (x ∷ xs) = rw (map_twice f g xs)

  pub All-mapped :
      (P : A → Type 0) (f : A → A) (xs : List A) → All (λ x. P (f x)) xs → All P (map f xs)
  All-mapped P f [] h = tt
  All-mapped P f (x ∷ xs) h = (h.0, All-mapped P f xs h.1)

  -- Rows that a deletion takes do not count where they did not count before.
  pub count_where-delete_where :
      (p q : A → Bool) (xs : List A)
      → All (λ x. q x ≡ true → p x ≡ false) xs
      → count_where p (delete_where q xs) ≡ count_where p xs
  unfolding count_where delete_where
  count_where-delete_where p q [] h = refl
  count_where-delete_where p q (x ∷ xs) h = elim (Bool-cases (q x)) [
    | inl gone ↦ rw (gone, h.0 gone) (count_where-delete_where p q xs h.1 ∙ omega arith)
    | inr kept ↦ rw (kept, count_where-delete_where p q xs h.1)
  ]

module _ {A : Type 0} where
  -- Rows with one key are one row.
  pub unique_pairs :
      (key : A → ℕ) (xs : List A)
      → UniqueBy key xs
      → All (λ r. All (λ s. key r ≡ key s → r ≡ s) xs) xs
  unique_pairs key [] u = tt
  unique_pairs key (x ∷ xs) u = (
    (
      (λ e. refl),
      All-map (λ y. key y ≢ key x) (λ s. key x ≡ key s → x ≡ s) (λ s n e. absurd (n (sym e))) xs
          u.0,
    ),
    both xs xs u.0 (unique_pairs key xs u.1),
  )
    where
      both :
          (ys zs : List A)
          → All (λ y. key y ≢ key x) zs
          → All (λ r. All (λ s. key r ≡ key s → r ≡ s) ys) zs
          → All (λ r. All (λ s. key r ≡ key s → r ≡ s) (x ∷ ys)) zs
      both ys [] h k = tt
      both ys (z ∷ zs) h k = (((λ e. absurd (h.0 e)), k.0), both ys zs h.1 k.1)

module _ {ℓ} {A : Type ℓ} where
  pub count_zero_of_any : (p : A → Bool) (xs : List A) → any p xs ≡ false → count_where p xs ≡ 0
  unfolding any count_where
  count_zero_of_any p [] h = refl
  count_zero_of_any p (x ∷ xs) h = ground (arith, count_zero_of_any p xs)

  pub count_pos_of_any : (p : A → Bool) (xs : List A) → any p xs ≡ true → 0 < count_where p xs
  unfolding any count_where
  count_pos_of_any p [] h = cc
  count_pos_of_any p (x ∷ xs) h = ground (arith, count_pos_of_any p xs)

  -- The deleted rows account for the difference.
  pub count_where-deleted :
      (p q : A → Bool) (xs : List A)
      → count_where p (delete_where q xs) + count_where (λ x. p x && q x) xs ≡ count_where p xs
  unfolding count_where delete_where
  count_where-deleted p q [] = refl
  count_where-deleted p q (x ∷ xs) = ground (arith, count_where-deleted p q xs)

  pub count_where-le-delete :
      (p q : A → Bool) (xs : List A) → count_where p (delete_where q xs) ≤ count_where p xs
  count_where-le-delete p q xs = omega (arith, count_where-deleted p q xs)

  pub count_and_le :
      (p q : A → Bool) (xs : List A) → count_where (λ x. p x && q x) xs ≤ count_where q xs
  unfolding count_where
  count_and_le p q [] = omega arith
  count_and_le p q (x ∷ xs) = ground (arith, count_and_le p q xs)

  -- An UPDATE that makes Q of P, row by row.
  pub All-update_change :
      (P Q : A → Type 0) (p : A → Bool) (f : A → A) (xs : List A)
      → ((a : A) → p a ≡ true → P a → Q (f a))
      → ((a : A) → p a ≡ false → P a → Q a)
      → All P xs
      → All Q (update_where p f xs)
  unfolding update_where
  All-update_change P Q p f [] hit miss h = tt
  All-update_change P Q p f (x ∷ xs) hit miss h = elim (Bool-cases (p x)) [
    | inl yes' ↦ rw yes' (hit x yes' h.0, All-update_change P Q p f xs hit miss h.1)
    | inr no' ↦ rw no' (miss x no' h.0, All-update_change P Q p f xs hit miss h.1)
  ]

  pub any_of_found :
      (q p : A → Bool) (xs : List A) (a : A) → find q xs ≡ some a → p a ≡ true → any p xs ≡ true
  unfolding find any
  any_of_found q p [] a e h = cc
  any_of_found q p (x ∷ xs) a e h = elim (Bool-cases (q x)) [
    | inl yes' ↦ let same : x ≡ a = ground arith in rw same (ground arith)
    | inr no' ↦ ground (arith, any_of_found q p xs a (ground arith) h)
  ]

  pub any_of_none : (p : A → Bool) (xs : List A) → find p xs ≡ none → any p xs ≡ false
  unfolding find any
  any_of_none p [] e = refl
  any_of_none p (x ∷ xs) e = ground (arith, any_of_none p xs)
