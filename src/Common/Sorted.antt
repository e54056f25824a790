-- ===== src/Common/Sorted.antt =====
-- What the sort keeps of a table, and where it puts a row.
use Prim.Native.Nat.{ℕ, ◌+◌, ◌≤◌, ◌<◌, suc}
use mathlib.Core.Path.{◌≡◌, refl, ap, sym, ◌∙◌}
use mathlib.Core.Logic.{◌≢◌, inl, inr}
use mathlib.Core.Bool.{Bool, true, false}
use mathlib.Core.List.{List, [], ◌∷◌}
use native.Mathlib.Omega.{arith}
use ecotrack_api.Common.Tests.{Bool-cases, leb, ltb, ◌==◌}
use ecotrack_api.Common.Lists.{All, All-map, find, select, any, count_where, delete_where, length}
use ecotrack_api.Common.Sorting.{insert_by, sort_by}
use ecotrack_api.Common.Tables.{UniqueBy}
use ecotrack_api.Common.Queries.{All-select, All-delete_where}

module _ {ℓ} {A : Type ℓ} (key : A → ℕ) where
  any-insert_by : (f : A → Bool) (a : A) (xs : List A) → any f (insert_by key a xs) ≡ any f (a ∷ xs)
  unfolding any insert_by
  any-insert_by f a [] = refl
  any-insert_by f a (x ∷ xs) = ground (arith, any-insert_by f a xs)

  pub any-sort_by : (f : A → Bool) (xs : List A) → any f (sort_by key xs) ≡ any f xs
  unfolding sort_by any
  any-sort_by f [] = refl
  any-sort_by f (x ∷ xs) = ground (arith, any-insert_by f x (sort_by key xs), any-sort_by f xs)

  count_where-insert_by :
      (f : A → Bool) (a : A) (xs : List A)
      → count_where f (insert_by key a xs) ≡ count_where f (a ∷ xs)
  unfolding count_where insert_by
  count_where-insert_by f a [] = refl
  count_where-insert_by f a (x ∷ xs) = ground (arith, count_where-insert_by f a xs)

  pub count_where-sort_by :
      (f : A → Bool) (xs : List A) → count_where f (sort_by key xs) ≡ count_where f xs
  unfolding sort_by count_where
  count_where-sort_by f [] = refl
  count_where-sort_by f (x ∷ xs) =
      ground (arith, count_where-insert_by f x (sort_by key xs), count_where-sort_by f xs)

  -- The sort is stable: it does not change which row is the first with a given key.
  find-insert_by :
      (k : ℕ) (a : A) (xs : List A)
      → find (λ x. key x == k) (insert_by key a xs) ≡ find (λ x. key x == k) (a ∷ xs)
  unfolding find insert_by
  find-insert_by k a [] = refl
  find-insert_by k a (x ∷ xs) = ground (arith, find-insert_by k a xs)

  pub find-sort_by :
      (k : ℕ) (xs : List A) → find (λ x. key x == k) (sort_by key xs) ≡ find (λ x. key x == k) xs
  unfolding sort_by find
  find-sort_by k [] = refl
  find-sort_by k (x ∷ xs) = ground (arith, find-insert_by k x (sort_by key xs), find-sort_by k xs)

  All-insert_by :
      (P : A → Type 0) (a : A) (xs : List A) → P a → All P xs → All P (insert_by key a xs)
  unfolding insert_by
  All-insert_by P a [] h k = (h, tt)
  All-insert_by P a (x ∷ xs) h k = elim (Bool-cases (leb (key a) (key x))) [
    | inl le ↦ rw le (h, k)
    | inr gt ↦ rw gt (k.0, All-insert_by P a xs h k.1)
  ]

  pub All-sort_by : (P : A → Type 0) (xs : List A) → All P xs → All P (sort_by key xs)
  unfolding sort_by
  All-sort_by P [] h = tt
  All-sort_by P (x ∷ xs) h = All-insert_by P x (sort_by key xs) h.0 (All-sort_by P xs h.1)

  abbrev pub IsSorted : List A → Type 0
  IsSorted [] = Unit
  IsSorted (x ∷ xs) = All (λ y. key x ≤ key y) xs × IsSorted xs

  insert_by-IsSorted : (a : A) (xs : List A) → IsSorted xs → IsSorted (insert_by key a xs)
  unfolding insert_by
  insert_by-IsSorted a [] h = (tt, tt)
  insert_by-IsSorted a (x ∷ xs) h = elim (Bool-cases (leb (key a) (key x))) [
    | inl le ↦ rw le (
      (
        ground arith,
        All-map (λ y. key x ≤ key y) (λ y. key a ≤ key y) (λ y b. ground arith) xs h.0,
      ),
      h,
    )
    | inr gt ↦
        rw gt
          (All-insert_by (λ y. key x ≤ key y) a xs (ground arith) h.0, insert_by-IsSorted a xs h.1)
  ]

  pub sort_by-IsSorted : (xs : List A) → IsSorted (sort_by key xs)
  unfolding sort_by
  sort_by-IsSorted [] = tt
  sort_by-IsSorted (x ∷ xs) = insert_by-IsSorted x (sort_by key xs) (sort_by-IsSorted xs)

  -- In a sorted table the first row above `c` is the first row at `c + 1`, if there is one.
  pub find-IsSorted :
      (c : ℕ) (xs : List A)
      → IsSorted xs
      → any (λ x. key x == c + 1) xs ≡ true
      → find (λ x. key x == c + 1) xs ≡ find (λ x. ltb c (key x)) xs
  unfolding find any
  find-IsSorted c [] s h = refl
  find-IsSorted c (x ∷ xs) s h = elim (Bool-cases (ltb c (key x))) [
    | inl above ↦ elim (Bool-cases (key x == c + 1)) [
      | inl at ↦ rw (at, above)
      | inr past ↦ absurd (none_below c x xs s.0 (ground arith) (ground arith))
    ]
    | inr below ↦
        let miss : (key x == c + 1) ≡ false = ground arith in
        rw (below, miss) (find-IsSorted c xs s.1 (ground arith))
  ]
    where
      none_below :
          (c : ℕ) (x : A) (xs : List A)
          → All (λ y. key x ≤ key y) xs
          → c + 1 < key x
          → any (λ y. key y == c + 1) xs ≡ true
          → ⊥
      none_below c x [] h lt e = cc
      none_below c x (y ∷ ys) h lt e =
          let miss : (key y == c + 1) ≡ false = ground (arith, h.0) in
          none_below c x ys h.1 lt (ground arith)

  module _ (id : A → ℕ) where
    pub UniqueBy-select : (p : A → Bool) (xs : List A) → UniqueBy id xs → UniqueBy id (select p xs)
    unfolding select
    UniqueBy-select p [] u = tt
    UniqueBy-select p (x ∷ xs) u = elim (Bool-cases (p x)) [
      | inl hit ↦ rw hit (All-select (λ y. id y ≢ id x) p xs u.0, UniqueBy-select p xs u.1)
      | inr miss ↦ rw miss (UniqueBy-select p xs u.1)
    ]

    pub UniqueBy-delete_where :
        (p : A → Bool) (xs : List A) → UniqueBy id xs → UniqueBy id (delete_where p xs)
    unfolding delete_where
    UniqueBy-delete_where p [] u = tt
    UniqueBy-delete_where p (x ∷ xs) u = elim (Bool-cases (p x)) [
      | inl hit ↦ rw hit (UniqueBy-delete_where p xs u.1)
      | inr miss ↦
          rw miss (All-delete_where (λ y. id y ≢ id x) p xs u.0, UniqueBy-delete_where p xs u.1)
    ]

    UniqueBy-insert_by :
        (a : A) (xs : List A)
        → All (λ y. id y ≢ id a) xs
        → UniqueBy id xs
        → UniqueBy id (insert_by key a xs)
    unfolding insert_by
    UniqueBy-insert_by a [] h u = (tt, tt)
    UniqueBy-insert_by a (x ∷ xs) h u = elim (Bool-cases (leb (key a) (key x))) [
      | inl le ↦ rw le (h, u)
      | inr gt ↦ rw gt (
        All-insert_by (λ y. id y ≢ id x) a xs (λ e. h.0 (sym e)) u.0,
        UniqueBy-insert_by a xs h.1 u.1,
      )
    ]

    pub UniqueBy-sort_by : (xs : List A) → UniqueBy id xs → UniqueBy id (sort_by key xs)
    unfolding sort_by
    UniqueBy-sort_by [] u = tt
    UniqueBy-sort_by (x ∷ xs) u =
        UniqueBy-insert_by x (sort_by key xs) (All-sort_by (λ y. id y ≢ id x) xs u.0)
          (UniqueBy-sort_by xs u.1)

module _ {ℓ} {A : Type ℓ} (key : A → ℕ) where
  length-insert_by : (a : A) (xs : List A) → length (insert_by key a xs) ≡ suc (length xs)
  unfolding insert_by
  length-insert_by a [] = refl
  length-insert_by a (x ∷ xs) = ground (arith, length-insert_by a xs)

  pub length-sort_by : (xs : List A) → length (sort_by key xs) ≡ length xs
  unfolding sort_by
  length-sort_by [] = refl
  length-sort_by (x ∷ xs) = length-insert_by x (sort_by key xs) ∙ ap suc (length-sort_by xs)
