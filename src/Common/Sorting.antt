-- ===== src/Common/Sorting.antt =====
-- `ORDER BY key` as a stable insertion sort over a numeric key.
use Prim.Native.Nat.{ℕ}
use mathlib.Core.List.{List, [], ◌∷◌}
use ecotrack_api.Common.Tests.{leb, if◌then◌else◌, Bool-cases}
use ecotrack_api.Common.Lists.{All}
use mathlib.Core.Logic.{inl, inr}

module _ {ℓ} {A : Type ℓ} (key : A → ℕ) where
  unfoldable pub insert_by : A → List A → List A
  insert_by a [] = a ∷ []
  insert_by a (x ∷ xs) =
      let rest = insert_by a xs in if leb (key a) (key x) then a ∷ x ∷ xs else x ∷ rest

  unfoldable pub sort_by : List A → List A
  unfolding insert_by
  sort_by [] = []
  sort_by (x ∷ xs) = insert_by x (sort_by xs)

  -- `ORDER BY key DESC`
  unfoldable pub insert_desc_by : A → List A → List A
  insert_desc_by a [] = a ∷ []
  insert_desc_by a (x ∷ xs) =
      let rest = insert_desc_by a xs in if leb (key x) (key a) then a ∷ x ∷ xs else x ∷ rest

  unfoldable pub sort_desc_by : List A → List A
  unfolding insert_desc_by
  sort_desc_by [] = []
  sort_desc_by (x ∷ xs) = insert_desc_by x (sort_desc_by xs)

  All-insert_desc_by :
      (P : A → Type 0) (a : A) (xs : List A) → P a → All P xs → All P (insert_desc_by a xs)
  unfolding insert_desc_by
  All-insert_desc_by P a [] p h = (p, tt)
  All-insert_desc_by P a (x ∷ xs) p h = elim (Bool-cases (leb (key x) (key a))) [
    | inl yes' ↦ rw yes' (p, h)
    | inr no' ↦ rw no' (h.0, All-insert_desc_by P a xs p h.1)
  ]

  pub All-sort_desc_by : (P : A → Type 0) (xs : List A) → All P xs → All P (sort_desc_by xs)
  unfolding sort_desc_by
  All-sort_desc_by P [] h = tt
  All-sort_desc_by P (x ∷ xs) h =
      All-insert_desc_by P x (sort_desc_by xs) h.0 (All-sort_desc_by P xs h.1)
