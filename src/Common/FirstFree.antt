-- ===== src/Common/FirstFree.antt =====
-- A loop that tries a name and then its numbered variants until one is free.
use Prim.Native.Nat.{ℕ, zero, suc, ◌+◌, ◌<◌, ◌≤◌}
use mathlib.Core.Path.{◌≡◌, refl, sym, ◌∙◌}
use mathlib.Core.Logic.{◌≢◌, inl, inr}
use mathlib.Core.Bool.{Bool, true, false}
use mathlib.Core.Option.{Option, none, some}
use mathlib.Core.List.{List, [], ◌∷◌}
use native.Mathlib.Omega.{arith}
use ecotrack_api.Common.Tests.{Bool-cases, if◌then◌else◌}
use ecotrack_api.Common.Lists.{any, delete_where, length}

-- On fuel; `none` means that the fuel ran out.
unfoldable pub first_free : {A : Type 0} → (A → Bool) → (ℕ → A) → ℕ → A → ℕ → Option A
first_free taken name zero candidate suffix = none
first_free taken name (suc fuel) candidate suffix =
    let again = first_free taken name fuel (name suffix) (suffix + 1) in
    if taken candidate then again else some candidate

module _ {A : Type 0} where
  -- The loop asks only about its candidates.
  first_free_same :
      (taken taken' : A → Bool) (name : ℕ → A) (fuel : ℕ) (candidate : A) (suffix : ℕ)
      → taken candidate ≡ taken' candidate
      → ((k : ℕ) → suffix ≤ k → taken (name k) ≡ taken' (name k))
      → first_free taken name fuel candidate suffix ≡ first_free taken' name fuel candidate suffix
  unfolding first_free
  first_free_same taken taken' name zero candidate suffix h hs = refl
  first_free_same taken taken' name (suc fuel) candidate suffix h hs =
      let again =
        first_free_same taken taken' name fuel (name suffix) (suffix + 1) (hs suffix (omega arith))
          (λ k le. hs k (omega arith)) in
      rw (h, again) refl

  -- What the loop ends on is free.
  pub first_free-free :
      (taken : A → Bool) (name : ℕ → A) (fuel : ℕ) (candidate : A) (suffix : ℕ) (found : A)
      → first_free taken name fuel candidate suffix ≡ some found
      → taken found ≡ false
  unfolding first_free
  first_free-free taken name zero candidate suffix found e = cc
  first_free-free taken name (suc fuel) candidate suffix found e =
      elim (Bool-cases (taken candidate)) [
        | inl busy ↦ first_free-free taken name fuel (name suffix) (suffix + 1) found (ground arith)
        | inr free ↦ let same : candidate ≡ found = ground arith in rw⁻¹ same free
      ]

module _ {R : Type 0} where
  any-delete_apart :
      (p q : R → Bool) (rows : List R)
      → ((x : R) → p x ≡ true → q x ≡ false)
      → any p (delete_where q rows) ≡ any p rows
  unfolding any delete_where
  any-delete_apart p q [] h = refl
  any-delete_apart p q (x ∷ xs) h = elim (Bool-cases (p x)) [
    | inl yes' ↦ let keep = h x yes' in ground arith
    | inr no' ↦ ground (arith, any-delete_apart p q xs h)
  ]

  length-le-delete : (q : R → Bool) (rows : List R) → length (delete_where q rows) ≤ length rows
  unfolding delete_where
  length-le-delete q [] = omega arith
  length-le-delete q (x ∷ xs) = ground (arith, length-le-delete q xs)

  length-delete_where :
      (q : R → Bool) (rows : List R)
      → any q rows ≡ true
      → length (delete_where q rows) < length rows
  unfolding any delete_where
  length-delete_where q [] h = cc
  length-delete_where q (x ∷ xs) h = elim (Bool-cases (q x)) [
    | inl yes' ↦ let le = length-le-delete q xs in ground arith
    | inr no' ↦ ground (arith, length-delete_where q xs)
  ]

-- Names that rows of a table have, each row one, and a numbering without repetition.
module _ {A R : Type 0} (has : A → R → Bool)
    (apart : (s t : A) → s ≢ t → (x : R) → has s x ≡ true → has t x ≡ false) (name : ℕ → A)
    (injective : (m n : ℕ) → name m ≡ name n → m ≡ n) where
  -- One try more than there are rows is enough.
  pub first_free_ends :
      (fuel : ℕ) (rows : List R) (candidate : A) (suffix : ℕ)
      → length rows < fuel
      → ((k : ℕ) → suffix ≤ k → name k ≢ candidate)
      → (found : A) × (first_free (λ s. any (has s) rows) name fuel candidate suffix ≡ some found)
  unfolding first_free
  first_free_ends zero rows candidate suffix lt fresh = absurd (omega arith)
  first_free_ends (suc fuel) rows candidate suffix lt fresh =
      elim (Bool-cases (any (has candidate) rows)) [
        | inl busy ↦
            let rest = delete_where (has candidate) rows in
            let shorter = length-delete_where (has candidate) rows busy in
            let (found, e) =
              first_free_ends fuel rest (name suffix) (suffix + 1) (omega arith)
                (λ k le same. let eq = injective k suffix same in absurd (omega arith)) in
            let other : (k : ℕ) → suffix ≤ k → any (has (name k)) rows ≡ any (has (name k)) rest =
              λ k le. sym (
                any-delete_apart (has (name k)) (has candidate) rows
                  (apart (name k) candidate (fresh k le))) in
            (
              found,
              rw busy (
                  first_free_same (λ s. any (has s) rows) (λ s. any (has s) rest) name fuel
                    (name suffix) (suffix + 1) (other suffix (omega arith))
                    (λ k le. other k (omega arith))
                  ∙ e),
            )
        | inr free ↦ (candidate, rw free refl)
      ]
