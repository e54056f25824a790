-- ===== src/Workflow/Slug/Suffixes.antt =====
-- Distinct suffixes make distinct slugs: `${base}_${suffix}` of
-- src/modules/workflow/workflow-stages.service.ts.
use ecotrack_api.Common.{
  Bool-cases, [], ap, arith, inl, inr, length, length-append, ltb, refl, suc, sym, true, zero, ℕ,
  ◌%◌, ◌*◌, ◌++◌, ◌+◌, ◌-◌, ◌/◌, ◌<◌, ◌∙◌, ◌∷◌, ◌≡◌, ◌≢◌, ◌≤◌,
}
use ecotrack_api.Workflow.Slug.{Text, decimal, print, same_text, suffixed}

-- The number that decimal digits stand for, after `n`.
value_from : ℕ → Text → ℕ
value_from n [] = n
value_from n (c ∷ s) = value_from (n * 10 + (c - 48)) s

value_from-decimal :
    (fuel n : ℕ) (out : Text) → n < fuel → value_from 0 (decimal fuel n out) ≡ value_from n out
unfolding decimal value_from
value_from-decimal zero n out lt = absurd (omega arith)
value_from-decimal (suc fuel) n out lt = elim (Bool-cases (ltb n 10)) [
  | inl small ↦
      let e : 0 * 10 + (48 + n - 48) ≡ n = omega arith in rw small (ap (λ k. value_from k out) e)
  | inr big ↦
      let e : n / 10 * 10 + (48 + n % 10 - 48) ≡ n = omega arith in
      let ge : 10 ≤ n = ground arith in
      let below : n / 10 < fuel = omega arith in
      rw big (
        value_from-decimal fuel (n / 10) ((48 + n % 10) ∷ out) below ∙ ap (λ k. value_from k out) e)
]

pub print_injective : (m n : ℕ) → print m ≡ print n → m ≡ n
unfolding print value_from
print_injective m n e =
    sym (value_from-decimal (suc m) m [] (omega arith))
    ∙ ap (value_from 0) e
    ∙ value_from-decimal (suc n) n [] (omega arith)

pub append_cancel : (base s t : Text) → base ++ s ≡ base ++ t → s ≡ t
append_cancel [] s t e = e
append_cancel (c ∷ base) s t e = append_cancel base s t (cc e)

pub suffixed_injective : (base : Text) (m n : ℕ) → suffixed base m ≡ suffixed base n → m ≡ n
unfolding suffixed
suffixed_injective base m n e = print_injective m n (let t = append_cancel base _ _ e in cc t)

pub suffixed_ne : (base : Text) (n : ℕ) → suffixed base n ≢ base
unfolding suffixed
suffixed_ne base n e =
    let l = ap length e ∙ refl in let k = length-append base (95 ∷ print n) in absurd (omega arith)

pub same_text_eq : (s t : Text) → same_text s t ≡ true → s ≡ t
unfolding same_text
same_text_eq [] [] h = refl
same_text_eq [] (d ∷ t) h = cc
same_text_eq (c ∷ s) [] h = cc
same_text_eq (c ∷ s) (d ∷ t) h = let e = same_text_eq s t (ground arith) in ground arith
