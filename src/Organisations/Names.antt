-- ===== src/Organisations/Names.antt =====
-- `slugify` and `generateUniqueSlug` of src/modules/organisations/organisations.service.ts, over
-- character codes. Case folding is that of ASCII; any other letter counts as a separator.
use ecotrack_api.Common.{
  Bool, List, Option, String, [], any, ap, arith, codes, false, first_free, first_free-free,
  first_free_ends, if◌then◌else◌, leb, length, length-append, map, not, not_true, refl, reverse,
  some, suc, sym, take, true, ℕ, ◌&&◌, ◌++◌, ◌==◌, ◌||◌, ◌∙◌, ◌∷◌, ◌≡◌, ◌≢◌,
}
use ecotrack_api.Db.{OrganisationRow}
use ecotrack_api.Workflow.Slug.{Text, print, same_text, to_lower}
use ecotrack_api.Workflow.Slug.Suffixes.{append_cancel, print_injective, same_text_eq}

-- `[a-z0-9]`
abbrev pub is_slug_char : ℕ → Bool
is_slug_char c = (leb b'a' c && leb c b'z') || (leb b'0' c && leb c b'9')

-- `replace(/[^a-z0-9]+/g, '-')`: a run of separators becomes one dash. `in_run` tells that the
-- character before was a separator.
unfoldable pub dash_runs : Bool → Text → Text
dash_runs in_run [] = []
dash_runs in_run (c ∷ s) =
    let next = dash_runs (not (is_slug_char c)) s in
    if is_slug_char c then c ∷ next else (if in_run then next else b'-' ∷ next)

-- `replace(/^-+|-+$/g, '')`
unfoldable pub drop_dashes : Text → Text
drop_dashes [] = []
drop_dashes (c ∷ s) = let rest = drop_dashes s in if c == b'-' then rest else c ∷ s

unfoldable pub trim_dashes : Text → Text
unfolding drop_dashes
trim_dashes s = reverse (drop_dashes (reverse (drop_dashes s)))

-- `slice(0, 128)` comes last
unfoldable pub organisation_slug : Text → Text
unfolding dash_runs trim_dashes
organisation_slug name = take 128 (trim_dashes (dash_runs false (map to_lower name)))

-- `slugify(name) || 'organisation'`
abbrev pub or_default : Text → Text
or_default [] = codes "organisation"
or_default (c ∷ s) = c ∷ s

-- `${base}-${suffix}`
unfoldable pub dashed : Text → ℕ → Text
dashed base suffix = base ++ b'-' ∷ print suffix

abbrev pub has_org_slug : Text → OrganisationRow → Bool
has_org_slug slug o = same_text o.slug slug

-- The loop, with one try more than there are organisations; `none` means that the fuel ran out.
unfoldable pub generate_unique_slug : String → List OrganisationRow → Option Text
generate_unique_slug name rows =
    let base = or_default (organisation_slug (codes name)) in
    first_free (λ slug. any (has_org_slug slug) rows) (dashed base) (suc (length rows)) base 2

other_slug :
    (slug slug' : Text)
    → slug ≢ slug'
    → (x : OrganisationRow) → has_org_slug slug x ≡ true
    → has_org_slug slug' x ≡ false
other_slug slug slug' apart x h =
    not_true (has_org_slug slug' x)
      (λ h'. apart (sym (same_text_eq x.slug slug h) ∙ same_text_eq x.slug slug' h'))

dashed_injective : (base : Text) (m n : ℕ) → dashed base m ≡ dashed base n → m ≡ n
unfolding dashed
dashed_injective base m n e = print_injective m n (let t = append_cancel base _ _ e in cc t)

dashed_ne : (base : Text) (n : ℕ) → dashed base n ≢ base
unfolding dashed
dashed_ne base n e =
    let l = ap length e ∙ refl in let k = length-append base (45 ∷ print n) in absurd (omega arith)

-- `generateUniqueSlug` always ends within one try more than there are organisations, with a slug that
-- no organisation has.
pub generate_unique_slug-free :
    (name : String) (rows : List OrganisationRow)
    → (slug : Text) × (generate_unique_slug name rows ≡ some slug)
      × (any (has_org_slug slug) rows ≡ false)
unfolding generate_unique_slug
generate_unique_slug-free name rows =
    let base = or_default (organisation_slug (codes name)) in
    let (slug, e) =
      first_free_ends has_org_slug other_slug (dashed base) (dashed_injective base)
        (suc (length rows)) rows base 2 (omega arith) (λ k le. dashed_ne base k) in
    (
      slug,
      e,
      first_free-free (λ s. any (has_org_slug s) rows) (dashed base) (suc (length rows)) base 2 slug
          e,
    )
