-- ===== src/Workflow/Stages/Free.antt =====
-- `uniqueSlug`, src/modules/workflow/workflow-stages.service.ts: its loop ends, on a slug that no
-- stage of the organisation has.
use ecotrack_api.Common.{
  List, String, any, arith, codes, false, first_free-free, first_free_ends, length, not_true, some,
  suc, sym, true, ℕ, ◌∙◌, ◌≡◌, ◌≢◌,
}
use ecotrack_api.Db.{WorkflowStageRow}
use ecotrack_api.Workflow.Slug.{Text, slugify, suffixed}
use ecotrack_api.Workflow.Slug.Suffixes.{same_text_eq, suffixed_injective, suffixed_ne}
use ecotrack_api.Workflow.Stages.{free_slug, has_slug, unique_slug}

-- A row has one slug.
other_slug :
    (organisation_id : ℕ) (slug slug' : Text)
    → slug ≢ slug'
    → (x : WorkflowStageRow) → has_slug organisation_id slug x ≡ true
    → has_slug organisation_id slug' x ≡ false
other_slug organisation_id slug slug' apart x h = not_true (has_slug organisation_id slug' x) (λ h'.
    let e = same_text_eq x.slug slug (ground arith) in
    let e' = same_text_eq x.slug slug' (ground arith) in apart (sym e ∙ e'))

-- `uniqueSlug` always ends within its tries, with a slug that no stage of the organisation has.
pub unique_slug-free :
    (organisation_id : ℕ) (name : String) (rows : List WorkflowStageRow)
    → (slug : Text) × (unique_slug organisation_id name rows ≡ some slug)
      × (any (has_slug organisation_id slug) rows ≡ false)
unfolding unique_slug free_slug
unique_slug-free organisation_id name rows =
    let base = slugify (codes name) in
    let (slug, e) =
      first_free_ends (has_slug organisation_id) (other_slug organisation_id) (suffixed base)
        (suffixed_injective base) (suc (length rows)) rows base 2 (omega arith)
        (λ k le. suffixed_ne base k) in
    (
      slug,
      e,
      first_free-free (λ s. any (has_slug organisation_id s) rows) (suffixed base)
          (suc (length rows)) base 2 slug e,
    )
