-- ===== src/Workflow/Stages/Seeding.antt =====
-- `seedDefaultStages`, src/modules/workflow/workflow-stages.service.ts.
use ecotrack_api.Common.{
  ==_refl, Bool-cases, List, Option-cases, String, [], ap, arith, count_where, count_where-append,
  if◌then◌else◌, inl, inr, leb, length, ltb, none, refl, str_eq, suc, ℕ, ◌&&◌, ◌++◌, ◌+◌, ◌==◌,
  ◌||◌, ◌∙◌, ◌∷◌, ◌≡◌,
}
use ecotrack_api.Db.{Db, Keeps, Result-cases, WorkflowStageRow, ok}
use ecotrack_api.Workflow.Positions.{IsContiguous, is_at, of_organisation}
use ecotrack_api.Workflow.Slug.{Text}
use ecotrack_api.Workflow.Stages.{
  default_workflow_stages, seed_default_stages, seed_from, unique_slug,
}

-- The row that the loop saves.
abbrev seeded_row : ℕ → ℕ → ℕ → String → String → ℕ → Text → WorkflowStageRow
seeded_row now id organisation_id name color position slug = record {
  id = id;
  organisation_id = organisation_id;
  name = name;
  slug = slug;
  description = none;
  color = color;
  position = position;
  is_final = position == 4 || str_eq name "Resolved";
  updated_at = now;
}

abbrev with_stage : WorkflowStageRow → Db → Db
with_stage row db = record db {
  next_id = suc db.next_id;
  workflow_stages = db.workflow_stages ++ row ∷ [];
}

-- One round of the loop.
seed_from_round :
    (organisation_id : ℕ) (rows : List WorkflowStageRow) (position : ℕ) (name color : String)
    (more : List (String × String)) (db db' : Db) (r : List WorkflowStageRow)
    → seed_from organisation_id rows position ((name, color) ∷ more) db ≡ ok (r, db')
    → (slug : Text) × (saved : List WorkflowStageRow) × (seed_from organisation_id rows
          (position + 1)
          more
          (with_stage (seeded_row db.clock db.next_id organisation_id name color position slug) db)
        ≡ ok (saved, db'))
unfolding seed_from
seed_from_round organisation_id rows position name color more db db' r h =
    elim (Option-cases (unique_slug organisation_id name rows)) [
      | inl none' ↦ absurd (ground arith)
      | inr (slug, some') ↦
          elim (Result-cases (
            seed_from organisation_id rows (position + 1) more (
              with_stage (seeded_row db.clock db.next_id organisation_id name color position slug)
                db))) [
                  | inr (e, failed) ↦ absurd (ground arith)
                  | inl ((saved, db₁), done) ↦
                      let same : db₁ ≡ db' = ground arith in
                      (slug, saved, done ∙ ap (λ d. ok (saved, d)) same)
                ]
    ]

module _ {X : Type 0} (part : Db → X)
    (blind : (db : Db) (n : ℕ) (ss : List WorkflowStageRow)
      → part (record db { next_id = n; workflow_stages = ss }) ≡ part db) where
  seed_from-part :
      (organisation_id : ℕ) (rows : List WorkflowStageRow) (position : ℕ)
      (list : List (String × String)) (db db' : Db) (r : List WorkflowStageRow)
      → seed_from organisation_id rows position list db ≡ ok (r, db')
      → part db' ≡ part db
  unfolding seed_from
  seed_from-part organisation_id rows position [] db db' r h =
      let same : db' ≡ db = ground arith in ap part same
  seed_from-part organisation_id rows position ((name, color) ∷ more) db db' r h =
      let (slug, saved, done) =
        seed_from_round organisation_id rows position name color more db db' r h in
      seed_from-part organisation_id rows (position + 1) more _ db' saved done ∙ blind db _ _

  -- Seeding adds stages and takes identifiers, and nothing else.
  pub seed_default_stages-Keeps :
      (organisation_id : ℕ) → Keeps part (seed_default_stages organisation_id)
  unfolding seed_default_stages Keeps
  seed_default_stages-Keeps organisation_id db db' r h =
      seed_from-part organisation_id db.workflow_stages 0 default_workflow_stages db db' r h

abbrev spans : ℕ → ℕ → ℕ → ℕ
spans position n k = if leb position k && ltb k (position + n) then 1 else 0

spans_next :
    (organisation_id position n k c : ℕ)
    → c
        + ((if organisation_id == organisation_id && position == k then 1 else 0) + 0)
        + spans (position + 1) n k
      ≡ c + spans position (suc n) k
spans_next organisation_id position n k c =
    rw (==_refl organisation_id)
      (elim (Bool-cases (position == k)) [ inl here ↦ ground arith | inr there ↦ ground arith ])

one_more :
    (organisation_id n c : ℕ)
    → c + ((if organisation_id == organisation_id then 1 else 0) + 0) + n ≡ c + suc n
one_more organisation_id n c = rw (==_refl organisation_id) (omega arith)

seed_from-counts :
    (organisation_id : ℕ) (rows : List WorkflowStageRow) (position : ℕ)
    (list : List (String × String)) (db db' : Db) (r : List WorkflowStageRow)
    → seed_from organisation_id rows position list db ≡ ok (r, db')
    → ((k : ℕ)
        → count_where (is_at organisation_id k) db'.workflow_stages
          ≡ count_where (is_at organisation_id k) db.workflow_stages
            + spans position (length list) k)
      × (count_where (of_organisation organisation_id) db'.workflow_stages
          ≡ count_where (of_organisation organisation_id) db.workflow_stages + length list)
unfolding seed_from count_where
seed_from-counts organisation_id rows position [] db db' r h =
    let same : db' ≡ db = ground arith in ((λ k. rw same (ground arith)), rw same (omega arith))
seed_from-counts organisation_id rows position ((name, color) ∷ more) db db' r h =
    let (slug, saved, done) =
      seed_from_round organisation_id rows position name color more db db' r h in
    let row = seeded_row db.clock db.next_id organisation_id name color position slug in
    let (at, all') =
      seed_from-counts organisation_id rows (position + 1) more (with_stage row db) db' saved
        done in
    (
      (λ k.
          at k
          ∙ ap (λ z. z + spans (position + 1) (length more) k)
              (count_where-append (is_at organisation_id k) db.workflow_stages (row ∷ []))
          ∙ spans_next organisation_id position (length more) k
              (count_where (is_at organisation_id k) db.workflow_stages)),
      all'
          ∙ ap (λ z. z + length more)
              (count_where-append (of_organisation organisation_id) db.workflow_stages (row ∷ []))
          ∙ one_more organisation_id (length more)
              (count_where (of_organisation organisation_id) db.workflow_stages),
    )

none_at :
    (organisation_id k : ℕ) (rows : List WorkflowStageRow)
    → count_where (of_organisation organisation_id) rows ≡ 0
    → count_where (is_at organisation_id k) rows ≡ 0
unfolding count_where
none_at organisation_id k [] h = refl
none_at organisation_id k (x ∷ xs) h = ground (arith, none_at organisation_id k xs)

-- A successful seedDefaultStages of an organisation that has no stage gives it five, at the positions
-- 0 to 4.
pub seed_default_stages-IsContiguous :
    (organisation_id : ℕ) (db db' : Db) (r : List WorkflowStageRow)
    → count_where (of_organisation organisation_id) db.workflow_stages ≡ 0
    → seed_default_stages organisation_id db ≡ ok (r, db')
    → (count_where (of_organisation organisation_id) db'.workflow_stages ≡ 5)
      × IsContiguous organisation_id db'.workflow_stages
unfolding seed_default_stages
seed_default_stages-IsContiguous organisation_id db db' r empty h =
    let (at, all') =
      seed_from-counts organisation_id db.workflow_stages 0 default_workflow_stages db db' r h in
    let five : count_where (of_organisation organisation_id) db'.workflow_stages ≡ 5 =
      all' ∙ omega arith in
    (
      five,
      (λ k.
          let few : count_where (is_at organisation_id k) db.workflow_stages ≡ 0 =
            none_at organisation_id k db.workflow_stages empty in
          rw five (at k ∙ ground arith)),
    )
