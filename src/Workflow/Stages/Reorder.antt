-- ===== src/Workflow/Stages/Reorder.antt =====
-- `reorderStages`, src/modules/workflow/workflow-stages.service.ts: where each listed stage ends up.
use ecotrack_api.Common.{
  All, All-map, Bool, Bool-cases, List, Option, Option-cases, UniqueBy, [], any, any-select,
  any-sort_by, ap, arith, false, find, get_elem?, inl, inr, length, none, refl, some, suc, sym,
  true, update_where, zero, ℕ, ◌&&◌, ◌+◌, ◌==◌, ◌∙◌, ◌∷◌, ◌≡◌, ◌≢◌,
}
use ecotrack_api.Db.{Db, WorkflowStageRow, ok}
use ecotrack_api.Workflow.Stages.{stage_by_id, stages_of}
use ecotrack_api.Workflow.Stages.Changes.{
  at_position, has_id, place, reorder_stages, stamped, unknown_id,
}

abbrev pub place_of : Option WorkflowStageRow → Option ℕ
place_of none = none
place_of (some s) = some s.position

found_placed :
    (id now position : ℕ) (rows : List WorkflowStageRow)
    → any (has_id id) rows ≡ true
    → place_of (
        find
          (has_id id)
          (update_where (has_id id) (λ s. stamped now (at_position position s)) rows))
      ≡ some position
unfolding any find update_where
found_placed id now position [] h = cc
found_placed id now position (x ∷ xs) h = elim (Bool-cases (has_id id x)) [
  | inl yes' ↦ ground arith
  | inr no' ↦ ground (arith, found_placed id now position xs)
]

found_other :
    (id other now position : ℕ) (rows : List WorkflowStageRow)
    → other ≢ id
    → find
        (has_id id)
        (update_where (has_id other) (λ s. stamped now (at_position position s)) rows)
      ≡ find (has_id id) rows
unfolding find update_where
found_other id other now position [] apart = refl
found_other id other now position (x ∷ xs) apart = elim (Bool-cases (has_id other x)) [
  | inl yes' ↦
      let miss : has_id id x ≡ false = ground arith in
      ground (arith, found_other id other now position xs apart)
  | inr no' ↦ ground (arith, found_other id other now position xs apart)
]

any_placed :
    (id other now position : ℕ) (rows : List WorkflowStageRow)
    → any (has_id id) (update_where (has_id other) (λ s. stamped now (at_position position s)) rows)
      ≡ any (has_id id) rows
unfolding any update_where
any_placed id other now position [] = refl
any_placed id other now position (x ∷ xs) = ground (arith, any_placed id other now position xs)

found_after_place :
    (id now position : ℕ) (ids : List ℕ) (rows : List WorkflowStageRow)
    → All (λ other. other ≢ id) ids
    → find (has_id id) (place now position ids rows) ≡ find (has_id id) rows
unfolding place
found_after_place id now position [] rows h = refl
found_after_place id now position (other ∷ ids) rows h =
    found_after_place id now (position + 1) ids _ h.1 ∙ found_other id other now position rows h.0

place_at :
    (now position : ℕ) (ids : List ℕ) (rows : List WorkflowStageRow) (i id : ℕ)
    → UniqueBy (λ (k : ℕ). k) ids
    → All (λ k. any (has_id k) rows ≡ true) ids
    → get_elem? ids i ≡ some id
    → place_of (find (has_id id) (place now position ids rows)) ≡ some (position + i)
unfolding place
place_at now position [] rows i id u known e = cc
place_at now position (k ∷ ids) rows zero id u known e =
    let same : k ≡ id = ground arith in
    let rows' = update_where (has_id k) (λ s. stamped now (at_position position s)) rows in
    let n : position + 0 ≡ position = omega arith in
    rw n (
      ap place_of (found_after_place id now (position + 1) ids rows' (rw⁻¹ same u.0))
      ∙ rw⁻¹ same (found_placed k now position rows known.0))
place_at now position (k ∷ ids) rows (suc i) id u known e =
    let rows' = update_where (has_id k) (λ s. stamped now (at_position position s)) rows in
    let n : position + suc i ≡ position + 1 + i = omega arith in
    rw n (
      place_at now (position + 1) ids rows' i id u.1
        (All-map (λ j. any (has_id j) rows ≡ true) (λ j. any (has_id j) rows' ≡ true)
          (λ j there. any_placed j k now position rows ∙ there) ids known.1)
        e)

known_ids :
    (stages : List WorkflowStageRow) (ids : List ℕ)
    → unknown_id stages ids ≡ none
    → All (λ k. any (has_id k) stages ≡ true) ids
unfolding unknown_id
known_ids stages [] e = tt
known_ids stages (id ∷ ids) e = elim (Bool-cases (any (has_id id) stages)) [
  | inl yes' ↦ (yes', known_ids stages ids (ground arith))
  | inr no' ↦ absurd (ground arith)
]

any_weaker :
    (p q : WorkflowStageRow → Bool) (rows : List WorkflowStageRow)
    → ((x : WorkflowStageRow) → p x ≡ true → q x ≡ true)
    → any p rows ≡ true
    → any q rows ≡ true
unfolding any
any_weaker p q [] f h = cc
any_weaker p q (x ∷ xs) f h = elim (Bool-cases (p x)) [
  | inl yes' ↦ let k = f x yes' in ground arith
  | inr no' ↦ ground (arith, any_weaker p q xs f)
]

listed_known :
    (organisation_id : ℕ) (rows : List WorkflowStageRow) (k : ℕ)
    → any (has_id k) (stages_of organisation_id rows) ≡ true
    → any (has_id k) rows ≡ true
unfolding stages_of
listed_known organisation_id rows k h =
    any_weaker (λ (s : WorkflowStageRow). s.organisation_id == organisation_id && has_id k s)
      (has_id k) rows (λ x y. ground arith)
      (sym (
          any-sort_by (λ (s : WorkflowStageRow). s.position) (has_id k) _
          ∙ any-select (has_id k) (λ (s : WorkflowStageRow). s.organisation_id == organisation_id)
              rows)
        ∙ h)

reorder_effect :
    (organisation_id : ℕ) (ids : List ℕ) (user_id : ℕ) (db db' : Db) (r : List WorkflowStageRow)
    → reorder_stages organisation_id ids user_id db ≡ ok (r, db')
    → (length ids ≡ length (stages_of organisation_id db.workflow_stages))
      × (unknown_id (stages_of organisation_id db.workflow_stages) ids ≡ none)
      × (db'.workflow_stages ≡ place db.clock 0 ids db.workflow_stages)
unfolding reorder_stages
reorder_effect organisation_id ids user_id db db' r h =
    elim (Option-cases (unknown_id (stages_of organisation_id db.workflow_stages) ids)) [
      | inl none' ↦ (ground arith, none', ground arith)
      | inr (id, some') ↦ absurd (ground arith)
    ]

-- After a successful reorder with a list that names no stage twice, the list is as long as the
-- organisation has stages, and the stage that it names at index i is found at position i.
pub reorder_stages-places :
    (organisation_id : ℕ) (ids : List ℕ) (user_id : ℕ) (db db' : Db) (r : List WorkflowStageRow)
    (i id : ℕ)
    → UniqueBy (λ (k : ℕ). k) ids
    → reorder_stages organisation_id ids user_id db ≡ ok (r, db')
    → get_elem? ids i ≡ some id
    → (length ids ≡ length (stages_of organisation_id db.workflow_stages))
      × (place_of (stage_by_id id db') ≡ some i)
reorder_stages-places organisation_id ids user_id db db' r i id u h e =
    let (l, known, t) = reorder_effect organisation_id ids user_id db db' r h in
    (
      l,
      rw t (
          place_at db.clock 0 ids db.workflow_stages i id u
            (All-map _ _ (listed_known organisation_id db.workflow_stages) ids
              (known_ids (stages_of organisation_id db.workflow_stages) ids known))
            e
          ∙ ap some (omega arith)),
    )
