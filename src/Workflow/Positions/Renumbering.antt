-- ===== src/Workflow/Positions/Renumbering.antt =====
-- What the renumbering loop of `deleteStage`, src/modules/workflow/workflow-stages.service.ts, does to
-- the positions of its organisation and of the others.
use ecotrack_api.Common.{
  ==_iff, All, All-everywhere, All-map, All-select, All-selected, All-sort_by, Bool, Bool-cases,
  List, UniqueBy, UniqueBy-select, UniqueBy-sort_by, [], ap, arith, count_where, count_where-cong,
  count_where-map, count_where-select, count_where-sort_by, false, inl, inr, length, length-select,
  length-sort_by, map, not_true, refl, select, sym, true, unique_pairs, ℕ, ◌&&◌, ◌+◌, ◌==◌, ◌∙◌,
  ◌∷◌, ◌≡◌, ◌≢◌,
}
use ecotrack_api.Db.{WorkflowStageRow}
use ecotrack_api.Workflow.Positions.{
  IsContiguous, count_places, is_at, of_organisation, renumber_lem, renumbered,
}
use ecotrack_api.Workflow.Stages.{stages_of}
use ecotrack_api.Workflow.Stages.Changes.{renumber}

renumbered_same :
    (position : ℕ) (rest : List WorkflowStageRow) (r : WorkflowStageRow)
    → ((renumbered position rest r).organisation_id ≡ r.organisation_id)
      × ((renumbered position rest r).id ≡ r.id)
unfolding renumbered
renumbered_same position [] r = (refl, refl)
renumbered_same position (s ∷ rest) r = ground (arith, renumbered_same (position + 1) rest r)

pub length-stages :
    (organisation_id : ℕ) (rows : List WorkflowStageRow)
    → length (stages_of organisation_id rows) ≡ count_where (of_organisation organisation_id) rows
unfolding stages_of
length-stages organisation_id rows =
    length-sort_by (λ (s : WorkflowStageRow). s.position) _
    ∙ length-select (of_organisation organisation_id) rows

count-stages :
    (p : WorkflowStageRow → Bool) (organisation_id : ℕ) (rows : List WorkflowStageRow)
    → count_where p (stages_of organisation_id rows)
      ≡ count_where p (select (of_organisation organisation_id) rows)
unfolding stages_of
count-stages p organisation_id rows = count_where-sort_by (λ (s : WorkflowStageRow). s.position) p _

stages-UniqueBy :
    (organisation_id : ℕ) (rows : List WorkflowStageRow)
    → UniqueBy (λ (s : WorkflowStageRow). s.id) rows
    → UniqueBy (λ (s : WorkflowStageRow). s.id) (stages_of organisation_id rows)
unfolding stages_of
stages-UniqueBy organisation_id rows u =
    UniqueBy-sort_by (λ (s : WorkflowStageRow). s.position) (λ (s : WorkflowStageRow). s.id) _
      (UniqueBy-select (λ (s : WorkflowStageRow). s.position) (λ (s : WorkflowStageRow). s.id)
        (of_organisation organisation_id) rows u)

stages_owned :
    (organisation_id : ℕ) (rows : List WorkflowStageRow)
    → All (λ s. of_organisation organisation_id s ≡ true) (stages_of organisation_id rows)
unfolding stages_of
stages_owned organisation_id rows =
    All-sort_by (λ (s : WorkflowStageRow). s.position) _ _
      (All-selected (of_organisation organisation_id) rows)

-- A row of another organisation is not in the list, and so is not renumbered.
renumbered_foreign :
    (organisation_id : ℕ) (position : ℕ) (rest : List WorkflowStageRow) (r : WorkflowStageRow)
    → of_organisation organisation_id r ≡ false
    → All (λ s. of_organisation organisation_id s ≡ true) rest
    → All (λ (s : WorkflowStageRow). r.id ≡ s.id → r ≡ s) rest
    → renumbered position rest r ≡ r
unfolding renumbered
renumbered_foreign organisation_id position [] r f own same = refl
renumbered_foreign organisation_id position (s ∷ rest) r f own same =
    elim (Bool-cases (r.id == s.id)) [
      | inl hit ↦
          let twin : r ≡ s = same.0 ((==_iff _ _).0 hit) in
          let o = ap (of_organisation organisation_id) twin in absurd (ground (arith, own.0))
      | inr miss ↦ rw miss (renumbered_foreign organisation_id (position + 1) rest r f own.1 same.1)
    ]

module _ (organisation_id : ℕ) (rows : List WorkflowStageRow)
    (u : UniqueBy (λ (s : WorkflowStageRow). s.id) rows) where
  left_agrees :
      All
        (λ r. All (λ (s : WorkflowStageRow). r.id ≡ s.id → r ≡ s) (stages_of organisation_id rows))
        rows
  unfolding stages_of
  left_agrees =
      All-map _ _
        (λ r h.
          All-sort_by (λ (s : WorkflowStageRow). s.position) (λ s. r.id ≡ s.id → r ≡ s) _
            (All-select (λ s. r.id ≡ s.id → r ≡ s) (of_organisation organisation_id) rows h))
        rows (unique_pairs (λ (s : WorkflowStageRow). s.id) rows u)

  renumber_all :
      renumber 0 (stages_of organisation_id rows) rows
      ≡ map (renumbered 0 (stages_of organisation_id rows)) rows
  renumber_all =
      renumber_lem 0 (stages_of organisation_id rows) rows (stages-UniqueBy organisation_id rows u)
        (All-map _ _
          (λ r h.
            All-map _ _ (λ s same e. ap (λ (x : WorkflowStageRow). x.position) (same e))
              (stages_of organisation_id rows) h)
          rows left_agrees)

  -- The organisation's own stages end at 0 to n - 1.
  pub own-IsContiguous :
      IsContiguous organisation_id (renumber 0 (stages_of organisation_id rows) rows)
  own-IsContiguous k =
      let ren = renumbered 0 (stages_of organisation_id rows) in
      let own = of_organisation organisation_id in
      let size : count_where own (map ren rows) ≡ length (stages_of organisation_id rows) =
        count_where-map own ren rows
        ∙ count_where-cong (λ r. own (ren r)) own rows
            (All-everywhere _ (λ r. ap (λ o. o == organisation_id) (renumbered_same 0 _ r).0) rows)
        ∙ sym (length-stages organisation_id rows) in
      rw (renumber_all, size)
        (count_where-map (is_at organisation_id k) ren rows
          ∙ count_where-cong (λ r. is_at organisation_id k (ren r))
              (λ r. own r && (ren r).position == k) rows
              (All-everywhere _
                (λ r.
                  ap (λ o. o == organisation_id && (ren r).position == k) (renumbered_same 0 _ r).0)
                rows)
          ∙ sym (count_where-select (λ r. (ren r).position == k) own rows)
          ∙ sym (count-stages (λ r. (ren r).position == k) organisation_id rows)
          ∙ count_places k 0 (stages_of organisation_id rows)
              (stages-UniqueBy organisation_id rows u)
          ∙ ground arith)

  other_same :
      (other : ℕ) (q : WorkflowStageRow → Bool) (r : WorkflowStageRow)
      → other ≢ organisation_id
      → ((y : WorkflowStageRow) → q y ≡ true → y.organisation_id ≡ other)
      → All (λ (s : WorkflowStageRow). r.id ≡ s.id → r ≡ s) (stages_of organisation_id rows)
      → q (renumbered 0 (stages_of organisation_id rows) r) ≡ q r
  other_same other q r apart only h = elim (Bool-cases (r.organisation_id == organisation_id)) [
    | inl own ↦
        let (o, _) = renumbered_same 0 (stages_of organisation_id rows) r in
        let e : r.organisation_id ≡ organisation_id = (==_iff _ _).0 own in
        not_true _ (λ t. apart (sym (only _ t) ∙ o ∙ e))
        ∙ sym (not_true (q r) (λ t. apart (sym (only r t) ∙ e)))
    | inr foreign ↦ ap q (
        renumbered_foreign organisation_id 0 (stages_of organisation_id rows) r foreign
          (stages_owned organisation_id rows) h)
  ]

  -- The stages of another organisation stay as they are.
  pub others_still :
      (other : ℕ) (q : WorkflowStageRow → Bool)
      → other ≢ organisation_id
      → ((y : WorkflowStageRow) → q y ≡ true → y.organisation_id ≡ other)
      → count_where q (renumber 0 (stages_of organisation_id rows) rows) ≡ count_where q rows
  others_still other q apart only =
      let ren = renumbered 0 (stages_of organisation_id rows) in
      rw renumber_all (
        count_where-map q ren rows
        ∙ count_where-cong (λ r. q (ren r)) q rows
            (All-map _ _ (λ r h. other_same other q r apart only h) rows left_agrees))
