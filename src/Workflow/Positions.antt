-- ===== src/Workflow/Positions.antt =====
-- The positions of an organisation's stages (src/modules/workflow/workflow-stages.service.ts): they
-- are 0 to n - 1, through creation and deletion, and so "position + 1" is the next stage.
pub mod Renumbering
pub mod Deletion
pub mod Next
pub mod References
use ecotrack_api.Common.{
  ==_iff, ==_ne, ==_refl, All, All-map, All-mapped, Bool, Bool-cases, List, UniqueBy, [], arith,
  count_where, count_where-cong, if◌then◌else◌, inl, inr, leb, length, ltb, map, map_agree,
  map_same, map_twice, refl, sym, update_where, update_where-eq-map, ℕ, ◌&&◌, ◌+◌, ◌==◌, ◌∙◌, ◌∷◌,
  ◌≡◌, ◌≢◌,
}
use ecotrack_api.Db.{WorkflowStageRow}
use ecotrack_api.Workflow.Stages.Changes.{at_position, has_id, renumber}

abbrev pub of_organisation : ℕ → WorkflowStageRow → Bool
of_organisation organisation_id s = s.organisation_id == organisation_id

abbrev pub is_at : ℕ → ℕ → WorkflowStageRow → Bool
is_at organisation_id k s = s.organisation_id == organisation_id && s.position == k

-- One stage at each of the positions 0 to n - 1 for the organisation's n stages, none elsewhere.
abbrev pub IsContiguous : ℕ → List WorkflowStageRow → Type 0
IsContiguous organisation_id rows =
    (k : ℕ)
    → count_where (is_at organisation_id k) rows
      ≡ (if ltb k (count_where (of_organisation organisation_id) rows) then 1 else 0)

-- What the renumbering loop does to one row: its place in `rest`, counted from `position`.
unfoldable pub renumbered : ℕ → List WorkflowStageRow → WorkflowStageRow → WorkflowStageRow
renumbered position [] r = r
renumbered position (s ∷ rest) r =
    let later = renumbered (position + 1) rest r in
    if r.id == s.id then at_position position r else later

-- The loop compares with the position that each remaining stage had when it was read: rows with the
-- identifier of a stage still to come have that stage's position.
abbrev Agrees : List WorkflowStageRow → WorkflowStageRow → Type 0
Agrees rest r = All (λ (s : WorkflowStageRow). r.id ≡ s.id → r.position ≡ s.position) rest

abbrev moved_to : ℕ → ℕ → WorkflowStageRow → WorkflowStageRow
moved_to id position r = if r.id == id then at_position position r else r

skip_one :
    (position : ℕ) (s : WorkflowStageRow) (rest rows : List WorkflowStageRow)
    → position ≡ s.position
    → All (Agrees (s ∷ rest)) rows
    → All (λ r. moved_to s.id position r ≡ r) rows
skip_one position s rest rows e h =
    All-map (Agrees (s ∷ rest)) _ (λ r a. ground (arith, a.0)) rows h

renumber_one :
    (position : ℕ) (s : WorkflowStageRow) (rest rows : List WorkflowStageRow)
    → All (Agrees (s ∷ rest)) rows
    → (if position == s.position
        then rows
        else update_where (has_id s.id) (at_position position) rows)
      ≡ map (moved_to s.id position) rows
renumber_one position s rest rows h = elim (Bool-cases (position == s.position)) [
  | inl same ↦ rw same (
      sym (
        map_same (moved_to s.id position) rows
          (skip_one position s rest rows ((==_iff _ _).0 same) h)))
  | inr other ↦ rw other (update_where-eq-map (has_id s.id) (at_position position) rows)
]

-- After one round the rest still agrees, since the round moved another stage.
Agrees-moved_to :
    (position : ℕ) (s : WorkflowStageRow) (rest : List WorkflowStageRow) (r : WorkflowStageRow)
    → All (λ (y : WorkflowStageRow). y.id ≢ s.id) rest
    → Agrees (s ∷ rest) r
    → Agrees rest (moved_to s.id position r)
Agrees-moved_to position s [] r apart h = tt
Agrees-moved_to position s (t ∷ rest) r apart h =
    (ground (arith, h.1.0), Agrees-moved_to position s rest r apart.1 (h.0, h.1.1))

renumbered_absent :
    (position : ℕ) (rest : List WorkflowStageRow) (r : WorkflowStageRow)
    → All (λ (y : WorkflowStageRow). y.id ≢ r.id) rest
    → renumbered position rest r ≡ r
unfolding renumbered
renumbered_absent position [] r h = refl
renumbered_absent position (t ∷ rest) r h =
    rw (==_ne r.id t.id (λ e. h.0 (sym e))) (renumbered_absent (position + 1) rest r h.1)

renumbered_step :
    (position : ℕ) (s : WorkflowStageRow) (rest : List WorkflowStageRow) (r : WorkflowStageRow)
    → All (λ (y : WorkflowStageRow). y.id ≢ s.id) rest
    → renumbered (position + 1) rest (moved_to s.id position r) ≡ renumbered position (s ∷ rest) r
unfolding renumbered
renumbered_step position s rest r apart = elim (Bool-cases (r.id == s.id)) [
  | inl hit ↦
      let at : r.id ≡ s.id = (==_iff _ _).0 hit in
      rw hit (
        renumbered_absent (position + 1) rest (at_position position r)
          (All-map (λ (y : WorkflowStageRow). y.id ≢ s.id) _ (λ y n e. n (e ∙ at)) rest apart))
  | inr miss ↦ rw miss refl
]

-- The loop of `deleteStage` moves every row to the place of its identifier in the list.
pub renumber_lem :
    (position : ℕ) (rest rows : List WorkflowStageRow)
    → UniqueBy (λ (s : WorkflowStageRow). s.id) rest
    → All (Agrees rest) rows
    → renumber position rest rows ≡ map (renumbered position rest) rows
unfolding renumber
renumber_lem position [] rows u h = sym (
    map_same (renumbered position []) rows
      (All-map (Agrees []) _ (λ r _. renumbered_absent position [] r tt) rows h))
renumber_lem position (s ∷ rest) rows u h = rw (renumber_one position s rest rows h) (
    renumber_lem (position + 1) rest (map (moved_to s.id position) rows) u.1 (
      All-mapped (Agrees rest) (moved_to s.id position) rows
        (All-map (Agrees (s ∷ rest)) _ (λ r a. Agrees-moved_to position s rest r u.0 a) rows h))
    ∙ map_twice (renumbered (position + 1) rest) (moved_to s.id position) rows
    ∙ map_agree _ (renumbered position (s ∷ rest)) rows
        (All-map (Agrees (s ∷ rest)) _ (λ r _. renumbered_step position s rest r u.0) rows h))

-- Among the stages of the list itself, exactly one comes to stand on each place.
pub count_places :
    (k position : ℕ) (rest : List WorkflowStageRow)
    → UniqueBy (λ (s : WorkflowStageRow). s.id) rest
    → count_where (λ s. (renumbered position rest s).position == k) rest
      ≡ (if leb position k && ltb k (position + length rest) then 1 else 0)
unfolding count_where renumbered
count_places k position [] u = ground arith
count_places k position (s ∷ rest) u =
    let tail_same =
      count_where-cong (λ r. (renumbered position (s ∷ rest) r).position == k)
        (λ r. (renumbered (position + 1) rest r).position == k) rest
        (All-map (λ (y : WorkflowStageRow). y.id ≢ s.id) _ (λ r n. rw (==_ne r.id s.id n)) rest
          u.0) in
    rw (==_refl s.id, tail_same) (ground (arith, count_places k (position + 1) rest u.1))
