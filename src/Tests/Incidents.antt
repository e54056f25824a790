-- ===== src/Tests/Incidents.antt =====
-- Incidents: races, verdicts and moves on the small database.
use ecotrack_api.Common.{
  All, [], any, ap, arith, count_where, delete_where, find, insert_by, is_value, none, refl, select,
  some, sort_by, sort_desc_by, true, update_where, ℕ, ◌∷◌, ◌≡◌, ◌≤◌,
}
use ecotrack_api.Db.{Db, IncidentRow, UserRole, err, for_each, ok}
use ecotrack_api.Incidents.{incident_by_id, is_incident}
use ecotrack_api.Incidents.Actions.{
  advance_row, already_resolved, duplicate_row, duplicate_write, is_verified, mark_duplicate,
  modified_concurrently, move_stage, reject, reject_row, reject_write, update_incident_stage,
}
use ecotrack_api.Incidents.Lifecycle.{IncidentsOk, IsSound, Kept, Reach, Step}
use ecotrack_api.Incidents.Lifecycle.Races.{claim_exclusive, reject_final, update_stage_exclusive}
use ecotrack_api.Incidents.Lifecycle.Safety.{Reach-Kept}
use ecotrack_api.Incidents.Listing.{list_eligible-shows}
use ecotrack_api.Incidents.Pool.{claim_row, claim_write, just_claimed}
use ecotrack_api.Platform.Audit.{paginate}
use ecotrack_api.Tests.Fixtures.{base, claimed_incident, pooled_incident, state_after, user}
use ecotrack_api.Users.Deletion.{
  assert_not_last_admin, delete_account, delete_found, erase_user, reassign_task_assignments,
  repoint, withdraw, withdraw_future_rsvps,
}
use ecotrack_api.Workflow.Rules.{CreationTrigger, get_rules, list_eligible_stage_ids}
use ecotrack_api.Workflow.Slug.{same_text, slugify}
use ecotrack_api.Workflow.Stages.{stages_of}

pooled_incident-IsSound : IsSound pooled_incident
pooled_incident-IsSound = ground arith

claimed_incident-IsSound : (id : ℕ) → IsSound (claimed_incident id)
claimed_incident-IsSound id = ground arith

base-IncidentsOk : IncidentsOk base
base-IncidentsOk = record {
  unique =
      (((λ e. ground arith), ((λ e. ground arith), tt)), (((λ e. ground arith), tt), (tt, tt)));
  fresh = (omega arith, (omega arith, (omega arith, tt)));
  sound =
      (pooled_incident-IsSound, (claimed_incident-IsSound 11, (claimed_incident-IsSound 12, tt)));
}

-- Two organisations race for incident 10.
abbrev after_claim : Db
after_claim = state_after (claim_write 10 1 2 (some 102)) base

claim_exclusive_example : claim_write 10 9 3 none after_claim ≡ err just_claimed
unfolding claim_write find update_where
claim_exclusive_example =
    claim_exclusive 10 1 9 2 3 (some 102) none base after_claim after_claim
      (claim_row 100 1 2 (some 102) pooled_incident) base-IncidentsOk refl Reach.here

-- The account that reported incident 10 is deleted after the claim.
abbrev before_leaving : Db
before_leaving = record after_claim { users = user 7 UserRole.citizen ∷ [] }

abbrev after_leaving : Db
after_leaving = state_after (delete_account 7) before_leaving

Reach-Kept_example : Kept base after_leaving
unfolding claim_write find update_where delete_account delete_found assert_not_last_admin
    reassign_task_assignments repoint withdraw_future_rsvps withdraw erase_user for_each select
    delete_where count_where any
Reach-Kept_example =
    let first : Step base after_claim =
      Step.claimed 10 1 2 (some 102) (claim_row 100 1 2 (some 102) pooled_incident) refl in
    let joined : Step after_claim before_leaving = Step.elsewhere refl (omega arith) in
    Reach-Kept base-IncidentsOk
      (Reach.next (Reach.next (Reach.next Reach.here first) joined) (Step.erased 7 refl))

-- Two requests have both found incident 11 active; the later UPDATE takes the verdict over.
verdict_overwritten :
    find
      (is_incident 11)
      (state_after
        (reject_write 1 11 2 "no waste found" (claimed_incident 11) none)
        (state_after (duplicate_write 1 11 3 12) base)).incidents
    ≡ some (reject_row 100 "no waste found" none (duplicate_row 100 12 (claimed_incident 11)))
unfolding reject_write duplicate_write find update_where
verdict_overwritten = refl

-- Incident 11 is rejected; a markDuplicate that had checked it before writes, and both are tried again.
abbrev after_reject : Db
after_reject = state_after (reject 1 11 2 "no waste found") base

abbrev after_both : Db
after_both = state_after (duplicate_write 1 11 3 12) after_reject

reject_final_example :
    (reject 1 11 3 "again" after_both ≡ err already_resolved)
    × (mark_duplicate 1 11 3 12 after_both ≡ err already_resolved)
unfolding reject reject_write duplicate_write find update_where any same_text slugify select
reject_final_example =
    let rejected_row = reject_row 100 "no waste found" none (claimed_incident 11) in
    reject_final 1 11 2 3 12 "no waste found" "again" base after_reject after_both rejected_row
      base-IncidentsOk refl
      (Reach.next Reach.here (
        Step.duplicated 1 11 3 12 rejected_row (duplicate_row 100 12 rejected_row) refl
          (λ e. absurd (ground arith)) refl))

-- Two requests move incident 11 from version 1.
abbrev after_move : Db
after_move = state_after (update_incident_stage 1 11 103 (some 1) 2) base

abbrev moved_incident : IncidentRow
moved_incident = advance_row 100 103 (claimed_incident 11)

same_target : update_incident_stage 1 11 103 (some 1) 3 after_move ≡ ok (moved_incident, after_move)
unfolding update_incident_stage move_stage stages_of select sort_by insert_by find update_where
same_target = refl

update_stage_exclusive_example :
    ((seen : IncidentRow)
      → seen.id ≡ 11
      → move_stage 1 seen 103 (some 1) 3 after_move ≡ err modified_concurrently)
    × ((r' : IncidentRow) (db₃ : Db)
        → update_incident_stage 1 11 103 (some 1) 3 after_move ≡ ok (r', db₃)
        → (db₃ ≡ after_move) × (incident_by_id 11 after_move ≡ some r'))
unfolding update_incident_stage move_stage stages_of select sort_by insert_by find update_where
update_stage_exclusive_example =
    update_stage_exclusive 1 1 11 103 103 1 2 3 base after_move after_move moved_incident
      base-IncidentsOk refl (λ e. let n = ap (λ (d : Db). d.next_id) e in ground arith) Reach.here

-- The first of the two incidents that a task may be created for.
list_eligible-shows_example :
    (1 ≤ 1)
    × All
        (λ (i : IncidentRow).
          (is_value i.organisation_id 1 ≡ true)
          × (is_verified i.verification_status ≡ true)
          × (any (is_value i.current_stage_id) (102 ∷ []) ≡ true))
        (claimed_incident 11 ∷ [])
unfolding list_eligible_stage_ids get_rules paginate stages_of select sort_by insert_by sort_desc_by
    find any
list_eligible-shows_example =
    list_eligible-shows 1 1 1 none CreationTrigger.task_creation (102 ∷ []) base
      (state_after (get_rules 1) base) (state_after (get_rules 1) base)
      (record { items = claimed_incident 11 ∷ []; total = 2; page = 1; limit = 1 }) refl refl
