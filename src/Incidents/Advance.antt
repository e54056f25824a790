-- ===== src/Incidents/Advance.antt =====
-- The step that TasksService and EventsService share after a trigger: resolve the target stage and
-- advance the incident unless it is there already (SRS 3.1.21).
use ecotrack_api.Common.{Option, String, none, not, some, ℕ, ◌==◌}
use ecotrack_api.Db.{Request, WorkflowStageRow, pure, when, ◌>>=◌}
use ecotrack_api.Incidents.Actions.{advance_stage}
use ecotrack_api.Workflow.Rules.{StageRuleTrigger, resolve_target}

-- `if (targetStage && targetStage.id !== currentStage.id) await advanceStage(…)`
unfoldable pub advance_if_other :
    ℕ → ℕ → WorkflowStageRow → ℕ → String → Option WorkflowStageRow → Request (Unit {0})
advance_if_other organisation_id incident_id current acting_user_id label none = pure tt
advance_if_other organisation_id incident_id current acting_user_id label (some target) =
    when (not (target.id == current.id))
      (advance_stage organisation_id incident_id target.id acting_user_id label)

unfoldable pub auto_advance :
    ℕ → ℕ → StageRuleTrigger → WorkflowStageRow → ℕ → String → Request (Unit {0})
auto_advance organisation_id incident_id trigger current acting_user_id label = do
  target ← resolve_target organisation_id trigger current
  advance_if_other organisation_id incident_id current acting_user_id label target
