-- ===== src/Workflow.antt =====
-- src/modules/workflow: an organisation's workflow stages and the rules that move incidents along.
pub mod Slug
pub mod Stages
pub mod Rules
pub mod Positions
pub mod Eligibility
