-- ===== src/Tests.antt =====
-- Runs on a small database: each theorem with hypotheses, applied where they hold.
pub mod Fixtures
pub mod Access
pub mod Incidents
pub mod Stages
pub mod Tasks
pub mod Events
pub mod Users
pub mod Members
pub mod Invites
pub mod Founding
pub mod Dashboard
pub mod Dispatch
