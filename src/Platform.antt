-- ===== src/Platform.antt =====
-- The services that every other one writes through: the audit log, notifications and the outbox.
pub mod Audit
pub mod Notifications
pub mod Outbox
