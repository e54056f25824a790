-- ===== src/Delivery/Once.antt =====
-- At most once: two polls of the outbox (src/modules/notifications/dispatch) never claim the same
-- row.
use ecotrack_api.Db.{Db}
