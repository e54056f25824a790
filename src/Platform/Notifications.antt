-- ===== src/Platform/Notifications.antt =====
-- src/modules/notifications/notifications.service.ts: the persisted notification rows. The push that
-- `create` starts in the background is not awaited and touches no table; `Push` has it.
use ecotrack_api.Common.{
  Option, String, [], false, find, length, not, select, sort_desc_by, suc, true, update_where, ℕ,
  ◌&&◌, ◌++◌, ◌==◌, ◌∷◌,
}
use ecotrack_api.Db.{
  Db, NotificationRow, NotificationType, Request, execute, forbidden, not_found, or_throw, pure,
  query, throw_if, ◌>>=◌, ◌>>◌,
}
use ecotrack_api.Platform.Audit.{Paginated, paginate}

-- The argument of `create`.
pub record Notice : Type 0 where
  pub user_id : ℕ
  pub organisation_id : Option ℕ
  pub type : NotificationType
  pub title : String
  pub message : String
  pub related_entity_type : Option String
  pub related_entity_id : Option ℕ

abbrev pub append_notice : Notice → Db → Db
append_notice n db = record db {
  next_id = suc db.next_id;
  notifications =
      db.notifications
      ++ record {
        id = db.next_id;
        user_id = n.user_id;
        organisation_id = n.organisation_id;
        type = n.type;
        title = n.title;
        message = n.message;
        related_entity_type = n.related_entity_type;
        related_entity_id = n.related_entity_id;
        is_read = false;
        created_at = db.clock;
        updated_at = db.clock;
      }
        ∷ [];
}

abbrev pub notify : Notice → Request (Unit {0})
notify n = execute (append_notice n)

unfoldable pub list_for_user : ℕ → ℕ → ℕ → Request (Paginated NotificationRow)
unfolding paginate
list_for_user user_id page limit = query λ db.
    paginate
      (sort_desc_by (λ (n : NotificationRow). n.created_at)
        (select (λ (n : NotificationRow). n.user_id == user_id) db.notifications))
      page limit

abbrev pub read_now : ℕ → NotificationRow → NotificationRow
read_now now n = record n { is_read = true; updated_at = now }

unfoldable pub mark_read : ℕ → ℕ → Request NotificationRow
mark_read user_id id = do
  found ← query λ db. find (λ (n : NotificationRow). n.id == id) db.notifications
  notification ← or_throw found (not_found "Notification not found")
  throw_if (not (notification.user_id == user_id)) (forbidden "Forbidden")
  now ← query λ db. db.clock
  execute λ db. record db {
    notifications =
        update_where (λ (n : NotificationRow). n.id == id) (read_now now) db.notifications;
  }
  pure (read_now now notification)

-- Returns how many rows changed.
unfoldable pub mark_all_read : ℕ → Request ℕ
mark_all_read user_id = do
  now ← query λ db. db.clock
  changed ←
      query λ db.
        select (λ (n : NotificationRow). n.user_id == user_id && not n.is_read) db.notifications
  execute λ db. record db {
    notifications =
        update_where (λ (n : NotificationRow). n.user_id == user_id && not n.is_read) (read_now now)
          db.notifications;
  }
  pure (length changed)
