-- ===== src/Push.antt =====
-- The push that `create` of src/modules/notifications/notifications.service.ts starts in the
-- background, as far as the message that is handed to the Expo SDK: `pushIfEligible` there, and
-- push-notifications.service.ts. It writes no table; what the SDK answers or throws is only logged.
pub mod Consent
use ecotrack_api.Common.{
  Bool, Option, String, false, get_or, if◌then◌else◌, none, some, str_eq, true, ℕ,
}
use ecotrack_api.Db.{NotificationPreferences, NotificationType, Request, UserRow, pure, ◌>>=◌, ◌>>◌}
use ecotrack_api.Platform.Notifications.{Notice}
use ecotrack_api.Users.{find_user}

-- The keys of `PUSH_PREFERENCE_KEY`'s values.
pub data PreferenceKey : Type 0 where
  task_assigned cleanup_scheduled schedule_changed : PreferenceKey

-- PUSH_PREFERENCE_KEY; none for a type without an entry.
unfoldable pub push_preference_key : NotificationType → Option PreferenceKey
push_preference_key NotificationType.task_assigned = some PreferenceKey.task_assigned
push_preference_key NotificationType.cleanup_scheduled = some PreferenceKey.cleanup_scheduled
push_preference_key NotificationType.task_status_changed = some PreferenceKey.schedule_changed
push_preference_key _ = none

-- `prefs[key]` as a condition: a missing key is as false.
abbrev pub preference : PreferenceKey → NotificationPreferences → Bool
preference PreferenceKey.task_assigned p = get_or p.task_assigned false
preference PreferenceKey.cleanup_scheduled p = get_or p.cleanup_scheduled false
preference PreferenceKey.schedule_changed p = get_or p.schedule_changed false

-- `preferenceKey ? prefs[preferenceKey] : true`
unfoldable pub is_enabled : NotificationType → NotificationPreferences → Bool
unfolding push_preference_key
is_enabled type p = elim (push_preference_key type) [ none ↦ true | some key ↦ preference key p ]

-- The routing payload.
pub record PushPayload : Type 0 where
  pub type : NotificationType
  pub related_entity_type : Option String
  pub related_entity_id : Option ℕ

pub record ExpoPushMessage : Type 0 where
  pub to : String
  pub title : String
  pub body : String
  pub payload : PushPayload
  pub sound : String

abbrev pub push_message : String → String → String → PushPayload → ExpoPushMessage
push_message token title body payload = record {
  to = token;
  title = title;
  body = body;
  payload = payload;
  sound = "default";
}

module _ (is_expo_push_token : String → Bool) where
  -- The message that `send` hands to the SDK, if any.
  unfoldable pub send : Option String → String → String → PushPayload → Option ExpoPushMessage
  send none title body payload = none
  send (some token) title body payload =
      if str_eq token ""
      then none
      else if is_expo_push_token token
      then some (push_message token title body payload)
      else none

  unfoldable pub push_to :
      Option UserRow → NotificationType → String → String → PushPayload → Option ExpoPushMessage
  push_to none type title body payload = none
  push_to (some u) type title body payload = elim u.push_token [
    | none ↦ none
    | some token ↦
        if str_eq token ""
        then none
        else if is_enabled type u.notification_preferences
        then send (some token) title body payload
        else none
  ]

  unfoldable pub push_if_eligible :
      ℕ → NotificationType → String → String → PushPayload → Request (Option ExpoPushMessage)
  push_if_eligible user_id type title body payload = do
    user ← find_user user_id
    pure (push_to user type title body payload)

  -- The push of `create`, with the payload that it builds.
  abbrev pub push_of : Notice → Request (Option ExpoPushMessage)
  push_of n = push_if_eligible n.user_id n.type n.title n.message record {
    type = n.type;
    related_entity_type = n.related_entity_type;
    related_entity_id = n.related_entity_id;
  }
