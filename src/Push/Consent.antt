-- ===== src/Push/Consent.antt =====
-- Which pushes an account gets after its `updateProfile`
-- (src/modules/users/users.service.ts and src/modules/notifications/notifications.service.ts).
use ecotrack_api.Common.{
  Bool, Option, Option-cases, String, arith, false, find-update_same, find_holds, get_or, inl, inr,
  none, not_true, refl, some, str_eq, true, ℕ, ◌↔◌, ◌≡◌, ◌⊎◌,
}
use ecotrack_api.Db.{Db, NotificationPreferences, NotificationType, UserRow, ok}
use ecotrack_api.Platform.Outbox.{schedule}
use ecotrack_api.Push.{
  ExpoPushMessage, PushPayload, is_enabled, push_if_eligible, push_message, push_preference_key,
  push_to, send,
}
use ecotrack_api.Tasks.{user_by_id}
use ecotrack_api.Users.{
  PreferencesPatch, ProfilePatch, is_user, merge_preferences, profile_row, update_profile,
}

-- Of the three toggles, the one of a type that has one is on.
abbrev AllowedBy : NotificationType → Option Bool → Option Bool → Option Bool → Type 0
AllowedBy NotificationType.task_assigned task schedule cleanup = task ≡ some true
AllowedBy NotificationType.task_status_changed task schedule cleanup = schedule ≡ some true
AllowedBy NotificationType.cleanup_scheduled task schedule cleanup = cleanup ≡ some true
AllowedBy _ task schedule cleanup = Unit

abbrev pub Consents : NotificationType → NotificationPreferences → Type 0
Consents type p = AllowedBy type p.task_assigned p.schedule_changed p.cleanup_scheduled

-- The patch turns the type's toggle on, where there is one.
abbrev pub TurnsOn : NotificationType → PreferencesPatch → Type 0
TurnsOn type q = AllowedBy type q.task_assigned q.schedule_changed q.cleanup_scheduled

-- The patch takes the push token away, or gives toggles and does not turn the type's on.
abbrev pub Silences : NotificationType → ProfilePatch → Type 0
Silences type d =
    (d.push_token ≡ some none)
    ⊎ ((q : PreferencesPatch) × (d.notification_preferences ≡ some q) × (TurnsOn type q → ⊥))

is_on : (x : Option Bool) → (get_or x false ≡ true) ↔ (x ≡ some true)
is_on none = ((λ e. absurd (cc)), (λ e. absurd (cc)))
is_on (some true) = ((λ e. refl), (λ e. refl))
is_on (some false) = ((λ e. absurd (cc)), (λ e. absurd (cc)))

is_enabled-Consents :
    (type : NotificationType) (p : NotificationPreferences)
    → (is_enabled type p ≡ true) ↔ Consents type p
unfolding is_enabled push_preference_key
is_enabled-Consents NotificationType.task_assigned p = is_on p.task_assigned
is_enabled-Consents NotificationType.cleanup_scheduled p = is_on p.cleanup_scheduled
is_enabled-Consents NotificationType.task_status_changed p = is_on p.schedule_changed
is_enabled-Consents NotificationType.incident_claimed p = ((λ e. tt), (λ e. refl))
is_enabled-Consents NotificationType.incident_rejected p = ((λ e. tt), (λ e. refl))
is_enabled-Consents NotificationType.task_completed p = ((λ e. tt), (λ e. refl))
is_enabled-Consents NotificationType.join_request_submitted p = ((λ e. tt), (λ e. refl))
is_enabled-Consents NotificationType.join_request_approved p = ((λ e. tt), (λ e. refl))
is_enabled-Consents NotificationType.join_request_rejected p = ((λ e. tt), (λ e. refl))
is_enabled-Consents NotificationType.event_cancelled p = ((λ e. tt), (λ e. refl))
is_enabled-Consents NotificationType.incident_proximity p = ((λ e. tt), (λ e. refl))
is_enabled-Consents NotificationType.task_due_reminder p = ((λ e. tt), (λ e. refl))
is_enabled-Consents NotificationType.event_reminder p = ((λ e. tt), (λ e. refl))
is_enabled-Consents NotificationType.volunteer_removed p = ((λ e. tt), (λ e. refl))

turned_off :
    (type : NotificationType) (q : PreferencesPatch) (p : NotificationPreferences)
    → (TurnsOn type q → ⊥)
    → is_enabled type (merge_preferences q p) ≡ false
turned_off type q p off =
    not_true _ (λ on. off ((is_enabled-Consents type (merge_preferences q p)).0 on))

-- A successful `updateProfile` returns the patched row, and that is the account's row afterwards.
updated_row :
    (user_id : ℕ) (d : ProfilePatch) (u : UserRow) (db db' : Db)
    → update_profile user_id d db ≡ ok (u, db')
    → (current : UserRow) × (u ≡ profile_row db.clock d current current)
      × (user_by_id user_id db' ≡ some u)
      × (user_by_id user_id db ≡ some current)
unfolding update_profile
updated_row user_id d u db db' h = elim (Option-cases (user_by_id user_id db)) [
  | inl none' ↦ absurd (ground arith)
  | inr (current, found) ↦
      let own : is_user user_id current ≡ true =
        find_holds (is_user user_id) db.users {a = current} found in
      let now' =
        find-update_same (is_user user_id) (is_user user_id) (profile_row db.clock d current)
          db.users {a = current} (λ y. refl) found own in
      (current, ground arith, ground (arith, now'), found)
]

module _ (is_expo_push_token : String → Bool) where
  -- The account can be pushed to at the token, and its toggles let the type through.
  pub record Reaches (type : NotificationType) (u : UserRow) (token : String) : Type 0 where
    pub registered : u.push_token ≡ some token
    pub present : str_eq token "" ≡ false
    pub genuine : is_expo_push_token token ≡ true
    pub consents : Consents type u.notification_preferences

  push_to-Reaches :
      (u : UserRow) (type : NotificationType) (title body : String) (payload : PushPayload)
      → ((m : ExpoPushMessage) × (push_to is_expo_push_token (some u) type title body payload
            ≡ some m))
        ↔ ((token : String) × Reaches type u token)
  unfolding push_to send
  push_to-Reaches u type title body payload = (sent, reached)
    where
      sent :
          (m : ExpoPushMessage) × (push_to is_expo_push_token (some u) type title body payload
              ≡ some m)
          → (token : String) × Reaches type u token
      sent (m, e) = elim (Option-cases u.push_token) [
        | inl mute ↦ absurd (ground arith)
        | inr (token, here) ↦ (
          token,
          record {
            registered = here;
            present = ground arith;
            genuine = ground arith;
            consents = (is_enabled-Consents type u.notification_preferences).0 (ground arith);
          },
        )
      ]

      reached :
          (token : String) × Reaches type u token
          → (m : ExpoPushMessage) × (push_to is_expo_push_token (some u) type title body payload
              ≡ some m)
      reached (token, r) =
          let on = (is_enabled-Consents type u.notification_preferences).1 r.consents in
          (push_message token title body payload, rw (r.registered, r.present, on, r.genuine) refl)

  silenced :
      (type : NotificationType) (d : ProfilePatch) (now : ℕ) (u : UserRow) (title body : String)
      (payload : PushPayload)
      → Silences type d
      → push_to is_expo_push_token (some (profile_row now d u u)) type title body payload ≡ none
  unfolding push_to
  silenced type d now u title body payload (inl removed) = rw removed refl
  silenced type d now u title body payload (inr (q, patch, off)) =
      let quiet = turned_off type q u.notification_preferences off in
      let after = profile_row now d u u in
      elim (Option-cases after.push_token) [
        | inl mute ↦ ground arith
        | inr (token, here) ↦ ground arith
      ]

  -- After a successful `updateProfile`, `pushIfEligible` hands a message to the SDK for the account
  -- exactly when the returned row has a push token that is not empty and that the SDK takes for one,
  -- and its toggle for the type, if there is one, is on. Where the patch gives toggles, that is so
  -- exactly when it turns this one on, so that one left out of it goes off; where it gives none, the
  -- row keeps those of before. In particular nothing is handed over where the patch took the token
  -- away, or gave toggles and did not turn this one on.
  pub update_profile-pushes :
      (user_id : ℕ) (d : ProfilePatch) (u before : UserRow) (db db' : Db) (type : NotificationType)
      (title body : String) (payload : PushPayload)
      → user_by_id user_id db ≡ some before
      → update_profile user_id d db ≡ ok (u, db')
      → (((m : ExpoPushMessage) × (push_if_eligible is_expo_push_token user_id type title body
                payload db'
              ≡ ok (some m, db')))
          ↔ ((token : String) × Reaches type u token))
        × ((q : PreferencesPatch)
            → d.notification_preferences ≡ some q
            → Consents type u.notification_preferences ↔ TurnsOn type q)
        × (d.notification_preferences ≡ none
            → u.notification_preferences ≡ before.notification_preferences)
        × (Silences type d
            → push_if_eligible is_expo_push_token user_id type title body payload db'
              ≡ ok (none, db'))
  unfolding push_if_eligible
  update_profile-pushes user_id d u before db db' type title body payload was h =
      let (current, made, found, was') = updated_row user_id d u db db' h in
      let same : current ≡ before = ground arith in
      let (to, from) = push_to-Reaches u type title body payload in
      rw found (
        ((λ (m, e). to (m, ground arith)), (λ r. let (m, e) = from r in (m, rw e refl))),
        (λ q patch.
            let at : u.notification_preferences
                ≡ merge_preferences q current.notification_preferences =
              rw (made, patch) refl in
            rw at ((λ c. c), (λ c. c))),
        (λ absent. rw (made, absent, same) refl),
        (λ s.
            let quiet = silenced type d db.clock current title body payload s in
            rw (made, quiet) refl),
      )
