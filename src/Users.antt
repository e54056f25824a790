-- ===== src/Users.antt =====
-- UsersService, src/modules/users/users.service.ts: lookups, provisioning and the updates of a row.
-- `Users.Deletion` is `deleteAccount`. A UNIQUE violation is an internal error, as Nest answers it.
pub mod Deletion
pub mod Erasure
pub mod Provisioning
pub mod Reassignment
use ecotrack_api.Common.{
  Bool, Option, String, [], any, false, find, get_or, if◌then◌else◌, length, none, not, some,
  some_or, str_eq, true, update_where, ℕ, ◌&&◌, ◌++◌, ◌==◌, ◌∷◌,
}
use ecotrack_api.Db.{
  GeographyPoint, HttpException, IncidentSeverity, NotificationPreferences, Request, UserRole,
  UserRow, execute, fresh_id, internal, is_active, ok, or_throw, pure, query, throw_if, ◌>>=◌, ◌>>◌,
}
use ecotrack_api.Tasks.{user_by_id}

abbrev pub has_subject : String → UserRow → Bool
has_subject subject u = str_eq u.auth_subject subject

abbrev pub has_email : String → UserRow → Bool
has_email email u = str_eq u.email email

abbrev pub is_user : ℕ → UserRow → Bool
is_user id u = u.id == id

abbrev pub find_by_auth_subject : String → Request (Option UserRow)
find_by_auth_subject subject = query λ db. find (has_subject subject) db.users

-- `UsersService.findById`
abbrev pub find_user : ℕ → Request (Option UserRow)
find_user id = query (user_by_id id)

abbrev pub find_by_email : String → Request (Option UserRow)
find_by_email email = query λ db. find (has_email email) db.users

abbrev pub count_all : Request ℕ
count_all = query λ db. length db.users

-- The argument of `findOrProvisionByAuthSubject`.
pub record Claims : Type 0 where
  pub auth_subject : String
  pub email : String
  pub full_name : String

abbrev pub duplicate_key : HttpException
duplicate_key = internal "duplicate key value violates unique constraint"

-- UNIQUE (email), for the row with the identifier `id`.
abbrev pub email_taken : ℕ → String → UserRow → Bool
email_taken id email u = has_email email u && not (u.id == id)

abbrev pub synced_row : ℕ → Claims → UserRow → UserRow
synced_row now c u = record u { email = c.email; full_name = c.full_name; updated_at = now }

abbrev pub default_notification_preferences : NotificationPreferences
default_notification_preferences = record {
  task_assigned = some true;
  schedule_changed = some true;
  cleanup_scheduled = some false;
}

-- The row that an INSERT of the claims makes, with the column defaults of users.schema.ts.
abbrev pub new_user : ℕ → ℕ → Claims → UserRow
new_user now id c = record {
  id = id;
  auth_subject = c.auth_subject;
  email = c.email;
  full_name = c.full_name;
  role = UserRole.citizen;
  organisation_id = none;
  is_platform_admin = false;
  is_active = true;
  push_token = none;
  home_location = none;
  notification_preferences = default_notification_preferences;
  notification_radius_meters = 10000;
  notification_min_urgency = IncidentSeverity.high;
  alert_center = none;
  alert_center_updated_at = none;
  created_at = now;
  updated_at = now;
}

-- The UPDATE for an account whose email or name has changed.
unfoldable pub sync_user : Claims → UserRow → Request UserRow
sync_user c existing = do
  now ← query λ db. db.clock
  clash ← query λ db. any (email_taken existing.id c.email) db.users
  throw_if clash duplicate_key
  execute λ db. record db { users = update_where (is_user existing.id) (synced_row now c) db.users }
  pure (synced_row now c existing)

unfoldable pub provision_user : Claims → Request UserRow
provision_user c = do
  now ← query λ db. db.clock
  id ← fresh_id
  clash ← query λ db. any (has_email c.email) db.users
  throw_if clash duplicate_key
  execute λ db. record db { users = db.users ++ new_user now id c ∷ [] }
  pure (new_user now id c)

unfoldable pub find_or_provision : Claims → Request UserRow
find_or_provision c db = elim (find (has_subject c.auth_subject) db.users) [
  | some existing ↦
      if str_eq existing.email c.email && str_eq existing.full_name c.full_name
      then ok (existing, db)
      else sync_user c existing db
  | none ↦ provision_user c db
]

-- The instance of NotificationPreferencesDto: it has every key, undefined (none) where the client has
-- left it out, since ES2023 class fields are defined on the instance that the ValidationPipe makes.
pub record PreferencesPatch : Type 0 where
  pub task_assigned : Option Bool
  pub schedule_changed : Option Bool
  pub cleanup_scheduled : Option Bool

-- The argument of `updateProfile`; a push token that is given can be null.
pub record ProfilePatch : Type 0 where
  pub full_name : Option String
  pub push_token : Option (Option String)
  pub notification_preferences : Option PreferencesPatch
  pub notification_radius_meters : Option ℕ
  pub notification_min_urgency : Option IncidentSeverity
  pub alert_center : Option GeographyPoint

-- `{ ...current, ...patch }`, where the patch has every key: what it leaves undefined it overwrites
-- too, and JSON drops such a key.
abbrev pub merge_preferences : PreferencesPatch → NotificationPreferences → NotificationPreferences
merge_preferences q p = record {
  task_assigned = q.task_assigned;
  schedule_changed = q.schedule_changed;
  cleanup_scheduled = q.cleanup_scheduled;
}

abbrev pub set_at : ℕ → Option GeographyPoint → Option ℕ → Option ℕ
set_at now none before = before
set_at now (some _) before = some now

-- What `updateProfile` writes to the row, from the row `current` that it has read.
abbrev pub profile_row : ℕ → ProfilePatch → UserRow → UserRow → UserRow
profile_row now d current u = record u {
  full_name = get_or d.full_name u.full_name;
  push_token = get_or d.push_token u.push_token;
  notification_preferences = elim d.notification_preferences [
    | none ↦ u.notification_preferences
    | some q ↦ merge_preferences q current.notification_preferences
  ];
  notification_radius_meters = get_or d.notification_radius_meters u.notification_radius_meters;
  notification_min_urgency = get_or d.notification_min_urgency u.notification_min_urgency;
  alert_center = some_or d.alert_center u.alert_center;
  alert_center_updated_at = set_at now d.alert_center u.alert_center_updated_at;
  updated_at = now;
}

unfoldable pub update_profile : ℕ → ProfilePatch → Request UserRow
update_profile user_id d = do
  found ← find_user user_id
  current ← or_throw found (internal "User not found")
  now ← query λ db. db.clock
  execute λ db. record db {
    users = update_where (is_user user_id) (profile_row now d current) db.users;
  }
  pure (profile_row now d current current)

abbrev pub member_row : ℕ → Option ℕ → UserRole → Option GeographyPoint → UserRow → UserRow
member_row now organisation_id role home_location u = record u {
  organisation_id = organisation_id;
  role = role;
  home_location = some_or home_location u.home_location;
  updated_at = now;
}

-- No caller uses the row that the source returns.
abbrev pub set_membership : ℕ → Option ℕ → UserRole → Option GeographyPoint → Request (Unit {0})
set_membership user_id organisation_id role home_location = execute λ db. record db {
  users =
      update_where (is_user user_id) (member_row db.clock organisation_id role home_location)
        db.users;
}

abbrev pub set_home_location : ℕ → GeographyPoint → Request (Unit {0})
set_home_location user_id home_location = execute λ db. record db {
  users =
      update_where (is_user user_id)
        (λ (u : UserRow). record u { home_location = some home_location; updated_at = db.clock })
        db.users;
}
