-- ===== src/Auth/Tables.antt =====
-- The tables of accounts, devices and refresh tokens, with the statements of
-- internal/store/storedb (users.sql.go, devices.sql.go, refresh_tokens.sql.go).
--
-- Columns that nothing here reads are left out: apple_user_id, server_seq, updated_at and the
-- users' created_at, last_seen_at, issued_at.
pub mod Live
pub mod Found
use rize_backend.Base.{
  ℕ, String, Bool, true, false, ◌&&◌, Option, none, some, List, [], ◌∷◌, ◌++◌, ltb, if◌then◌else◌,
  keep, any,
}
use rize_backend.Base.{str_eq}
use rize_backend.Base.Result.{Result, ok, err}
use rize_backend.Instant.{Time}
use rize_backend.Store.Query.{sqlstate, DbError, fault, find}
unfoldable pub use rize_backend.Store.Query.{is_null, set_where}
use rize_backend.Auth.{DeviceInput, Env}

pub record User : Type 0 where
  pub id : String
  pub email : Option String
  pub password_hash : Option String
  pub role : String
  pub display_name : Option String
  pub timezone : Option String
  pub deleted_at : Option Time
  pub failed_login_attempts : ℕ
  pub lockout_count : ℕ
  pub locked_until : Option Time

pub record Device : Type 0 where
  pub id : String
  pub user_id : String
  pub platform : String
  pub name : String
  pub model : String
  pub os_version : String
  pub app_version : String
  pub created_at : Time
  pub revoked_at : Option Time

pub record RefreshToken : Type 0 where
  pub id : String
  pub user_id : String
  pub device_id : String
  pub token_hash : String
  pub family_id : String
  pub expires_at : Time
  pub revoked_at : Option Time
  pub replaced_by : Option String

pub record Tables : Type 0 where
  pub users : List User
  pub devices : List Device
  pub tokens : List RefreshToken

abbrev pub is_user : String → User → Bool
is_user id u = str_eq u.id id && is_null u.deleted_at

abbrev pub get_user_by_id : String → List User → Option User
get_user_by_id id users = find (is_user id) users

-- `email = $1` on a `citext` column that can be NULL.
abbrev pub email_is : Env → Option String → Option String → Bool
email_is env none b = false
email_is env (some a) none = false
email_is env (some a) (some b) = env.same_email a b

-- `none` is SQL NULL, which no email equals.
abbrev pub get_user_by_email : Env → Option String → List User → Option User
get_user_by_email env email users =
    find (λ u. email_is env u.email email && is_null u.deleted_at) users

-- The unique constraint on users.email covers deleted users too.
abbrev pub create_user : Env → User → List User → Result DbError (List User)
create_user env new users =
    if any (λ u. email_is env u.email new.email) users
    then err (fault (sqlstate "23505" "users_email_key"))
    else ok (users ++ new ∷ [])

abbrev pub is_device : String → String → Device → Bool
is_device id uid d = str_eq d.id id && str_eq d.user_id uid && is_null d.revoked_at

abbrev pub get_device_by_id : String → String → List Device → Option Device
get_device_by_id id uid devices = find (is_device id uid) devices

-- WHERE user_id = $1 AND revoked_at IS NULL ORDER BY created_at DESC
pub insert_newest : Device → List Device → List Device
insert_newest d [] = d ∷ []
insert_newest d (e ∷ es) =
    let later = e ∷ insert_newest d es in
    if ltb d.created_at e.created_at then later else d ∷ e ∷ es

pub newest_first : List Device → List Device
unfolding insert_newest
newest_first [] = []
newest_first (d ∷ ds) = insert_newest d (newest_first ds)

pub list_devices_by_user : String → List Device → List Device
unfolding newest_first
list_devices_by_user uid devices =
    newest_first (keep (λ d. str_eq d.user_id uid && is_null d.revoked_at) devices)

abbrev pub with_metadata : DeviceInput → Device → Device
with_metadata input d = record d {
  name = input.name;
  model = input.model;
  os_version = input.os_version;
  app_version = input.app_version;
}

abbrev pub is_live : RefreshToken → Bool
is_live x = is_null x.revoked_at

abbrev pub revoke : Time → RefreshToken → RefreshToken
revoke now x = record x { revoked_at = some now }

abbrev pub get_refresh_token_by_hash : String → List RefreshToken → Option RefreshToken
get_refresh_token_by_hash hash tokens = find (λ x. str_eq x.token_hash hash) tokens

abbrev pub revoke_refresh_token_family : Time → String → List RefreshToken → List RefreshToken
revoke_refresh_token_family now family tokens =
    set_where (λ x. str_eq x.family_id family && is_live x) (revoke now) tokens

abbrev pub revoke_refresh_token_family_for_user :
    Time → String → String → List RefreshToken → List RefreshToken
revoke_refresh_token_family_for_user now family uid tokens =
    set_where (λ x. str_eq x.family_id family && str_eq x.user_id uid && is_live x) (revoke now)
      tokens

abbrev pub revoke_refresh_tokens_by_device :
    Time → String → String → List RefreshToken → List RefreshToken
revoke_refresh_tokens_by_device now device uid tokens =
    set_where (λ x. str_eq x.device_id device && str_eq x.user_id uid && is_live x) (revoke now)
      tokens

abbrev pub is_live_with : String → RefreshToken → Bool
is_live_with id x = str_eq x.id id && is_live x

abbrev pub rotate_row : Time → String → RefreshToken → RefreshToken
rotate_row now replacement x = record x { revoked_at = some now; replaced_by = some replacement }

abbrev pub rotate_refresh_token : Time → String → String → List RefreshToken → List RefreshToken
rotate_refresh_token now id replacement tokens =
    set_where (is_live_with id) (rotate_row now replacement) tokens
