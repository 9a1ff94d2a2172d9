-- ===== src/Auth.antt =====
-- internal/auth: the inputs, the errors and the world around the service.
pub mod Tables
pub mod Tokens
pub mod Rules
pub mod Lockout
pub mod Login
pub mod Refresh
pub mod Logout
pub mod Devices
pub mod Profile
pub mod History
mod Tests
use rize_backend.Base.{
  ℕ, zero, suc, ◌+◌, ◌-◌, ◌*◌, ◌/◌, ◌%◌, ◌^◌, ◌≤◌, ◌<◌, String, ◌≡◌, refl, sym, ap, ◌∙◌, ◌≢◌, ◌↔◌,
  ◌⊎◌, inl, inr, Bool, true, false, not, ◌&&◌, ◌||◌, Option, none, some, List, [], ◌∷◌, ◌++◌, map,
  arith, ltb, leb, ◌==◌, if◌then◌else◌, ltb→lt, lt→ltb, ltb-false→le, le→ltb-false, leb→le, ==_iff,
  Bool-cases, Option-cases, length, take, drop, keep, any, All, last?, length-append,
  take-append-drop, length-take, length-drop, sum, In, In-keep, In_of_keep, In_of_take,
  In_of_append, In-append_left, In-append_right, any-eq-true, In-All,
}
use Prim.Native.String.{◌++◌ as str_append}
use rize_backend.Base.{str_eq}
use rize_backend.Base.Action.{Action, pure}
use rize_backend.Base.Result.{Result, ok, err, ◌>>=◌, ◌>>◌, require, or_fail}
use rize_backend.Instant.{Time, second, day}
use rize_backend.Store.Query.{Fault, sqlstate, broken, DbError, no_rows, fault}

pub record DeviceInput : Type 0 where
  pub id : String
  pub platform : String
  pub name : String
  pub model : String
  pub os_version : String
  pub app_version : String

pub record ProfileUpdate : Type 0 where
  pub display_name : Option String
  pub timezone : Option String

pub data AuthError : Type 0 where
  email_taken invalid_credentials invalid_refresh_token refresh_token_reuse : AuthError
  device_not_found user_not_found : AuthError
  validation : String → AuthError
  internal : String → AuthError

-- The statements and the transaction commands that the service runs.
pub data Call : Type 0 where
  begin begin_savepoint release_savepoint commit : Call
  get_token_nowait get_token create_token rotate_token revoke_family revoke_by_device : Call
  get_user get_user_by_email create_user record_failure reset_lockout update_profile : Call
  get_device create_device update_device rename_device list_devices revoke_device : Call

-- `parse_uuid` is `pgtype.UUID.Scan`, `parse_email` the address that `mail.ParseAddress` finds,
-- `trim` `strings.TrimSpace`, `byte_length` `len`, `quote` `%q`, `same_email` equality of `citext`.
-- `hash_token`, `hash_password` and `verify_password` are the hashes; a fresh value that cannot be
-- made is `none`. `now` is `s.now()` and `db_now` PostgreSQL's now(). `issue_access_token` signs a
-- token for a user's id, a role and a device's id.
pub record Env : Type 0 where
  pub parse_uuid : String → Option String
  pub parse_email : String → Option String
  pub trim : String → String
  pub byte_length : String → ℕ
  pub quote : String → String
  pub same_email : String → String → Bool
  pub hash_token : String → String
  pub hash_password : String → Option String
  pub verify_password : String → String → Option Bool
  pub issue_access_token : String → String → String → Time → Option String
  pub new_refresh_token : Option String
  pub new_family_id : Option String
  pub new_user_id : String
  pub new_device_id : String
  pub new_token_id : String
  pub faults : Call → Option Fault
  pub now : Time
  pub db_now : Time
  pub lockout_threshold : ℕ
  pub lockout_base_duration : ℕ
  pub lockout_max_duration : ℕ

abbrev pub access_token_ttl : ℕ
access_token_ttl = 900 * second

abbrev pub refresh_token_ttl : ℕ
refresh_token_ttl = 30 * day

-- Whether an error carries an SQLSTATE.
abbrev has_state : String → Fault → Bool
has_state code broken = false
has_state code (sqlstate c name) = str_eq c code

abbrev pub is_unique_violation : Fault → Bool
is_unique_violation f = has_state "23505" f

abbrev pub is_lock_not_available : Fault → Bool
is_lock_not_available f = has_state "55P03" f

-- What the service makes of a query's error: one for no rows, one for all else.
abbrev pub or_missing : {A : Type 0} → Result DbError A → AuthError → String → Result AuthError A
or_missing (ok a) missing what = ok a
or_missing (err no_rows) missing what = err missing
or_missing (err (fault f)) missing what = err (internal what)

-- A statement whose only result is its error.
abbrev pub succeeds : Option Fault → String → Result AuthError (Unit {0})
succeeds none what = ok tt
succeeds (some f) what = err (internal what)

pub parse_id : Env → String → Result AuthError String
parse_id env s = or_fail (env.parse_uuid s) (validation (str_append "invalid id " (env.quote s)))

pub valid_email : Env → String → Result AuthError String
valid_email env email = do
  require (not (str_eq (env.trim email) "")) (validation "email is required")
  or_fail (env.parse_email (env.trim email)) (validation "email is not a valid address")

abbrev pub max_password_bytes : ℕ
max_password_bytes = 1024

pub valid_password : Env → String → Result AuthError (Unit {0})
valid_password env password = do
  require (not (ltb (env.byte_length password) 8))
      (validation "password must be at least 8 characters")
  require (not (ltb max_password_bytes (env.byte_length password)))
      (validation "password must not exceed 1024 bytes")

abbrev is_blank : Env → String → Bool
is_blank env s = str_eq (env.trim s) ""

pub validate_device : Env → DeviceInput → Result AuthError (Unit {0})
validate_device env d = do
  require (str_eq d.platform "macos" || str_eq d.platform "ios")
      (validation "device.platform must be one of \"macos\", \"ios\"")
  require (not (is_blank env d.name)) (validation "device.name is required")
  require (not (is_blank env d.model)) (validation "device.model is required")
  require (not (is_blank env d.os_version)) (validation "device.os_version is required")
  require (not (is_blank env d.app_version)) (validation "device.app_version is required")
