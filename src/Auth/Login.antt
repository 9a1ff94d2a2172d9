-- ===== src/Auth/Login.antt =====
-- internal/auth/register_login.go.
pub mod Accounts
pub mod Refusal
pub mod Guessed
use rize_backend.Base.{
  String, Bool, true, false, not, ◌||◌, Option, none, some, List, [], ◌∷◌, ◌++◌, ltb, if◌then◌else◌,
}
use rize_backend.Base.{str_eq}
use rize_backend.Base.Action.{Action, ◌>>=◌, ◌>>◌, give, fail, pure, read, write}
use rize_backend.Base.Result.{Result, ok, err, require, or_fail}
use rize_backend.Instant.{Time, after}
use rize_backend.Store.Query.{Fault, DbError, no_rows, fault, one}
use rize_backend.Auth.{
  DeviceInput, AuthError, email_taken, invalid_credentials, internal, create_user, create_device,
  get_user_by_email, record_failure, reset_lockout, update_device, Env, is_unique_violation,
  or_missing, valid_email, valid_password, max_password_bytes, validate_device,
}
use rize_backend.Auth.Tables
use rize_backend.Auth.Tables.{
  User, Device, Tables, set_where, is_user, is_device, is_null, with_metadata,
}
use rize_backend.Auth.Tokens.{LoginResult, exec, with_devices, with_users, issue_token_pair}
use rize_backend.Auth.Lockout.{record_failed_attempt, cleared}

abbrev pub str_ptr : String → Option String
str_ptr s = if str_eq s "" then none else some s

-- What Register makes of the error of CreateUser.
created_users : Option Fault → Result DbError (List User) → Result AuthError (List User)
created_users (some f) r =
    if is_unique_violation f then err email_taken else err (internal "auth: create user")
created_users none (ok users) = ok users
created_users none (err no_rows) = err (internal "auth: create user")
created_users none (err (fault f)) =
    if is_unique_violation f then err email_taken else err (internal "auth: create user")

abbrev pub new_user : Env → String → String → User
new_user env email hash = record {
  id = env.new_user_id;
  email = str_ptr email;
  password_hash = str_ptr hash;
  role = "user";
  display_name = none;
  timezone = none;
  deleted_at = none;
  failed_login_attempts = 0;
  lockout_count = 0;
  locked_until = none;
}

abbrev pub new_device : Env → String → DeviceInput → Device
new_device env uid d = record {
  id = env.new_device_id;
  user_id = uid;
  platform = d.platform;
  name = d.name;
  model = d.model;
  os_version = d.os_version;
  app_version = d.app_version;
  created_at = env.db_now;
  revoked_at = none;
}

pub add_device : Env → String → DeviceInput → Action Tables AuthError Device
add_device env uid input = do
  let row = new_device env uid input
  exec env create_device "auth: create device" (with_devices (λ ds. ds ++ row ∷ []))
  give row

pub register : Env → String → String → DeviceInput → Action Tables AuthError LoginResult
unfolding add_device
register env email password device = do
  address ← pure (valid_email env email)
  pure (valid_password env password)
  pure (validate_device env device)
  hash ← pure (or_fail (env.hash_password password) (internal "auth: hash password"))
  let user = new_user env address hash
  users ← read (λ t. created_users (env.faults create_user) (Tables.create_user env user t.users))
  write (with_users (λ old. users))
  device_row ← add_device env user.id device
  issue_token_pair env user device_row

-- What `resolveDevice` found of a device id that the client sent: its row, or nothing.
known_device :
    Env → String → DeviceInput → Option String → Tables → Result AuthError (Option Device)
known_device env uid input none t = ok none
known_device env uid input (some id) t =
    elim (one (env.faults update_device) (Tables.get_device_by_id id uid t.devices)) [
      | ok d ↦ ok (some d)
      | err no_rows ↦ ok none
      | err (fault f) ↦ err (internal "auth: update device metadata")
    ]

-- The client's device is updated, or a new one is made.
device_or_new : Env → String → DeviceInput → Option Device → Action Tables AuthError Device
unfolding add_device
device_or_new env uid input none = add_device env uid input
device_or_new env uid input (some d) = do
  write (with_devices (set_where (is_device d.id uid) (with_metadata input)))
  give (with_metadata input d)

abbrev claimed_id : Env → DeviceInput → Option String
claimed_id env input = if str_eq input.id "" then none else env.parse_uuid input.id

pub resolve_device : Env → String → DeviceInput → Action Tables AuthError Device
unfolding known_device device_or_new
resolve_device env uid input = do
  known ← read (known_device env uid input (claimed_id env input))
  device_or_new env uid input known

-- A wrong password.
refuse : Env → User → Action Tables AuthError LoginResult
refuse env user = do
  found ← read (λ t.
      or_missing (one (env.faults record_failure) (Tables.get_user_by_id user.id t.users))
        (internal "auth: record failed login attempt") "auth: record failed login attempt")
  write (with_users (set_where (is_user user.id) (record_failed_attempt env)))
  fail invalid_credentials

-- The counters of the account, cleared if there is anything to clear.
clear_lockout : Env → User → Bool → Action Tables AuthError User
clear_lockout env user false = give user
clear_lockout env user true = do
  exec env reset_lockout "auth: reset login lockout"
      (with_users (set_where (is_user user.id) cleared))
  give (cleared user)

-- The right password.
accept : Env → User → DeviceInput → Action Tables AuthError LoginResult
unfolding clear_lockout resolve_device
accept env user device = do
  account ← clear_lockout env user (ltb 0 user.failed_login_attempts || ltb 0 user.lockout_count)
  device_row ← resolve_device env account.id device
  issue_token_pair env account device_row

-- The password's check.
checked : Env → User → DeviceInput → Option Bool → Action Tables AuthError LoginResult
unfolding refuse accept
checked env user device none = fail (internal "auth: verify password")
checked env user device (some false) = refuse env user
checked env user device (some true) = accept env user device

abbrev pub is_locked : Time → Option Time → Bool
is_locked now none = false
is_locked now (some t) = after t now

-- A locked account is refused, whatever the password.
abbrev pub if_locked :
    Bool → Action Tables AuthError LoginResult → Action Tables AuthError LoginResult
if_locked true otherwise = fail invalid_credentials
if_locked false otherwise = otherwise

-- An account that was found, and its password hash.
with_account :
    Env → String → DeviceInput → User → Option String → Action Tables AuthError LoginResult
unfolding checked
with_account env password device user none = fail invalid_credentials
with_account env password device user (some hash) =
    if_locked (is_locked env.now user.locked_until)
      (checked env user device (env.verify_password hash password))

pub login : Env → String → String → DeviceInput → Action Tables AuthError LoginResult
unfolding with_account
login env email password device = do
  address ← pure (valid_email env email)
  pure (
      require (not (str_eq password "" || ltb max_password_bytes (env.byte_length password)))
        invalid_credentials)
  pure (validate_device env device)
  user ← read (λ t.
      or_missing
        (one (env.faults get_user_by_email)
          (Tables.get_user_by_email env (str_ptr address) t.users))
        invalid_credentials "auth: get user by email")
  with_account env password device user user.password_hash
