-- ===== src/Auth/Profile.antt =====
-- The profile of internal/auth/users_devices.go.
use rize_backend.Base.{String, Option, none, some, if◌then◌else◌}
use rize_backend.Base.{str_eq}
use rize_backend.Base.Action.{Action, ◌>>=◌, ◌>>◌, give, pure, read, write}
use rize_backend.Base.Result.{Result, ok, err}
use rize_backend.Store.Query.{one}
use rize_backend.Auth.{
  AuthError, user_not_found, validation, get_user, update_profile, ProfileUpdate, Env, or_missing,
  parse_id,
}
use rize_backend.Auth.Tables
use rize_backend.Auth.Tables.{User, Tables, set_where, is_user}
use rize_backend.Auth.Tokens.{with_users}

abbrev current_user : Env → String → Action Tables AuthError User
current_user env uid = read (λ t.
    or_missing (one (env.faults get_user) (Tables.get_user_by_id uid t.users)) user_not_found
      "auth: get user")

pub get_profile : Env → String → Action Tables AuthError User
get_profile env user_id = do uid ← pure (parse_id env user_id); current_user env uid

-- A field that is sent must not be blank; one that is not sent keeps its value.
changed_field : Env → Option String → Option String → String → Result AuthError (Option String)
changed_field env current none message = ok current
changed_field env current (some s) message =
    if str_eq (env.trim s) "" then err (validation message) else ok (some (env.trim s))

abbrev pub with_profile : Option String → Option String → User → User
with_profile display_name timezone u = record u { display_name = display_name; timezone = timezone }

pub update_profile_of : Env → String → ProfileUpdate → Action Tables AuthError User
unfolding changed_field
update_profile_of env user_id update = do
  uid ← pure (parse_id env user_id)
  current ← current_user env uid
  display_name ←
      pure (
        changed_field env current.display_name update.display_name "display_name must not be blank")
  timezone ← pure (changed_field env current.timezone update.timezone "timezone must not be blank")
  row ← read (λ t.
      or_missing (one (env.faults update_profile) (Tables.get_user_by_id uid t.users))
        user_not_found "auth: update user profile")
  write (with_users (set_where (is_user uid) (with_profile display_name timezone)))
  give (with_profile display_name timezone row)
