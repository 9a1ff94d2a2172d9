-- ===== src/Auth/Devices.antt =====
-- The devices of internal/auth/users_devices.go.
pub mod Revocation
use rize_backend.Base.{Option, none, some}
use rize_backend.Base.{String, Bool, not, none, some, List, if◌then◌else◌}
use rize_backend.Base.{str_eq}
use rize_backend.Base.Action.{Action, ◌>>=◌, ◌>>◌, give, pure, read, write}
use rize_backend.Base.Result.{Result, ok, err, require}
use rize_backend.Store.Query.{Fault, one}
use rize_backend.Auth.{
  AuthError, device_not_found, validation, internal, begin, commit, get_device, revoke_device,
  revoke_by_device, list_devices, rename_device, Env, or_missing, succeeds, parse_id,
}
use rize_backend.Auth.Tables
use rize_backend.Auth.Tables.{
  Device, Tables, set_where, is_device, list_devices_by_user, revoke_refresh_tokens_by_device,
}
use rize_backend.Auth.Tokens.{exec, with_tokens, with_devices}

pub list_devices_of : Env → String → Action Tables AuthError (List Device)
list_devices_of env user_id = do
  uid ← pure (parse_id env user_id)
  pure (succeeds (env.faults list_devices) "auth: list devices")
  read (λ t. ok (list_devices_by_user uid t.devices))

abbrev pub renamed : String → Device → Device
renamed name d = record d { name = name }

pub rename : Env → String → String → String → Action Tables AuthError Device
rename env user_id device_id name = do
  uid ← pure (parse_id env user_id)
  did ← pure (parse_id env device_id)
  pure (require (not (str_eq (env.trim name) "")) (validation "name is required"))
  device ← read (λ t.
      or_missing (one (env.faults rename_device) (Tables.get_device_by_id did uid t.devices))
        device_not_found "auth: rename device")
  write (with_devices (set_where (is_device did uid) (renamed (env.trim name))))
  give (renamed (env.trim name) device)

abbrev pub revoked : Env → Device → Device
revoked env d = record d { revoked_at = some env.db_now }

-- The statements that both variants run.
unfoldable pub revoke_steps : Env → String → String → Action Tables AuthError (Unit {0})
revoke_steps env uid did = do
  device ← read (λ t.
      or_missing (one (env.faults get_device) (Tables.get_device_by_id did uid t.devices))
        device_not_found "auth: get device")
  exec env revoke_device "auth: revoke device"
      (with_devices (set_where (is_device did uid) (revoked env)))
  exec env revoke_by_device "auth: revoke device refresh tokens"
      (with_tokens (revoke_refresh_tokens_by_device env.db_now did uid))

abbrev pub committed_revoke : Option Fault → Tables → Tables → Result AuthError (Unit {0}) × Tables
committed_revoke none t u = (ok tt, u)
committed_revoke (some f) t u = (err (internal "auth: commit revoke device"), t)

-- Commit, or roll back to the tables before.
abbrev pub finish_revoke :
    Env → Tables → Result AuthError (Unit {0}) × Tables → Result AuthError (Unit {0}) × Tables
finish_revoke env t (err e, u) = (err e, t)
finish_revoke env t (ok r, u) = committed_revoke (env.faults commit) t u

unfoldable pub revoke_device_tx : Env → String → String → Action Tables AuthError (Unit {0})
unfolding revoke_steps
revoke_device_tx env uid did t = finish_revoke env t (
    (pure (succeeds (env.faults begin) "auth: begin revoke device transaction")
        >> revoke_steps env uid did)
      t)

pub revoke : Env → Bool → String → String → Action Tables AuthError (Unit {0})
unfolding revoke_device_tx revoke_steps
revoke env has_pool user_id device_id = do
  uid ← pure (parse_id env user_id)
  did ← pure (parse_id env device_id)
  if has_pool then revoke_device_tx env uid did else revoke_steps env uid did
