-- ===== src/Auth/Tokens.antt =====
-- internal/auth/register_login.go and service.go: a new family of tokens for a device, and what a
-- caller gets.
pub mod Issued
use rize_backend.Base.{ℕ, ◌+◌, ◌/◌, String, none, List, [], ◌∷◌, ◌++◌}
use rize_backend.Base.Action.{Action, ◌>>=◌, ◌>>◌, give, pure, write}
use rize_backend.Base.Result.{or_fail}
use rize_backend.Instant.{second}
use rize_backend.Auth.{
  AuthError, internal, Call, revoke_by_device, create_token, Env, access_token_ttl,
  refresh_token_ttl, succeeds,
}
use rize_backend.Auth.Tables.{User, Device, RefreshToken, Tables, revoke_refresh_tokens_by_device}

pub record TokenPair : Type 0 where
  pub access_token : String
  pub refresh_token : String
  pub access_expires_in : ℕ

pub record LoginResult : Type 0 where
  pub user : User
  pub device : Device
  pub tokens : TokenPair

abbrev pub new_result : User → Device → String → String → LoginResult
new_result user device access refresh = record {
  user = user;
  device = device;
  tokens = record {
    access_token = access;
    refresh_token = refresh;
    access_expires_in = access_token_ttl / second;
  };
}

-- A statement that writes: it fails, or it changes the tables.
abbrev pub exec : Env → Call → String → (Tables → Tables) → Action Tables AuthError (Unit {0})
exec env call what change = pure (succeeds (env.faults call) what) >> write change

abbrev pub with_tokens : (List RefreshToken → List RefreshToken) → Tables → Tables
with_tokens f t = record t { tokens = f t.tokens }

abbrev pub with_devices : (List Device → List Device) → Tables → Tables
with_devices f t = record t { devices = f t.devices }

abbrev pub with_users : (List User → List User) → Tables → Tables
with_users f t = record t { users = f t.users }

-- The row that CreateRefreshToken inserts.
abbrev pub new_token : Env → String → String → String → String → RefreshToken
new_token env uid device_id family refresh = record {
  id = env.new_token_id;
  user_id = uid;
  device_id = device_id;
  token_hash = env.hash_token refresh;
  family_id = family;
  expires_at = env.now + refresh_token_ttl;
  revoked_at = none;
  replaced_by = none;
}

pub issue_token_pair : Env → User → Device → Action Tables AuthError LoginResult
issue_token_pair env user device = do
  exec env revoke_by_device "auth: revoke existing device refresh tokens"
      (with_tokens (revoke_refresh_tokens_by_device env.db_now device.id user.id))
  family ← pure (or_fail env.new_family_id (internal "auth: generate uuid"))
  refresh ← pure (or_fail env.new_refresh_token (internal "auth: generate refresh token"))
  exec env create_token "auth: create refresh token"
      (with_tokens (λ ts. ts ++ new_token env user.id device.id family refresh ∷ []))
  access ← pure (
      or_fail (env.issue_access_token user.id user.role device.id env.now)
        (internal "auth: issue access token"))
  give (new_result user device access refresh)
