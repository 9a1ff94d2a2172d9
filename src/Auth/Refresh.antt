-- ===== src/Auth/Refresh.antt =====
-- internal/auth/refresh_logout.go: rotation of a refresh token.
--
-- The tables are those at the moment at which the row lock on the presented token is held. A
-- transaction that does not commit changes nothing.
pub mod Successors
pub mod Rotation
pub mod Reuse
pub mod AfterRevocation
use rize_backend.Base.{
  String, Bool, true, false, not, Option, none, some, [], ◌∷◌, ◌++◌, if◌then◌else◌,
}
use rize_backend.Base.{str_eq}
use rize_backend.Base.Action.{Action, ◌>>=◌, ◌>>◌, give, fail, pure, read, write}
use rize_backend.Base.Result.{Result, ok, err, require, or_fail}
use rize_backend.Instant.{Time, before}
use rize_backend.Store.Query.{Fault, DbError, no_rows, fault, one, find}
use rize_backend.Auth.{
  DeviceInput, AuthError, invalid_refresh_token, refresh_token_reuse, internal, begin,
  begin_savepoint, release_savepoint, commit, get_token_nowait, get_token, create_token,
  rotate_token, revoke_family, get_user, get_device, update_device, Env, is_lock_not_available,
  or_missing, succeeds, validate_device,
}
use rize_backend.Auth.Tables
use rize_backend.Auth.Tables.{
  User, Device, RefreshToken, Tables, set_where, is_device, with_metadata, is_live_with,
  rotate_refresh_token, revoke_refresh_token_family,
}
use rize_backend.Auth.Tokens.{LoginResult, new_result, exec, with_tokens, with_devices, new_token}

-- The presented token's row, and whether the wait for its lock showed a concurrent rotation.
pub record Locked : Type 0 where
  pub current : RefreshToken
  pub contended : Bool

-- The blocking lock after the refusal of the other.
contended_lock : Env → String → Bool → Action Tables AuthError Locked
contended_lock env hash false = fail (internal "auth: get refresh token")
contended_lock env hash true = do
  current ← read (λ t.
      or_missing (one (env.faults get_token) (Tables.get_refresh_token_by_hash hash t.tokens))
        invalid_refresh_token "auth: get refresh token (contended)")
  give (record { current = current; contended = true })

lock_attempt : Env → String → Option Fault → Action Tables AuthError Locked
unfolding contended_lock
lock_attempt env hash (some f) = contended_lock env hash (is_lock_not_available f)
lock_attempt env hash none = do
  current ← read (λ t.
      or_missing (one none (Tables.get_refresh_token_by_hash hash t.tokens)) invalid_refresh_token
        "auth: get refresh token")
  pure (succeeds (env.faults release_savepoint) "auth: release lock-attempt savepoint")
  give (record { current = current; contended = false })

-- The device's row, with the metadata that the caller sent.
refreshed_device : Env → String → Device → Option DeviceInput → Action Tables AuthError Device
refreshed_device env uid row none = give row
refreshed_device env uid row (some input) = do
  pure (validate_device env input)
  updated ← read (λ t.
      or_missing (one (env.faults update_device) (Tables.get_device_by_id row.id uid t.devices))
        (internal "auth: update device metadata") "auth: update device metadata")
  write (with_devices (set_where (is_device row.id uid) (with_metadata input)))
  give (with_metadata input updated)

-- What a rotation has found and made when it comes to revoke the presented token.
pub record Successor : Type 0 where
  pub user : User
  pub device : Device
  pub refresh_token : String

-- From the check of the expiry to the new row.
pub successor : Env → RefreshToken → Option DeviceInput → Action Tables AuthError Successor
unfolding refreshed_device
successor env current device = do
  pure (require (not (before current.expires_at env.now)) invalid_refresh_token)
  user ← read (λ t.
      or_missing (one (env.faults get_user) (Tables.get_user_by_id current.user_id t.users))
        invalid_refresh_token "auth: get user")
  row ← read (λ t.
      or_missing
        (one (env.faults get_device)
          (Tables.get_device_by_id current.device_id current.user_id t.devices))
        invalid_refresh_token "auth: get device")
  device_row ← refreshed_device env current.user_id row device
  refresh ← pure (or_fail env.new_refresh_token (internal "auth: generate refresh token"))
  exec env create_token "auth: create rotated refresh token" (
      with_tokens (λ ts.
        ts ++ new_token env current.user_id current.device_id current.family_id refresh ∷ []))
  give (record { user = user; device = device_row; refresh_token = refresh })

abbrev pub rotated : Env → RefreshToken → Tables → Result DbError RefreshToken
rotated env current t = one (env.faults rotate_token) (find (is_live_with current.id) t.tokens)

abbrev pub rotate_write : Env → RefreshToken → Tables → Tables
rotate_write env current = with_tokens (rotate_refresh_token env.db_now current.id env.new_token_id)

abbrev pub signed : Env → Successor → Action Tables AuthError LoginResult
signed env s = do
  access ← pure (
      or_fail (env.issue_access_token s.user.id s.user.role s.device.id env.now)
        (internal "auth: issue access token"))
  give (new_result s.user s.device access s.refresh_token)

pub rotate : Env → RefreshToken → Option DeviceInput → Action Tables AuthError LoginResult
unfolding successor
rotate env current device = do
  s ← successor env current device
  old ←
      read
        (λ t. or_missing (rotated env current t) invalid_refresh_token "auth: rotate refresh token")
  write (rotate_write env current)
  signed env s

abbrev pub revoke_all : Env → RefreshToken → String → Action Tables AuthError (Unit {0})
revoke_all env current what =
    exec env revoke_family what
      (with_tokens (revoke_refresh_token_family env.db_now current.family_id))

-- A token that was revoked before: what the caller gets once this commits, or the error that
-- rolls back.
reused : Env → RefreshToken → Bool → Action Tables AuthError (Result AuthError LoginResult)
reused env current true = fail invalid_refresh_token
reused env current false =
    revoke_all env current "auth: revoke refresh token family on reuse"
    >> give (err refresh_token_reuse)

refresh_locked :
    Env
    → Option DeviceInput
    → Locked
    → Option Time
    → Action Tables AuthError (Result AuthError LoginResult)
unfolding reused rotate
refresh_locked env device l (some t) = reused env l.current l.contended
refresh_locked env device l none = do r ← rotate env l.current device; give (ok r)

-- The body of the transaction.
pub refresh_body :
    Env → String → Option DeviceInput → Action Tables AuthError (Result AuthError LoginResult)
unfolding lock_attempt refresh_locked
refresh_body env hash device = do
  pure (succeeds (env.faults begin) "auth: begin refresh transaction")
  pure (succeeds (env.faults begin_savepoint) "auth: begin lock-attempt savepoint")
  l ← lock_attempt env hash (env.faults get_token_nowait)
  refresh_locked env device l l.current.revoked_at

-- Commit, with its result, or roll back to the tables before.
abbrev pub committed :
    {A : Type 0} → Option Fault → Tables → Result AuthError A → Tables → Result AuthError A × Tables
committed none t r u = (r, u)
committed (some f) t r u = (err (internal "auth: commit"), t)

abbrev pub finish :
    {A : Type 0}
    → Env
    → Tables
    → Result AuthError (Result AuthError A) × Tables
    → Result AuthError A × Tables
finish env t (err e, u) = (err e, t)
finish env t (ok r, u) = committed (env.faults commit) t r u

pub refresh_tx : Env → String → Option DeviceInput → Action Tables AuthError LoginResult
unfolding refresh_body
refresh_tx env hash device t = finish env t (refresh_body env hash device t)

-- Without a pool: every statement commits by itself.
raced :
    Env
    → RefreshToken
    → Successor
    → Result DbError RefreshToken
    → Action Tables AuthError LoginResult
raced env current s (ok old) = write (rotate_write env current) >> signed env s
raced env current s (err (fault f)) = fail (internal "auth: rotate refresh token")
raced env current s (err no_rows) =
    revoke_all env current "auth: revoke refresh token family on race" >> fail refresh_token_reuse

refresh_found :
    Env → Option DeviceInput → RefreshToken → Option Time → Action Tables AuthError LoginResult
unfolding raced successor
refresh_found env device current (some t) =
    revoke_all env current "auth: revoke refresh token family on reuse" >> fail refresh_token_reuse
refresh_found env device current none = do
  s ← successor env current device
  found ← read (λ t. ok (rotated env current t))
  raced env current s found

pub refresh_no_tx : Env → String → Option DeviceInput → Action Tables AuthError LoginResult
unfolding refresh_found
refresh_no_tx env hash device = do
  current ← read (λ t.
      or_missing (one (env.faults get_token) (Tables.get_refresh_token_by_hash hash t.tokens))
        invalid_refresh_token "auth: get refresh token")
  refresh_found env device current current.revoked_at

pub refresh : Env → Bool → String → Option DeviceInput → Action Tables AuthError LoginResult
unfolding refresh_tx refresh_no_tx
refresh env has_pool refresh_token device = do
  pure (require (not (str_eq (env.trim refresh_token) "")) invalid_refresh_token)
  if has_pool
      then refresh_tx env (env.hash_token (env.trim refresh_token)) device
      else refresh_no_tx env (env.hash_token (env.trim refresh_token)) device
